-- ===== src/Chunk/Defs.antt =====
-- `PROP_TYPE` and `Chunk` of src/common/utils.hpp.
use dorylus.Prelude.{ℕ, Bool, true, false, not, ◌&&◌, ◌||◌, ltb, ◌==◌}

pub data PropType : Type 0 where
  forward backward : PropType

abbrev pub is_forward : PropType → Bool
is_forward forward = true
is_forward backward = false

pub record Chunk : Type 0 where
  pub local_id : ℕ
  pub global_id : ℕ
  pub low_bound : ℕ
  pub up_bound : ℕ
  pub layer : ℕ
  pub dir : PropType
  pub epoch : ℕ
  pub vertex : Bool

-- `dir > rhs.dir`, and the equality of two flags.
abbrev dir_gt : PropType → PropType → Bool
dir_gt a b = not (is_forward a) && is_forward b

abbrev flag_eq : Bool → Bool → Bool
flag_eq a b = (a && b) || (not a && not b)

-- `operator<`.
unfoldable pub chunk_lt : Chunk → Chunk → Bool
chunk_lt a b =
    ltb b.epoch a.epoch
    || ((a.epoch == b.epoch)
        && (dir_gt a.dir b.dir
            || (flag_eq (is_forward a.dir) (is_forward b.dir)
                && ((is_forward a.dir && ltb b.layer a.layer)
                    || ((not (is_forward a.dir) && ltb a.layer b.layer)
                        || ((a.layer == b.layer)
                            && ((is_forward a.dir && (not a.vertex && b.vertex))
                                || ((not (is_forward a.dir) && (a.vertex && not b.vertex))
                                    || (flag_eq a.vertex b.vertex
                                        && (ltb b.local_id a.local_id
                                            || ((a.local_id == b.local_id)
                                                && (ltb b.global_id a.global_id
                                                    || ((a.global_id == b.global_id)
                                                        && (ltb b.low_bound a.low_bound
                                                            || ((a.low_bound == b.low_bound)
                                                            && ltb b.up_bound
                                                            a.up_bound)))))))))))))))

unfoldable pub is_first_layer : Chunk → Bool
is_first_layer c = is_forward c.dir && ((c.layer == 0) && c.vertex)

unfoldable pub is_last_layer : Chunk → Bool
is_last_layer c = not (is_forward c.dir) && ((c.layer == 0) && c.vertex)
