-- ===== src/Weights/Versions/Refs/Advance.antt =====
-- `updateVersion` keeps the table consistent, whether it moves the current version or stashes it.
use dorylus.Prelude.{ℕ, ◌+◌, ◌<◌, ◌≡◌, some, arith}
use dorylus.Prelude.Map.{
  find, insert, find-insert, find-erase, insert-IsSorted, erase-IsSorted, nat_order,
}
use dorylus.Chunk.{chunk_order}
use dorylus.Weights.Versions.Defs.{RefMat, Versions}
use dorylus.Weights.Versions.Refs.Defs.{
  IsConsistent, after_move, after_stash, users_next, held-users,
}

module _ {M : Type 0} (t : Versions M) (valid : IsConsistent t) (r : RefMat M)
    (hv : find t.curr_ver t.ver2mat ≡ some r) where
  pub move_version-IsConsistent : r.ref_cnt ≡ 0 → IsConsistent (after_move t r)
  move_version-IsConsistent free =
      let put = λ (v : ℕ). find-insert (t.curr_ver + 1) v r t.ver2mat in
      let gone = λ (v : ℕ). find-erase t.curr_ver v (insert (t.curr_ver + 1) r t.ver2mat) in
      record {
        sorted = valid.sorted;
        sorted_vers =
            erase-IsSorted t.curr_ver _
              (insert-IsSorted (t.curr_ver + 1) r t.ver2mat valid.sorted_vers);
        current = ground (arith, gone (t.curr_ver + 1), put (t.curr_ver + 1));
        bounded = λ v r' h. ground (arith, gone v, put v, valid.bounded v r');
        counted = λ v r' h.
            ground (arith, gone v, put v, valid.counted v r', users_next t valid (t.curr_ver + 1));
        held = λ c v h. ground (
          arith,
          gone v,
          put v,
          valid.held c v h,
          held-users t valid c v h,
          valid.counted t.curr_ver r hv,
        );
        used = λ v r' h lt. ground (arith, gone v, put v, valid.used v r', valid.bounded v r');
      }

  pub stash_version-IsConsistent : (copy : M) → 0 < r.ref_cnt → IsConsistent (after_stash t copy)
  stash_version-IsConsistent copy busy =
      let put =
        λ (v : ℕ). find-insert (t.curr_ver + 1) v (record { ref_cnt = 0; mat = copy }) t.ver2mat in
      record {
        sorted = valid.sorted;
        sorted_vers = insert-IsSorted (t.curr_ver + 1) _ t.ver2mat valid.sorted_vers;
        current = ground (arith, put (t.curr_ver + 1));
        bounded = λ v r' h. ground (arith, put v, valid.bounded v r');
        counted = λ v r' h.
            ground (arith, put v, valid.counted v r', users_next t valid (t.curr_ver + 1));
        held = λ c v h. ground (arith, put v, valid.held c v h);
        used = λ v r' h lt.
            ground (arith, put v, valid.used v r', valid.bounded v r', valid.counted v r');
      }
