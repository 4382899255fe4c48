-- ===== src/Weights/Versions/Refs/Hold.antt =====
-- `getMat` on a chunk that is new keeps the table consistent.
use dorylus.Prelude.{ℕ, ◌+◌, ◌≡◌, none, some, arith, ◌==◌}
use dorylus.Prelude.Map.{find, find-insert, insert-IsSorted, count-insert_new, nat_order}
use dorylus.Chunk.{Chunk, chunk_order}
use dorylus.Weights.Versions.Defs.{RefMat, Versions}
use dorylus.Weights.Versions.Refs.Defs.{IsConsistent, after_hold}

module _ {M : Type 0} (t : Versions M) (valid : IsConsistent t) (c : Chunk) (r : RefMat M) where
  pub hold-IsConsistent :
      find c t.chunk2ver ≡ none
      → find t.curr_ver t.ver2mat ≡ some r
      → IsConsistent (after_hold t c r)
  hold-IsConsistent new e =
      let put =
        λ (v : ℕ). find-insert t.curr_ver v (record r { ref_cnt = r.ref_cnt + 1 }) t.ver2mat in
      record {
        sorted = insert-IsSorted c t.curr_ver t.chunk2ver valid.sorted;
        sorted_vers = insert-IsSorted t.curr_ver _ t.ver2mat valid.sorted_vers;
        current = ground (arith, put t.curr_ver);
        bounded = λ v r' h. ground (arith, put v, valid.bounded v r');
        counted = λ v r' h. ground (
          arith,
          put v,
          valid.counted v r',
          valid.counted t.curr_ver r e,
          count-insert_new (λ x. x == v) c t.curr_ver t.chunk2ver new,
        );
        held = λ c' v h.
            ground (arith, put v, find-insert c c' t.curr_ver t.chunk2ver, valid.held c' v);
        used = λ v r' h lt. ground (arith, put v, valid.used v r');
      }
