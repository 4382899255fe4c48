-- ===== src/Weights/Versions/Refs/Drop.antt =====
-- `decRef` keeps the table consistent, whether the version stays or goes.
use dorylus.Prelude.{ℕ, ◌-◌, ◌<◌, ◌≡◌, ◌≢◌, some, arith, ◌==◌}
use dorylus.Prelude.Map.{
  find, erase, find-insert, find-erase, erase-IsSorted, insert-IsSorted, count-erase, count_pos,
  nat_order,
}
use dorylus.Chunk.{Chunk, chunk_order}
use dorylus.Weights.Versions.Defs.{RefMat, Versions}
use dorylus.Weights.Versions.Refs.Defs.{IsConsistent, after_drop, after_last}

module _ {M : Type 0} (t : Versions M) (valid : IsConsistent t) (c : Chunk) (v : ℕ) (r : RefMat M)
    (hc : find c t.chunk2ver ≡ some v) (hv : find v t.ver2mat ≡ some r) where
  pub drop_ref-IsConsistent : (v < t.curr_ver → r.ref_cnt ≢ 1) → IsConsistent (after_drop t c v r)
  drop_ref-IsConsistent keep =
      let put = λ (w : ℕ). find-insert v w (record r { ref_cnt = r.ref_cnt - 1 }) t.ver2mat in
      record {
        sorted = erase-IsSorted c t.chunk2ver valid.sorted;
        sorted_vers = insert-IsSorted v _ t.ver2mat valid.sorted_vers;
        current = ground (arith, put t.curr_ver, valid.current);
        bounded = λ v' r' h. ground (arith, put v', valid.bounded v' r', valid.bounded v r hv);
        counted = λ v' r' h. ground (
          arith,
          put v',
          valid.counted v' r',
          valid.counted v r hv,
          count-erase (λ x. x == v') c v t.chunk2ver valid.sorted hc,
        );
        held = λ c' v' h. ground (arith, put v', find-erase c c' t.chunk2ver, valid.held c' v');
        used = λ v' r' h lt. ground (arith, put v', keep, valid.used v' r', valid.used v r hv);
      }

  pub drop_last-IsConsistent : v < t.curr_ver → r.ref_cnt ≡ 1 → IsConsistent (after_last t c v)
  drop_last-IsConsistent old last = record {
    sorted = erase-IsSorted c t.chunk2ver valid.sorted;
    sorted_vers = erase-IsSorted v t.ver2mat valid.sorted_vers;
    current = ground (arith, find-erase v t.curr_ver t.ver2mat, valid.current);
    bounded = λ v' r' h. ground (arith, find-erase v v' t.ver2mat, valid.bounded v' r');
    counted = λ v' r' h. ground (
      arith,
      find-erase v v' t.ver2mat,
      valid.counted v' r',
      count-erase (λ x. x == v') c v t.chunk2ver valid.sorted hc,
    );
    held = λ c' v' h. ground (
      arith,
      find-erase v v' t.ver2mat,
      find-erase c c' t.chunk2ver,
      valid.held c' v',
      valid.counted v r hv,
      count-erase (λ x. x == v) c v t.chunk2ver valid.sorted hc,
      count_pos (λ x. x == v) c' v' (erase c t.chunk2ver) h,
    );
    used = λ v' r' h lt. ground (arith, find-erase v v' t.ver2mat, valid.used v' r');
  }
