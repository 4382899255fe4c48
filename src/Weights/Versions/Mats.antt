-- ===== src/Weights/Versions/Mats.antt =====
-- Which matrix each version has after each operation on the table.
use dorylus.Prelude.{ℕ, ◌+◌, ◌-◌, ◌≡◌, none, some, arith, ◌==◌, if◌then◌else◌}
use dorylus.Prelude.Map.{find, insert, find-insert, find-erase, nat_order}
use dorylus.Chunk.{Chunk, chunk_order}
use dorylus.Weights.Versions.Defs.{RefMat, Versions, mat_of}
use dorylus.Weights.Versions.Refs.{after_hold, after_drop, after_last, after_move, after_stash}

module _ {M : Type 0} (t : Versions M) where
  pub mat_of-find : (v : ℕ) (r : RefMat M) → find v t.ver2mat ≡ some r → mat_of v t ≡ some r.mat
  unfolding mat_of
  mat_of-find v r e = rw (e, mat_of)

  pub mat_of-hold :
      (c : Chunk) (r : RefMat M)
      → find t.curr_ver t.ver2mat ≡ some r
      → (v : ℕ) → mat_of v (after_hold t c r) ≡ mat_of v t
  unfolding mat_of
  mat_of-hold c r e v =
      ground (arith, find-insert t.curr_ver v (record r { ref_cnt = r.ref_cnt + 1 }) t.ver2mat)

  pub mat_of-drop :
      (c : Chunk) (v : ℕ) (r : RefMat M)
      → find v t.ver2mat ≡ some r
      → (v' : ℕ) → mat_of v' (after_drop t c v r) ≡ mat_of v' t
  unfolding mat_of
  mat_of-drop c v r e v' =
      ground (arith, find-insert v v' (record r { ref_cnt = r.ref_cnt - 1 }) t.ver2mat)

  pub mat_of-last :
      (c : Chunk) (v v' : ℕ)
      → mat_of v' (after_last t c v) ≡ (if v == v' then none else mat_of v' t)
  unfolding mat_of
  mat_of-last c v v' = ground (arith, find-erase v v' t.ver2mat)

  pub mat_of-move :
      (r : RefMat M) (v : ℕ)
      → mat_of v (after_move t r)
        ≡ (if t.curr_ver == v then none else if t.curr_ver + 1 == v then some r.mat else mat_of v t)
  unfolding mat_of
  mat_of-move r v = ground (
    arith,
    find-insert (t.curr_ver + 1) v r t.ver2mat,
    find-erase t.curr_ver v (insert (t.curr_ver + 1) r t.ver2mat),
  )

  pub mat_of-stash :
      (copy : M) (v : ℕ)
      → mat_of v (after_stash t copy) ≡ (if t.curr_ver + 1 == v then some copy else mat_of v t)
  unfolding mat_of
  mat_of-stash copy v =
      ground (arith, find-insert (t.curr_ver + 1) v (record { ref_cnt = 0; mat = copy }) t.ver2mat)
