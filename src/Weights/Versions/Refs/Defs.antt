-- ===== src/Weights/Versions/Refs/Defs.antt =====
-- What it means that the version table of `WeightTensor` is consistent.
use dorylus.Prelude.{
  ℕ, ◌+◌, ◌-◌, ◌≤◌, ◌<◌, ◌≡◌, ◌≢◌, none, some, arith, ◌==◌, Option-cases, inl, inr,
}
use dorylus.Prelude.Map.{IsSorted, find, insert, erase, count, nat_order, count_zero, count_pos}
use dorylus.Chunk.{Chunk, chunk_order}
use dorylus.Weights.Versions.Defs.{RefMat, Versions}

-- The number of the chunks that hold a version.
abbrev pub users : {M : Type 0} → ℕ → Versions M → ℕ
users v t = count (λ x. x == v) t.chunk2ver

-- The current version is the highest, a count is the number of the chunks that hold the version,
-- what a chunk holds is there, and an old version is held by some chunk.
pub record IsConsistent {M : Type 0} (t : Versions M) : Type 0 where
  pub sorted : IsSorted t.chunk2ver
  pub sorted_vers : IsSorted t.ver2mat
  pub current : find t.curr_ver t.ver2mat ≢ none
  pub bounded : (v : ℕ) (r : RefMat M) → find v t.ver2mat ≡ some r → v ≤ t.curr_ver
  pub counted : (v : ℕ) (r : RefMat M) → find v t.ver2mat ≡ some r → r.ref_cnt ≡ users v t
  pub held : (c : Chunk) (v : ℕ) → find c t.chunk2ver ≡ some v → find v t.ver2mat ≢ none
  pub used : (v : ℕ) (r : RefMat M) → find v t.ver2mat ≡ some r → v < t.curr_ver → 0 < r.ref_cnt

-- The table after each operation, with its counters written without the wrap of `unsigned`.
module _ {M : Type 0} (t : Versions M) where
  abbrev pub after_hold : Chunk → RefMat M → Versions M
  after_hold c r = record t {
    ver2mat = insert t.curr_ver (record r { ref_cnt = r.ref_cnt + 1 }) t.ver2mat;
    chunk2ver = insert c t.curr_ver t.chunk2ver;
  }

  abbrev pub after_drop : Chunk → ℕ → RefMat M → Versions M
  after_drop c v r = record t {
    ver2mat = insert v (record r { ref_cnt = r.ref_cnt - 1 }) t.ver2mat;
    chunk2ver = erase c t.chunk2ver;
  }

  abbrev pub after_last : Chunk → ℕ → Versions M
  after_last c v = record t { ver2mat = erase v t.ver2mat; chunk2ver = erase c t.chunk2ver }

  abbrev pub after_move : RefMat M → Versions M
  after_move r = record t {
    curr_ver = t.curr_ver + 1;
    ver2mat = erase t.curr_ver (insert (t.curr_ver + 1) r t.ver2mat);
  }

  abbrev pub after_stash : M → Versions M
  after_stash copy = record t {
    curr_ver = t.curr_ver + 1;
    ver2mat = insert (t.curr_ver + 1) (record { ref_cnt = 0; mat = copy }) t.ver2mat;
  }

module _ {M : Type 0} (t : Versions M) (valid : IsConsistent t) where
  -- What a chunk holds is not newer than the current version.
  pub held-le : (c : Chunk) (v : ℕ) → find c t.chunk2ver ≡ some v → v ≤ t.curr_ver
  held-le c v h = elim (Option-cases (find v t.ver2mat)) [
    | inl e ↦ absurd (valid.held c v h e)
    | inr (r, e) ↦ valid.bounded v r e
  ]

  -- Nobody holds a version to come.
  pub users_next : (v : ℕ) → t.curr_ver < v → users v t ≡ 0
  users_next v lt =
      count_zero (λ x. x == v) t.chunk2ver valid.sorted (λ c x h. ground (arith, held-le c x h))

  pub held-users : (c : Chunk) (v : ℕ) → find c t.chunk2ver ≡ some v → 0 < users v t
  held-users c v h = count_pos (λ x. x == v) c v t.chunk2ver h (ground arith)
