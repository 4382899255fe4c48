-- ===== src/Weights/Tensor/Valid.antt =====
-- The invariant of a weight tensor and its heap, and what a step may change.
use dorylus.Prelude.{
  ℕ, ◌+◌, ◌≤◌, ◌≡◌, ◌≢◌, refl, List, Bool, Option, none, some, if◌then◌else◌, ◌>>=◌, Option-cases,
  inl, inr, arith, sym, ◌∙◌,
}
use dorylus.Prelude.Map.{find, size}
use dorylus.Chunk.{Chunk, chunk_order}
use dorylus.Weights.Heap.{Heap, Matrix, num_elemts, load}
use dorylus.Weights.Versions.{mat_of, key_of}
use dorylus.Weights.Versions.Refs.{IsConsistent}
use dorylus.Weights.Tidy.{Tidy, rename-Tidy}
use dorylus.Weights.Tensor.Defs.{WeightTensor}

-- Where a tensor keeps a matrix.
pub data Slot : Type 0 where
  version : ℕ → Slot
  local_slot ghost_slot : Slot

abbrev pub place : WeightTensor → Slot → Option Matrix
place w (version v) = mat_of v w.versions
place w local_slot = some w.local_upd_mat
place w ghost_slot = if w.sync then some w.ghost_upd_mat else none

-- The number of elements of each matrix of the tensor.
abbrev pub elemts : WeightTensor → ℕ
elemts w = num_elemts w.local_upd_mat

pub record IsValid {A : Type 0} (w : WeightTensor) (h : Heap A) : Type 0 where
  pub table : IsConsistent w.versions
  pub tidy : Tidy (place w) (elemts w) h

-- The contents of a version.
abbrev pub contents : {A : Type 0} → ℕ → WeightTensor → Heap A → Option (List A)
contents v w h = do m ← mat_of v w.versions; load m h

-- The contents of the weights to which a chunk is bound.
abbrev pub weights_in : {A : Type 0} → Chunk → WeightTensor → Heap A → Option (List A)
weights_in c w h = elim (find (key_of c) w.chunk2ver) [ none ↦ none | some v ↦ contents v w h ]

-- The chunk is bound to a version.
abbrev pub IsBound : Chunk → WeightTensor → Type 0
IsBound c w = find (key_of c) w.chunk2ver ≢ none

-- A step keeps the invariant, and each of the two counters that could wrap goes up by one at most.
pub record Advances {A : Type 0} (w : WeightTensor) (w' : WeightTensor) (h' : Heap A) : Type 0 where
  pub valid : IsValid w' h'
  pub same_elemts : elemts w' ≡ elemts w
  pub same_sync : w'.sync ≡ w.sync
  pub versions_le : w'.curr_ver ≤ w.curr_ver + 1
  pub chunks_le : size w'.chunk2ver ≤ size w.chunk2ver + 1

-- A step leaves the weights of a bound chunk alone.
pub record Keeps {A : Type 0} (c : Chunk) (w : WeightTensor) (h : Heap A) (w' : WeightTensor)
    (h' : Heap A) : Type 0 where
  pub same_bound : IsBound c w'
  pub same_weights : weights_in c w' h' ≡ weights_in c w h

-- It does if the chunk's version, its matrix and what that points to stay as they were.
pub Keeps-by :
    {A : Type 0} (c : Chunk) (w : WeightTensor) (h : Heap A) (w' : WeightTensor) (h' : Heap A)
    → IsBound c w
    → ((v : ℕ)
        → find (key_of c) w.chunk2ver ≡ some v
        → (find (key_of c) w'.chunk2ver ≡ some v) × (contents v w' h' ≡ contents v w h))
    → Keeps c w h w' h'
Keeps-by c w h w' h' b same = elim (Option-cases (find (key_of c) w.chunk2ver)) [
  | inl unbound ↦ absurd (b unbound)
  | inr (v, bound) ↦ record {
    same_bound = ground (arith, same v bound);
    same_weights = ground (arith, same v bound, bound);
  }
]

-- The counters play no part in the invariant.
pub recount-IsValid :
    {A : Type 0} (w : WeightTensor) (h : Heap A) (s : Bool) (lt gt lc gc : ℕ)
    → IsValid w h
    → IsValid
        (record w {
          stop = s;
          local_upd_tot = lt;
          ghost_upd_tot = gt;
          local_upd_cnt = lc;
          ghost_upd_cnt = gc;
        })
        h
recount-IsValid w h s lt gt lc gc valid = record {
  table = valid.table;
  tidy =
      rename-Tidy (place w) (elemts w) h valid.tidy (place w') (λ s. s)
        (λ s m p. sym (same_place s) ∙ p) (λ s s' m m' p p' q. q);
}
  where
    w' : WeightTensor
    w' = record w {
      stop = s;
      local_upd_tot = lt;
      ghost_upd_tot = gt;
      local_upd_cnt = lc;
      ghost_upd_cnt = gc;
    }

    same_place : (s : Slot) → place w' s ≡ place w s
    same_place (version v) = refl
    same_place local_slot = refl
    same_place ghost_slot = refl
