-- ===== src/Weights/Tensor/Free.antt =====
-- `WeightTensor::free` on a valid tensor.
use dorylus.Prelude.{
  ℕ, ◌≡◌, ◌≢◌, refl, [], ◌∷◌, Option, none, some, true, if◌then◌else◌, arith, Bool-cases, inl, inr,
  Option-cases,
}
use dorylus.Prelude.Map.{Map, IsSorted, IsAbove-find, find, nat_order, same, same→eq, same_refl}
use dorylus.Weights.Heap.{Heap, Matrix, free}
use dorylus.Weights.Versions.{RefMat, mat_of}
use dorylus.Weights.Tidy.{Tidy, free-Tidy, rename-Tidy}
use dorylus.Weights.Tensor.Defs.{WeightTensor, free_versions, free_tensor}
use dorylus.Weights.Tensor.Valid.{Slot, version, local_slot, ghost_slot, place, elemts, IsValid}

-- Where the tensor keeps a matrix, with these versions left.
abbrev left : WeightTensor → Map ℕ (RefMat Matrix) → Slot → Option Matrix
left w m (version v) = elim (find v m) [ none ↦ none | some r ↦ some r.mat ]
left w m local_slot = some w.local_upd_mat
left w m ghost_slot = if w.sync then some w.ghost_upd_mat else none

-- With the ghost updates left only, and with nothing left.
abbrev ghost_left : WeightTensor → Slot → Option Matrix
ghost_left w (version v) = none
ghost_left w local_slot = none
ghost_left w ghost_slot = if w.sync then some w.ghost_upd_mat else none

abbrev nothing_left : Slot → Option Matrix
nothing_left s = none

module _ {A : Type 0} (m : Matrix) (h h' : Heap A) (eq : free m h ≡ some h') where
  -- What is gone stays gone.
  free-none : (p : ℕ) → h.cell p ≡ none → h'.cell p ≡ none
  unfolding free
  free-none p e = ground arith

  free-cell : (p : ℕ) → m.buf ≡ some p → h'.cell p ≡ none
  unfolding free
  free-cell p e = ground arith

module _ {A : Type 0} (w : WeightTensor) (n : ℕ) where
  -- After the loop over the versions.
  free_versions-Tidy :
      (m : Map ℕ (RefMat Matrix)) (h : Heap A)
      → IsSorted m
      → Tidy (left w m) n h
      → (h' : Heap A) × (free_versions m h ≡ some h')
        × Tidy (left w []) n h'
        × ((p : ℕ) → h.cell p ≡ none → h'.cell p ≡ none)
        × ((v : ℕ) (r : RefMat Matrix) (p : ℕ)
            → find v m ≡ some r
            → r.mat.buf ≡ some p
            → h'.cell p ≡ none)
  unfolding free_versions find
  free_versions-Tidy [] h s tidy = (h, refl, tidy, (λ p e. e), λ v r p e b. cc)
  free_versions-Tidy ((v, r) ∷ m) h s tidy =
      let here : left w ((v, r) ∷ m) (version v) ≡ some r.mat = ground (arith, same_refl v) in
      let (h1, eq1, tidy1, loads) =
        free-Tidy (left w ((v, r) ∷ m)) n h tidy (left w m) (version v) r.mat here
          (rest_of v r m s) in
      let (h', eq, tidy', none_stays, gone) = free_versions-Tidy m h1 s.1 tidy1 in
      (
        h',
        ground (arith, eq1, eq),
        tidy',
        (λ p e. none_stays p (free-none r.mat h h1 eq1 p e)),
        λ v' r' p e b. elim (Bool-cases (same v v')) [
          | inl yes_same ↦
              none_stays p (free-cell r.mat h h1 eq1 p (ground (arith, yes_same, e, b)))
          | inr other ↦ gone v' r' p (ground (arith, other, e)) b
        ],
      )
    where
      rest_of :
          (v : ℕ) (r : RefMat Matrix) (m : Map ℕ (RefMat Matrix))
          → IsSorted ((v, r) ∷ m)
          → (s' : Slot) (m' : Matrix) → left w m s' ≡ some m'
          → (left w ((v, r) ∷ m) s' ≡ some m') × (s' ≢ version v)
      rest_of v r m s (version v') m' e = (
        ground (arith, e, same→eq v v', IsAbove-find v m s.0),
        λ q. ground (arith, e, IsAbove-find v m s.0),
      )
      rest_of v r m s local_slot m' e = (e, λ q. cc)
      rest_of v r m s ghost_slot m' e = (e, λ q. cc)

module _ {A : Type 0} (w : WeightTensor) (h : Heap A) (valid : IsValid w h) where
  -- `free` on a valid tensor faults nowhere, so it frees no array twice, and leaves none: the arrays of
  -- all versions and of the update buffers are gone.
  pub free_tensor_lem :
      (h' : Heap A) × (free_tensor w h ≡ some h')
      × ((s : Slot) (m : Matrix) (p : ℕ) → place w s ≡ some m → m.buf ≡ some p → h'.cell p ≡ none)
  unfolding free_tensor mat_of
  free_tensor_lem =
      let (h1, eq1, tidy1, stays, gone) =
        free_versions-Tidy w (elemts w) w.ver2mat h valid.table.sorted_vers all_left in
      let (h2, eq2, tidy2, loads2) =
        free-Tidy (left w []) (elemts w) h1 tidy1 (ghost_left w) local_slot w.local_upd_mat refl
          but_local in
      elim (Bool-cases w.sync) [
        | inr async ↦ (
          h2,
          ground (arith, eq1, eq2, async),
          λ s m p e b. last s m p h1 h2 h2 gone eq2 (λ q z. z) (λ q sy. absurd (cc)) e b,
        )
        | inl sync ↦
            let (h3, eq3, tidy3, loads3) =
              free-Tidy (ghost_left w) (elemts w) h2 tidy2 nothing_left ghost_slot w.ghost_upd_mat
                (ground (arith, sync)) (λ s m e. absurd (cc)) in
            (
              h3,
              ground (arith, eq1, eq2, eq3, sync),
              λ s m p e b.
                  last s m p h1 h2 h3 gone eq2 (free-none w.ghost_upd_mat h2 h3 eq3)
                    (λ q sy. free-cell w.ghost_upd_mat h2 h3 eq3 q) e b,
            )
      ]
    where
      but_local :
          (s : Slot) (m : Matrix)
          → ghost_left w s ≡ some m
          → (left w [] s ≡ some m) × (s ≢ local_slot)
      but_local (version v) m e = absurd (cc e)
      but_local local_slot m e = absurd (cc e)
      but_local ghost_slot m e = (e, λ q. cc)

      same_place : (s : Slot) (m : Matrix) → left w w.ver2mat s ≡ some m → place w s ≡ some m
      same_place (version v) m e = e
      same_place local_slot m e = e
      same_place ghost_slot m e = e

      all_left : Tidy (left w w.ver2mat) (elemts w) h
      all_left =
          rename-Tidy (place w) (elemts w) h valid.tidy (left w w.ver2mat) (λ s. s) same_place
            (λ s s' m m' p p' q. q)

      last :
          (s : Slot) (m : Matrix) (p : ℕ) (h1 h2 h3 : Heap A)
          → ((v : ℕ) (r : RefMat Matrix) (p : ℕ)
              → find v w.ver2mat ≡ some r
              → r.mat.buf ≡ some p
              → h1.cell p ≡ none)
          → free w.local_upd_mat h1 ≡ some h2
          → ((q : ℕ) → h2.cell q ≡ none → h3.cell q ≡ none)
          → ((q : ℕ) → w.sync ≡ true → w.ghost_upd_mat.buf ≡ some q → h3.cell q ≡ none)
          → place w s ≡ some m
          → m.buf ≡ some p
          → h3.cell p ≡ none
      last (version v) m p h1 h2 h3 gone eq stays ghost e b =
          elim (Option-cases (find v w.ver2mat)) [
            | inl z ↦ ground (arith, z, e)
            | inr (r, z) ↦
                stays p
                  (free-none w.local_upd_mat h1 h2 eq p (gone v r p z (ground (arith, z, e, b))))
          ]
      last local_slot m p h1 h2 h3 gone eq stays ghost e b =
          stays p (free-cell w.local_upd_mat h1 h2 eq p (ground (arith, e, b)))
      last ghost_slot m p h1 h2 h3 gone eq stays ghost e b = elim (Bool-cases w.sync) [
        | inl sy ↦ ghost p sy (ground (arith, sy, e, b))
        | inr no_sy ↦ ground (arith, no_sy, e)
      ]
