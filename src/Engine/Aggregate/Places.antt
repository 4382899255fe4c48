-- ===== src/Engine/Aggregate/Places.antt =====
-- The pointers that `srcVFeats2eFeats` makes follow the indices of the matrix.
use dorylus.Prelude.{
  ℕ, zero, suc, ◌+◌, ◌-◌, ◌≡◌, ◌<◌, ◌≤◌, refl, sym, ap, ◌∙◌, List, [], ◌∷◌, ◌++◌, map, Option, some,
  arith, length, length-append, get_elem?, get_elem?-lt, take,
}
use dorylus.Graph.Defs.{Edge, Vertex}
use dorylus.Graph.Columns.{all_edges, ptrs_of}
use dorylus.Engine.Aggregate.Defs.{Place, of_vertex, place_of, edge_places, vertex_places}

take-snoc :
    {B : Type 0} (xs : List B) (i : ℕ) {x : B}
    → get_elem? xs i ≡ some x
    → take (i + 1) xs ≡ take i xs ++ x ∷ []
take-snoc [] i e = absurd (cc e)
take-snoc (y ∷ xs) zero {x} e = let q : y ≡ x = cc e in ap (λ z. z ∷ []) q
take-snoc (y ∷ xs) (suc i) {x} e =
    let q : suc i + 1 ≡ suc (i + 1) = omega arith in
    ap (λ k. take k (y ∷ xs)) q ∙ ap (λ l. y ∷ l) (take-snoc xs i e)

take_all : {B : Type 0} (xs : List B) → take (length xs) xs ≡ xs
take_all [] = refl
take_all (x ∷ xs) = ap (λ l. x ∷ l) (take_all xs)

map_snoc :
    {B C : Type 0} (f : B → C) (xs : List B) (x : B) → map f (xs ++ x ∷ []) ≡ map f xs ++ f x ∷ []
map_snoc f [] x = refl
map_snoc f (y ∷ xs) x = ap (λ l. f y ∷ l) (map_snoc f xs x)

-- Of the `n` vertices from `lvid` on, each has its edges behind those of the one before.
abbrev pub IsChain : List ℕ → ℕ → ℕ → ℕ → Type 0
IsChain ptrs m n lvid =
    (k : ℕ)
    → lvid ≤ k
    → k < lvid + n
    → (lo : ℕ) × (d : ℕ) × (get_elem? ptrs k ≡ some lo)
      × (get_elem? ptrs (k + 1) ≡ some (lo + d))
      × (lo + d ≤ m)

module _ (local_vtx_cnt : ℕ) (idxs : List ℕ) where
  -- The pointers to the sources of the first edges.
  abbrev firsts : ℕ → List Place
  firsts i = map (place_of local_vtx_cnt) (take i idxs)

  edge_places-firsts :
      (lvid n lo : ℕ) (dsts : List Place)
      → lo + n ≤ length idxs
      → (dsts' : List Place) × (edge_places local_vtx_cnt idxs lvid n lo (firsts lo, dsts)
          ≡ some (firsts (lo + n), dsts'))
  unfolding edge_places
  edge_places-firsts lvid zero lo dsts h =
      let q : lo ≡ lo + 0 = omega arith in (dsts, ap (λ k. some (firsts k, dsts)) q)
  edge_places-firsts lvid (suc n) lo dsts h =
      let (vid, e) = get_elem?-lt idxs lo (omega (arith, h)) in
      let (dsts', r) =
        edge_places-firsts lvid n (lo + 1) (dsts ++ of_vertex lvid ∷ []) (omega (arith, h)) in
      let more : firsts lo ++ place_of local_vtx_cnt vid ∷ [] ≡ firsts (lo + 1) =
        sym (map_snoc (place_of local_vtx_cnt) (take lo idxs) vid)
        ∙ ap (map (place_of local_vtx_cnt)) (sym (take-snoc idxs lo e)) in
      let q : lo + 1 + n ≡ lo + suc n = omega arith in
      (
        dsts',
        rw e (
            ap
              (λ s. edge_places local_vtx_cnt idxs lvid n (lo + 1) (s, dsts ++ of_vertex lvid ∷ []))
              more
            ∙ r
            ∙ ap (λ k. some (firsts k, dsts')) q),
      )

  vertex_places-firsts :
      (ptrs : List ℕ) (n lvid lo hi : ℕ) (dsts : List Place)
      → IsChain ptrs (length idxs) n lvid
      → get_elem? ptrs lvid ≡ some lo
      → get_elem? ptrs (lvid + n) ≡ some hi
      → (dsts' : List Place) × (vertex_places local_vtx_cnt ptrs idxs n lvid (firsts lo, dsts)
          ≡ some (firsts hi, dsts'))
  unfolding vertex_places
  vertex_places-firsts ptrs zero lvid lo hi dsts chain first last =
      let q : lvid + 0 ≡ lvid = omega arith in
      let same_ptr : lo ≡ hi = cc (first, last, q) in
      (dsts, ap (λ k. some (firsts k, dsts)) same_ptr)
  vertex_places-firsts ptrs (suc n) lvid lo hi dsts chain first last =
      let (lo', d, p, q, fits) = chain lvid (omega arith) (omega arith) in
      let same_lo : lo' ≡ lo = cc (p, first) in
      let next : get_elem? ptrs (lvid + 1) ≡ some (lo + d) = q ∙ ap (λ k. some (k + d)) same_lo in
      let (dsts1, r) = edge_places-firsts lvid d lo dsts (omega (arith, fits, same_lo)) in
      let c : lvid + 1 + n ≡ lvid + suc n = omega arith in
      let (dsts2, s) =
        vertex_places-firsts ptrs n (lvid + 1) (lo + d) hi dsts1
          (λ k a b. chain k (omega (arith, a)) (omega (arith, b))) next
          (ap (get_elem? ptrs) c ∙ last) in
      let diff : lo + d - lo ≡ d = omega arith in (dsts2, rw (first, next, diff, r) s)

  -- For pointers that are a chain from 0 to the last edge: the function does not read outside the
  -- arrays, and makes for each edge the pointer to its source.
  pub vertex_places-map :
      (ptrs : List ℕ) (n : ℕ)
      → IsChain ptrs (length idxs) n 0
      → get_elem? ptrs 0 ≡ some 0
      → get_elem? ptrs n ≡ some (length idxs)
      → (dsts : List Place) × (vertex_places local_vtx_cnt ptrs idxs n 0 ([], [])
          ≡ some (map (place_of local_vtx_cnt) idxs, dsts))
  vertex_places-map ptrs n chain first last =
      let q : 0 + n ≡ n = omega arith in
      let (dsts, r) =
        vertex_places-firsts ptrs n 0 0 (length idxs) [] chain first
          (ap (get_elem? ptrs) q ∙ last) in
      (dsts, r ∙ ap (λ l. some (map (place_of local_vtx_cnt) l, dsts)) (take_all idxs))

module _ {A : Type 0} (f : Edge A → Option ℕ) (edges : Vertex A → List (Edge A)) where
  pub ptrs_first :
      (low : ℕ) (vs : List (Vertex A)) → get_elem? (ptrs_of f edges low vs) 0 ≡ some low
  ptrs_first low [] = refl
  ptrs_first low (v ∷ vs) = refl

  pub ptrs_chain :
      (vs : List (Vertex A)) (low k : ℕ)
      → k < length vs
      → (lo : ℕ) × (d : ℕ) × (get_elem? (ptrs_of f edges low vs) k ≡ some (low + lo))
        × (get_elem? (ptrs_of f edges low vs) (suc k) ≡ some (low + lo + d))
        × (lo + d ≤ length (all_edges f edges vs))
  ptrs_chain [] low k h = absurd (omega arith)
  ptrs_chain (v ∷ vs) low zero h =
      let q : low ≡ low + 0 = omega arith in
      (
        0,
        length (edges v),
        ap some q,
        ptrs_first (low + length (edges v)) vs ∙ ap (λ k. some (k + length (edges v))) q,
        omega (arith, length-append (edges v) (all_edges f edges vs)),
      )
  ptrs_chain (v ∷ vs) low (suc k) h =
      let (lo, d, p, q, fits) = ptrs_chain vs (low + length (edges v)) k (omega arith) in
      (
        length (edges v) + lo,
        d,
        p ∙ ap some (omega arith),
        q ∙ ap some (omega arith),
        omega (arith, fits, length-append (edges v) (all_edges f edges vs)),
      )

  pub ptrs_last :
      (vs : List (Vertex A)) (low : ℕ)
      → get_elem? (ptrs_of f edges low vs) (length vs) ≡ some (low + length (all_edges f edges vs))
  ptrs_last [] low = ap some (omega arith)
  ptrs_last (v ∷ vs) low =
      ptrs_last vs (low + length (edges v))
      ∙ ap some (omega (arith, length-append (edges v) (all_edges f edges vs)))
