-- ===== src/Engine/Aggregate/Sums.antt =====
-- The sum over the edges between two pointers is the sum over the edges of the vertex.
use dorylus.Prelude.{
  ℕ, zero, suc, ◌+◌, ◌≡◌, refl, ap, ◌∙◌, List, [], ◌∷◌, map, Option, none, some, arith, length,
  get_elem?, ◌>>=◌,
}
use dorylus.Graph.Defs.{Edge}
use dorylus.Graph.Slices.{slice}
use dorylus.Engine.Aggregate.Defs.{Tensors, place_of, row_at, add_scaled, add_edges}

slice_head :
    {B : Type 0} (lo n : ℕ) (xs r : List B) (x : B)
    → slice lo (suc n) xs ≡ x ∷ r
    → (get_elem? xs lo ≡ some x) × (slice (lo + 1) n xs ≡ r)
slice_head zero n [] r x e = absurd (cc e)
slice_head zero n (y ∷ xs) r x e = (cc e, cc e)
slice_head (suc lo) n [] r x e = absurd (cc e)
slice_head (suc lo) n (y ∷ xs) r x e =
    let (a, b) = slice_head lo n xs r x e in
    let q : suc lo + 1 ≡ suc (lo + 1) = omega arith in (a, ap (λ k. slice k n (y ∷ xs)) q ∙ b)

get_elem?-map :
    {B C : Type 0} (f : B → C) (xs : List B) (i : ℕ) {x : B}
    → get_elem? xs i ≡ some x
    → get_elem? (map f xs) i ≡ some (f x)
get_elem?-map f [] i e = absurd (cc e)
get_elem?-map f (y ∷ xs) zero e = ap some (ap f (cc e))
get_elem?-map f (y ∷ xs) (suc i) e = get_elem?-map f xs i e

bind_ext :
    {B C : Type 0} (m : Option B) (g h : B → Option C)
    → ((b : B) → g b ≡ h b)
    → (m >>= g) ≡ (m >>= h)
bind_ext none g h e = refl
bind_ext (some b) g h e = e b

module _ {A : Type 0} (plus times : A → A → A) (t : Tensors A) (local_vtx_cnt : ℕ)
    (f : Edge A → Option ℕ) where
  -- The row and the features at the other ends of the edges, each by the value of its edge; `f` gives
  -- the local id of an end.
  abbrev pub neighbour_sum : List (Edge A) → List A → Option (List A)
  neighbour_sum [] row = some row
  neighbour_sum (e ∷ es) row = do
    i ← f e
    feat ← row_at t (place_of local_vtx_cnt i)
    row' ← add_scaled plus times row feat e.edge_data
    neighbour_sum es row'

  pub add_edges-neighbour_sum :
      (idxs : List ℕ) (values : List A) (es : List (Edge A)) (lo : ℕ) (row : List A)
      → slice lo (length es) values ≡ map (λ e. e.edge_data) es
      → map some (slice lo (length es) idxs) ≡ map f es
      → add_edges plus times t (map (place_of local_vtx_cnt) idxs) values (length es) lo row
        ≡ neighbour_sum es row
  unfolding add_edges
  add_edges-neighbour_sum idxs values [] lo row p q = refl
  add_edges-neighbour_sum idxs values (e ∷ es) lo row p q =
      let (w_at, p') = slice_head lo (length es) values (map (λ e. e.edge_data) es) e.edge_data p in
      by_slice (slice lo (suc (length es)) idxs) refl q w_at
        (λ row' q'. add_edges-neighbour_sum idxs values es (lo + 1) row' p' q')
    where
      by_slice :
          (s : List ℕ)
          → slice lo (suc (length es)) idxs ≡ s
          → map some s ≡ f e ∷ map f es
          → get_elem? values lo ≡ some e.edge_data
          → ((row' : List A)
              → map some (slice (lo + 1) (length es) idxs) ≡ map f es
              → add_edges plus times t
                  (map (place_of local_vtx_cnt) idxs)
                  values
                  (length es)
                  (lo + 1)
                  row'
                ≡ neighbour_sum es row')
          → add_edges plus times t
              (map (place_of local_vtx_cnt) idxs)
              values
              (suc (length es))
              lo
              row
            ≡ neighbour_sum (e ∷ es) row
      by_slice [] h q w_at ih = absurd (cc q)
      by_slice (i ∷ s) h q w_at ih =
          let (i_at, s_is) = slice_head lo (length es) idxs s i h in
          let end : f e ≡ some i = cc q in
          let rest : map some (slice (lo + 1) (length es) idxs) ≡ map f es =
            ap (map some) s_is ∙ cc q in
          rw (w_at, get_elem?-map (place_of local_vtx_cnt) idxs lo i_at, end)
            (bind_ext (row_at t (place_of local_vtx_cnt i))
              (λ feat. add_scaled plus times row feat e.edge_data >>= λ row'.
                add_edges plus times t (map (place_of local_vtx_cnt) idxs) values (length es)
                  (lo + 1) row')
              (λ feat. add_scaled plus times row feat e.edge_data >>= λ row'. neighbour_sum es row')
              (λ feat.
                bind_ext (add_scaled plus times row feat e.edge_data)
                  (λ row'.
                    add_edges plus times t (map (place_of local_vtx_cnt) idxs) values (length es)
                      (lo + 1) row')
                  (λ row'. neighbour_sum es row') (λ row'. ih row' rest)))
