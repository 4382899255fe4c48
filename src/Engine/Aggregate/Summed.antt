-- ===== src/Engine/Aggregate/Summed.antt =====
-- The sums over the neighbours, and the loops of the aggregation over the matrix of a graph.
use dorylus.Prelude.{
  ℕ, suc, ◌+◌, ◌-◌, ◌≡◌, ◌<◌, ◌≤◌, sym, ap, ◌∙◌, List, [], map, Option, some, arith, length,
  get_elem?, ◌>>=◌, >>=-eq-some,
}
use dorylus.Graph.Defs.{Edge, Vertex, RawGraph}
use dorylus.Graph.Columns.{Resolved, ids_of, ptrs_of}
use dorylus.Graph.Slices.{data_of}
use dorylus.Graph.Adjacency.{whole-Slices}
use dorylus.Graph.Finished.{length-ids_of}
use dorylus.Engine.Aggregate.Defs.{
  Place, Tensors, AdjMatrix, place_of, vertex_places, add_vertex_edges, gcn_row, copy_rows,
  for_rows,
}
use dorylus.Engine.Aggregate.Places.{vertex_places-map, ptrs_first, ptrs_chain, ptrs_last}
use dorylus.Engine.Aggregate.Sums.{neighbour_sum, add_edges-neighbour_sum}
use dorylus.Engine.Aggregate.Rows.{IsRows, IsRows-trans, copy_rows-IsRows, for_rows-IsRows}

module _ {A : Type 0} (plus times : A → A → A) (t : Tensors A) (norms : List A)
    (feats : List (List A)) (g : RawGraph A) where
  -- The feature of a vertex by its factor, and of the other end of each of its edges by the edge's value.
  abbrev pub summed : (Edge A → Option ℕ) → (Vertex A → List (Edge A)) → ℕ → Option (List A)
  summed f edges lvid = do
    row ← get_elem? feats lvid
    norm ← get_elem? norms lvid
    v ← get_elem? g.vertices lvid
    neighbour_sum plus times t g.num_local_vertices f (edges v) (map (λ x. times x norm) row)

  -- The same without factors.
  abbrev pub gathered : (Edge A → Option ℕ) → (Vertex A → List (Edge A)) → ℕ → Option (List A)
  gathered f edges lvid = do
    row ← get_elem? feats lvid
    v ← get_elem? g.vertices lvid
    neighbour_sum plus times t g.num_local_vertices f (edges v) row

  module _ (f : Edge A → Option ℕ) (edges : Vertex A → List (Edge A))
      (r : Resolved f edges g.vertices) (sized : length g.vertices ≡ g.num_local_vertices) where
    pub vertex_places-eq :
        (dsts : List Place) × (vertex_places g.num_local_vertices
            (ptrs_of f edges 0 g.vertices)
            (ids_of f edges g.vertices r)
            g.num_local_vertices
            0
            ([], [])
          ≡ some (map (place_of g.num_local_vertices) (ids_of f edges g.vertices r), dsts))
    vertex_places-eq =
        let n = g.num_local_vertices in
        let ptrs = ptrs_of f edges 0 g.vertices in
        let idxs = ids_of f edges g.vertices r in
        let l = length-ids_of f edges g.vertices r in
        vertex_places-map n idxs ptrs n
          (λ k a b.
            let (lo, d, p, q, fits) = ptrs_chain f edges g.vertices 0 k (omega (arith, b, sized)) in
            let next : k + 1 ≡ suc k = omega arith in
            (0 + lo, d, p, ap (get_elem? ptrs) next ∙ q, omega (arith, fits, l)))
          (ptrs_first f edges 0 g.vertices)
          (ap (get_elem? ptrs) (sym sized)
            ∙ ptrs_last f edges g.vertices 0
            ∙ ap some (omega (arith, l)))

    -- The pointers to the ends of the edges, and the matrix.
    abbrev pub places_of : List Place
    places_of = map (place_of g.num_local_vertices) (ids_of f edges g.vertices r)

    abbrev pub adj_of : AdjMatrix A
    adj_of = record { ptrs = ptrs_of f edges 0 g.vertices; values = data_of f edges g g.vertices }

    add_vertex_edges-neighbour_sum :
        (lvid : ℕ) {v : Vertex A} (row : List A)
        → get_elem? g.vertices lvid ≡ some v
        → add_vertex_edges plus times t places_of adj_of lvid row
          ≡ neighbour_sum plus times t g.num_local_vertices f (edges v) row
    unfolding add_vertex_edges
    add_vertex_edges-neighbour_sum lvid {v} row c =
        let (lo, p, q, s, m) = whole-Slices f edges g r lvid c in
        let diff : lo + length (edges v) - lo ≡ length (edges v) = omega arith in
        rw (p, q, diff)
          (add_edges-neighbour_sum plus times t g.num_local_vertices f (ids_of f edges g.vertices r)
            (data_of f edges g g.vertices) (edges v) lo row s m)

    gcn_row-summed :
        (lvid : ℕ) (row' : List A)
        → summed f edges lvid ≡ some row'
        → (row : List A) × (get_elem? feats lvid ≡ some row)
          × (gcn_row plus times t places_of norms adj_of lvid row ≡ some row')
    unfolding gcn_row
    gcn_row-summed lvid row' e =
        let n = g.num_local_vertices in
        let sum : List A → A → Vertex A → Option (List A) =
          λ row norm v. neighbour_sum plus times t n f (edges v) (map (λ x. times x norm) row) in
        let (row, a, e1) =
          >>=-eq-some (get_elem? feats lvid)
            (λ row.
              get_elem? norms lvid >>= λ norm. get_elem? g.vertices lvid >>= λ v. sum row norm v)
            e in
        let (norm, b, e2) =
          >>=-eq-some (get_elem? norms lvid)
            (λ norm. get_elem? g.vertices lvid >>= λ v. sum row norm v) e1 in
        let (v, c, e3) = >>=-eq-some (get_elem? g.vertices lvid) (λ v. sum row norm v) e2 in
        (row, a, rw b (add_vertex_edges-neighbour_sum lvid (map (λ x. times x norm) row) c ∙ e3))

    pub IsRows-summed :
        (n low : ℕ) (output : List (List A))
        → low + n ≤ length output
        → low + n ≤ length feats
        → ((k : ℕ) → low ≤ k → k < low + n → (row : List A) × (summed f edges k ≡ some row))
        → (copied : List (List A)) × (output' : List (List A)) × (copy_rows plus times feats n low
              output
            ≡ some copied)
          × (for_rows plus times (gcn_row plus times t places_of norms adj_of) n low copied
              ≡ some output')
          × IsRows (summed f edges) low n output output'
    IsRows-summed n low output fits enough h =
        let (copied, p, v) = copy_rows-IsRows plus times feats n low output fits enough in
        let (output', q, w) =
          for_rows-IsRows plus times (gcn_row plus times t places_of norms adj_of) (get_elem? feats)
            (summed f edges) n low copied (omega (arith, fits, v.sized)) v.inside
            (λ k a b.
              let (row', e) = h k a b in
              let (row, x, y) = gcn_row-summed k row' e in (row, row', x, y, e)) in
        (copied, output', p, q, IsRows-trans v w)

    add_vertex_edges-gathered :
        (lvid : ℕ) (row' : List A)
        → gathered f edges lvid ≡ some row'
        → (row : List A) × (get_elem? feats lvid ≡ some row)
          × (add_vertex_edges plus times t places_of adj_of lvid row ≡ some row')
    add_vertex_edges-gathered lvid row' e =
        let n = g.num_local_vertices in
        let sum : List A → Vertex A → Option (List A) =
          λ row v. neighbour_sum plus times t n f (edges v) row in
        let (row, a, e1) =
          >>=-eq-some (get_elem? feats lvid) (λ row. get_elem? g.vertices lvid >>= λ v. sum row v)
            e in
        let (v, c, e2) = >>=-eq-some (get_elem? g.vertices lvid) (λ v. sum row v) e1 in
        (row, a, add_vertex_edges-neighbour_sum lvid row c ∙ e2)

    pub IsRows-gathered :
        (n low : ℕ) (output : List (List A))
        → low + n ≤ length output
        → low + n ≤ length feats
        → ((k : ℕ) → low ≤ k → k < low + n → (row : List A) × (gathered f edges k ≡ some row))
        → (copied : List (List A)) × (output' : List (List A)) × (copy_rows plus times feats n low
              output
            ≡ some copied)
          × (for_rows plus times (add_vertex_edges plus times t places_of adj_of) n low copied
              ≡ some output')
          × IsRows (gathered f edges) low n output output'
    IsRows-gathered n low output fits enough h =
        let (copied, p, v) = copy_rows-IsRows plus times feats n low output fits enough in
        let (output', q, w) =
          for_rows-IsRows plus times (add_vertex_edges plus times t places_of adj_of)
            (get_elem? feats) (gathered f edges) n low copied (omega (arith, fits, v.sized))
            v.inside
            (λ k a b.
              let (row', e) = h k a b in
              let (row, x, y) = add_vertex_edges-gathered k row' e in (row, row', x, y, e)) in
        (copied, output', p, q, IsRows-trans v w)
