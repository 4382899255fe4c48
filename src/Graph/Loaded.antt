-- ===== src/Graph/Loaded.antt =====
-- What holds of the loader while it reads the edges.
use dorylus.Prelude.{
  ℕ, ◌+◌, ◌≡◌, ◌≢◌, ◌<◌, refl, List, [], ◌∷◌, some, Bool, true, arith, ◌==◌, length, get_elem?, set,
  ◌∙◌, subst, sym, inl, inr, length-set, get_elem?-set_self, get_elem?-set_ne, All, Bool-cases,
  ==_iff,
}
use dorylus.Prelude.Map.{
  Map, same, find, IsSorted, insert-IsSorted, find-insert, nat_order, index_map-found,
}
use dorylus.Graph.Defs.{local_edge, remote_edge, Edge, Vertex, GhostVertex}
use dorylus.Graph.Edges.{DstTables, DataLoader, assoc_edge, add_assoc_edge, mark, FarEnd, far_end}

abbrev pub Present : ℕ → Map ℕ GhostVertex → Type 0
Present k m = (v : GhostVertex) × (find k m ≡ some v)

-- A local edge ends at one of the `n` vertices, another at a ghost.
abbrev pub GoodEdge : {A : Type 0} → ℕ → Map ℕ GhostVertex → Edge A → Type 0
GoodEdge n ghosts e = elim e.edge_location [
  | local_edge ↦ e.other_id < n
  | remote_edge ↦ Present e.other_id ghosts
]

abbrev pub GoodVertex : {A : Type 0} → ℕ → Map ℕ GhostVertex → Map ℕ GhostVertex → Vertex A → Type 0
GoodVertex n gi go v = All (GoodEdge n gi) v.in_edges × All (GoodEdge n go) v.out_edges

-- The number of the edges of all vertices.
abbrev pub total : {A : Type 0} → (Vertex A → List (Edge A)) → List (Vertex A) → ℕ
total edges [] = 0
total edges (v ∷ vs) = length (edges v) + total edges vs

-- Every node but the own one has a row of `n` flags.
pub record Rows (node_id num_nodes n : ℕ) (tables : DstTables) : Type 0 where
  pub sized : length tables ≡ num_nodes
  pub row :
      (p : ℕ)
      → p < num_nodes
      → p ≢ node_id
      → (r : List Bool) × (get_elem? tables p ≡ some (some r)) × (length r ≡ n)

-- No ghost goes away.
abbrev pub Extends : Map ℕ GhostVertex → Map ℕ GhostVertex → Type 0
Extends g g' = (k : ℕ) → Present k g → Present k g'

add_assoc_edge-IsSorted :
    (junk_id gvid lvid : ℕ) (g : Map ℕ GhostVertex)
    → IsSorted g
    → IsSorted (add_assoc_edge junk_id gvid lvid g)
unfolding add_assoc_edge
add_assoc_edge-IsSorted junk_id gvid lvid g s =
    insert-IsSorted gvid (assoc_edge junk_id lvid (find gvid g)) g s

add_assoc_edge-Present :
    (junk_id gvid lvid : ℕ) (g : Map ℕ GhostVertex)
    → Present gvid (add_assoc_edge junk_id gvid lvid g)
unfolding add_assoc_edge
add_assoc_edge-Present junk_id gvid lvid g =
    let v = assoc_edge junk_id lvid (find gvid g) in (v, find-insert gvid gvid v g ∙ ground arith)

add_assoc_edge-Extends :
    (junk_id gvid lvid : ℕ) (g : Map ℕ GhostVertex) → Extends g (add_assoc_edge junk_id gvid lvid g)
unfolding add_assoc_edge
add_assoc_edge-Extends junk_id gvid lvid g k (v, e) = elim (Bool-cases (same gvid k)) [
  | inl here ↦
      let w = assoc_edge junk_id lvid (find gvid g) in
      (w, find-insert gvid k w g ∙ ground (arith, here))
  | inr other ↦
      (v, find-insert gvid k (assoc_edge junk_id lvid (find gvid g)) g ∙ ground (arith, other, e))
]

mark-Rows :
    (node_id num_nodes n part lvid : ℕ) (tables : DstTables)
    → Rows node_id num_nodes n tables
    → part < num_nodes
    → part ≢ node_id
    → lvid < n
    → (tables' : DstTables) × (mark part lvid tables ≡ some tables')
      × Rows node_id num_nodes n tables'
unfolding mark
mark-Rows node_id num_nodes n part lvid tables w lt ne small =
    let (r, e, l) = w.row part lt ne in
    (
      set tables part (some (set r lvid true)),
      rw e (ground (arith, l)),
      record {
        sized = length-set tables part (some (set r lvid true)) ∙ w.sized;
        row = λ p plt pne. elim (Bool-cases (part == p)) [
          | inl here ↦ (
            set r lvid true,
            subst
                (λ i.
                  get_elem? (set tables part (some (set r lvid true))) i
                  ≡ some (some (set r lvid true)))
                ((==_iff part p).0 here)
                (get_elem?-set_self tables part (some (set r lvid true))
                  (subst (λ k. part < k) (sym w.sized) lt)),
            length-set r lvid true ∙ l,
          )
          | inr other ↦
              let (q, f, m) = w.row p plt pne in
              (
                q,
                get_elem?-set_ne tables {i = part} {j = p} (some (set r lvid true))
                      (λ x. ground (arith, x, other))
                    ∙ f,
                m,
              )
        ];
      },
    )

module _ {A : Type 0} (junk_id : ℕ) (zero_data : A) where
  abbrev pub edge_to : FarEnd → Edge A
  edge_to far = record { other_id = far.id; edge_data = zero_data; edge_location = far.location }

  -- The other end of an edge is found, and the edge is good.
  pub far_end-Good :
      (other lvid n part : ℕ) (ghosts : Map ℕ GhostVertex) (tables : DstTables) (ids : Map ℕ ℕ)
      (d : DataLoader A)
      → get_elem? d.raw_graph.vertex_partition_ids other ≡ some part
      → part < d.num_nodes
      → (part ≡ d.node_id → (l : ℕ) × (find other ids ≡ some l) × (l < n))
      → lvid < n
      → Rows d.node_id d.num_nodes n tables
      → IsSorted ghosts
      → (far : FarEnd) × (far_end junk_id zero_data other lvid ghosts tables ids d ≡ some far)
        × GoodEdge n far.ghosts (edge_to far)
        × Rows d.node_id d.num_nodes n far.tables
        × IsSorted far.ghosts
        × Extends ghosts far.ghosts
        × (far.ids ≡ ids)
  unfolding far_end
  far_end-Good other lvid n part ghosts tables ids d e lt mapped small w s =
      elim (Bool-cases (part == d.node_id)) [
        | inl mine ↦
            let (l, f, m) = mapped ((==_iff part d.node_id).0 mine) in
            (
              record { id = l; location = local_edge; ghosts = ghosts; tables = tables; ids = ids },
              rw (e, mine, index_map-found other l ids f) refl,
              m,
              w,
              s,
              λ k h. h,
              refl,
            )
        | inr other_node ↦
            let (tables', f, w') =
              mark-Rows d.node_id d.num_nodes n part lvid tables w lt
                (λ q. ground (arith, q, other_node)) small in
            let ghosts' = add_assoc_edge junk_id other lvid ghosts in
            (
              record {
                id = other;
                location = remote_edge;
                ghosts = ghosts';
                tables = tables';
                ids = ids;
              },
              rw (e, other_node, f) refl,
              add_assoc_edge-Present junk_id other lvid ghosts,
              w',
              add_assoc_edge-IsSorted junk_id other lvid ghosts s,
              add_assoc_edge-Extends junk_id other lvid ghosts,
              refl,
            )
      ]
