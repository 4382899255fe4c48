-- ===== src/Graph/Normalise.antt =====
-- `DataLoader::setEdgeNormalizations` of graph-server/graph/dataloader.cpp. `norm` is the power -0.5
-- of a degree, and `times` the product of two `EdgeType`s. The loop changes no count that it reads.
use dorylus.Prelude.{ℕ, List, [], ◌∷◌, Option, some, add32, length, ◌>>=◌}
use dorylus.Graph.Defs.{
  local_edge, remote_edge, Edge, Vertex, GhostVertex, RawGraph, get_vertex,
  get_in_edge_ghost_vertex, get_out_edge_ghost_vertex,
}

module _ {A : Type 0} (norm : ℕ → A) (times : A → A → A) where
  -- `getNumInEdges() + 1` or `getDegree() + 1` at the other end of an edge.
  unfoldable pub far_degree : (ℕ → RawGraph A → Option GhostVertex) → RawGraph A → Edge A → Option ℕ
  far_degree get_ghost g e = elim e.edge_location [
    | local_edge ↦ get_vertex e.other_id g >>= λ v. some (add32 (length v.in_edges) 1)
    | remote_edge ↦ get_ghost e.other_id g >>= λ v. some (add32 v.degree 1)
  ]

  -- The edges of a vertex whose own factor is `vtx_norm`; the factor of its source comes first.
  unfoldable pub norm_in_edges : RawGraph A → A → List (Edge A) → Option (List (Edge A))
  norm_in_edges g vtx_norm [] = some []
  norm_in_edges g vtx_norm (e ∷ es) = do
    deg ← far_degree get_in_edge_ghost_vertex g e
    rest ← norm_in_edges g vtx_norm es
    some (record e { edge_data = times (norm deg) vtx_norm } ∷ rest)

  unfoldable pub norm_out_edges : RawGraph A → A → List (Edge A) → Option (List (Edge A))
  norm_out_edges g vtx_norm [] = some []
  norm_out_edges g vtx_norm (e ∷ es) = do
    deg ← far_degree get_out_edge_ghost_vertex g e
    rest ← norm_out_edges g vtx_norm es
    some (record e { edge_data = times vtx_norm (norm deg) } ∷ rest)

  unfoldable pub norm_vertex : RawGraph A → Vertex A → Option (Vertex A)
  norm_vertex g v = do
    let vtx_norm = norm (add32 (length v.in_edges) 1)
    ins ← norm_in_edges g vtx_norm v.in_edges
    outs ← norm_out_edges g vtx_norm v.out_edges
    some (record v { in_edges = ins; out_edges = outs; norm_factor = times vtx_norm vtx_norm })

  unfoldable pub norm_vertices : RawGraph A → List (Vertex A) → Option (List (Vertex A))
  norm_vertices g [] = some []
  norm_vertices g (v ∷ vs) = do v' ← norm_vertex g v; vs' ← norm_vertices g vs; some (v' ∷ vs')

  -- The numbers of in-edges and out-edges of one vertex are taken below 2 ^ 32.
  unfoldable pub set_edge_normalizations : RawGraph A → Option (RawGraph A)
  set_edge_normalizations g = do vs ← norm_vertices g g.vertices; some (record g { vertices = vs })
