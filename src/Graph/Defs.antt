-- ===== src/Graph/Defs.antt =====
-- `Edge`, `Vertex`, `GhostVertex`, `RawGraph` and the compressed matrices of graph-server/graph.
-- `EdgeType` is the type parameter; the locks and the capacity of vectors are left out, and a
-- pointer to the graph is the argument `g`.
use dorylus.Prelude.{ℕ, List, Option, none, some, Bool, true, false, get_elem?, ◌>>=◌}
use dorylus.Prelude.Map.{Map, find, nat_order}

pub data EdgeLocation : Type 0 where
  local_edge remote_edge : EdgeLocation

-- `other_id` is a local id for a local edge, and a global id otherwise.
pub record Edge (A : Type 0) : Type 0 where
  pub other_id : ℕ
  pub edge_data : A
  pub edge_location : EdgeLocation

pub data VertexLocation : Type 0 where
  internal_vertex boundary_vertex : VertexLocation

pub record Vertex (A : Type 0) : Type 0 where
  pub local_id : ℕ
  pub global_id : ℕ
  pub vertex_location : VertexLocation
  pub in_edges : List (Edge A)
  pub out_edges : List (Edge A)
  pub norm_factor : A

pub record GhostVertex : Type 0 where
  pub local_id : ℕ
  pub edges : List ℕ
  pub degree : ℕ

-- `CSCMatrix` with its columns, and `CSRMatrix` with its rows; the array of locations is never
-- written.
pub record CscMatrix (A : Type 0) : Type 0 where
  pub column_cnt : ℕ
  pub nnz : ℕ
  pub values : List A
  pub column_ptrs : List ℕ
  pub row_idxs : List ℕ

pub record CsrMatrix (A : Type 0) : Type 0 where
  pub row_cnt : ℕ
  pub nnz : ℕ
  pub values : List A
  pub row_ptrs : List ℕ
  pub column_idxs : List ℕ

pub record RawGraph (A : Type 0) : Type 0 where
  pub global_to_local_id : Map ℕ ℕ
  pub local_to_global_id : Map ℕ ℕ
  pub forward_ghosts_list : List (List ℕ)
  pub backward_ghosts_list : List (List ℕ)
  pub forward_adj : CscMatrix A
  pub backward_adj : CsrMatrix A
  pub vertices : List (Vertex A)
  pub in_edge_ghost_vertices : Map ℕ GhostVertex
  pub out_edge_ghost_vertices : Map ℕ GhostVertex
  pub num_local_vertices : ℕ
  pub num_global_vertices : ℕ
  pub num_in_edge_ghost_vertices : ℕ
  pub num_out_edge_ghost_vertices : ℕ
  pub num_local_in_edges : ℕ
  pub num_local_out_edges : ℕ
  pub num_global_edges : ℕ
  pub vertex_partition_ids : List ℕ

module _ {A : Type 0} where
  -- A failed assertion is a fault.
  unfoldable pub get_vertex : ℕ → RawGraph A → Option (Vertex A)
  get_vertex lvid g = get_elem? g.vertices lvid

  unfoldable pub contains_out_edge_ghost_vertex : ℕ → RawGraph A → Bool
  contains_out_edge_ghost_vertex gvid g = elim (find gvid g.out_edge_ghost_vertices) [
    | none ↦ false
    | some _ ↦ true
  ]

  unfoldable pub contains_in_edge_ghost_vertex : ℕ → RawGraph A → Bool
  contains_in_edge_ghost_vertex gvid g = elim (find gvid g.in_edge_ghost_vertices) [
    | none ↦ false
    | some _ ↦ true
  ]

  unfoldable pub get_out_edge_ghost_vertex : ℕ → RawGraph A → Option GhostVertex
  get_out_edge_ghost_vertex gvid g = find gvid g.out_edge_ghost_vertices

  unfoldable pub get_in_edge_ghost_vertex : ℕ → RawGraph A → Option GhostVertex
  get_in_edge_ghost_vertex gvid g = find gvid g.in_edge_ghost_vertices

  -- The local id of the vertex at the other end of an edge, by the ghosts of its side.
  unfoldable pub other_local_id : Map ℕ GhostVertex → RawGraph A → Edge A → Option ℕ
  other_local_id ghosts g e = elim e.edge_location [
    | local_edge ↦ find e.other_id g.local_to_global_id >>= λ _. some e.other_id
    | remote_edge ↦ find e.other_id ghosts >>= λ v. some v.local_id
  ]

  -- Without the index, which is in range.
  unfoldable pub get_source_vertex_local_id : RawGraph A → Edge A → Option ℕ
  get_source_vertex_local_id g e = other_local_id g.in_edge_ghost_vertices g e

  unfoldable pub get_dest_vertex_local_id : RawGraph A → Edge A → Option ℕ
  get_dest_vertex_local_id g e = other_local_id g.out_edge_ghost_vertices g e
