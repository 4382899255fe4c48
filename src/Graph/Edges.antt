-- ===== src/Graph/Edges.antt =====
-- `DataLoader::processEdge` of graph-server/graph/dataloader.cpp, and the loop over the edges of the
-- file. A new `GhostVertex` has `junk_id` as its local id, and `zero` is `EdgeType()`.
use dorylus.Prelude.{
  ℕ, ◌+◌, List, [], ◌∷◌, ◌++◌, Option, none, some, Bool, true, ltb, ◌==◌, if◌then◌else◌, length,
  get_elem?, set, ◌>>=◌,
}
use dorylus.Prelude.Map.{Map, find, insert, nat_order, index_map}
use dorylus.Graph.Defs.{
  EdgeLocation, local_edge, remote_edge, boundary_vertex, VertexLocation, Vertex, GhostVertex,
  RawGraph, get_vertex,
}

-- A row of flags for each node but the own one, which has no row.
abbrev pub DstTables : Type 0
DstTables = List (Option (List Bool))

-- The members of `DataLoader`.
pub record DataLoader (A : Type 0) : Type 0 where
  pub node_id : ℕ
  pub num_nodes : ℕ
  pub undirected : Bool
  pub forward_dst_tables : DstTables
  pub backward_dst_tables : DstTables
  pub raw_graph : RawGraph A

-- The ghost, which is made if it is not there, with another edge.
unfoldable pub assoc_edge : ℕ → ℕ → Option GhostVertex → GhostVertex
assoc_edge junk_id lvid none = record { local_id = junk_id; edges = lvid ∷ []; degree = 0 }
assoc_edge junk_id lvid (some v) = record v { edges = v.edges ++ lvid ∷ [] }

unfoldable pub add_assoc_edge : ℕ → ℕ → ℕ → Map ℕ GhostVertex → Map ℕ GhostVertex
add_assoc_edge junk_id gvid lvid ghosts =
    insert gvid (assoc_edge junk_id lvid (find gvid ghosts)) ghosts

-- `tables[part][lvid] = true`; no row is a fault, and so is a write outside the row.
unfoldable pub mark : ℕ → ℕ → DstTables → Option DstTables
mark part lvid tables = get_elem? tables part >>= λ row. row >>= λ flags.
    if ltb lvid (length flags) then some (set tables part (some (set flags lvid true))) else none

-- The other end of an edge, with the ghosts and the tables of its side, and the map of the ids.
pub record FarEnd : Type 0 where
  pub id : ℕ
  pub location : EdgeLocation
  pub ghosts : Map ℕ GhostVertex
  pub tables : DstTables
  pub ids : Map ℕ ℕ

unfoldable pub count_edge : {A : Type 0} → DataLoader A → DataLoader A
count_edge d = record d {
  raw_graph = record d.raw_graph { num_global_edges = d.raw_graph.num_global_edges + 1 };
}

module _ {A : Type 0} (junk_id : ℕ) (zero : A) where
  unfoldable pub far_end :
      ℕ → ℕ → Map ℕ GhostVertex → DstTables → Map ℕ ℕ → DataLoader A → Option FarEnd
  far_end other lvid ghosts tables ids d = do
    part ← get_elem? d.raw_graph.vertex_partition_ids other
    if part == d.node_id
        then (let (id, ids') = index_map other ids in
            some (record {
              id = id;
              location = local_edge;
              ghosts = ghosts;
              tables = tables;
              ids = ids';
            }))
        else (mark part lvid tables >>= λ tables'. some (record {
          id = other;
          location = remote_edge;
          ghosts = add_assoc_edge junk_id other lvid ghosts;
          tables = tables';
          ids = ids;
        }))

  -- Only the source of an edge is marked as a boundary vertex.
  unfoldable pub add_out_edge : FarEnd → Vertex A → Vertex A
  add_out_edge far v =
      let location : VertexLocation = elim far.location [
        | local_edge ↦ v.vertex_location
        | remote_edge ↦ boundary_vertex
      ] in
      record v {
        vertex_location = location;
        out_edges =
            v.out_edges
            ++ record { other_id = far.id; edge_data = zero; edge_location = far.location } ∷ [];
      }

  unfoldable pub add_in_edge : FarEnd → Vertex A → Vertex A
  add_in_edge far v = record v {
    in_edges =
        v.in_edges
        ++ record { other_id = far.id; edge_data = zero; edge_location = far.location } ∷ [];
  }

  unfoldable pub process_out : ℕ → ℕ → DataLoader A → Option (DataLoader A)
  process_out src dst d = do
    let g = d.raw_graph
    part ← get_elem? g.vertex_partition_ids src
    if part == d.node_id
        then (do
          let (lvid, ids) = index_map src g.global_to_local_id
          far ← far_end dst lvid g.out_edge_ghost_vertices d.forward_dst_tables ids d
          v ← get_vertex lvid g
          some (record d {
            forward_dst_tables = far.tables;
            raw_graph = record g {
              global_to_local_id = far.ids;
              out_edge_ghost_vertices = far.ghosts;
              vertices = set g.vertices lvid (add_out_edge far v);
              num_local_out_edges = g.num_local_out_edges + 1;
            };
          }))
        else some d

  unfoldable pub process_in : ℕ → ℕ → DataLoader A → Option (DataLoader A)
  process_in src dst d = do
    let g = d.raw_graph
    part ← get_elem? g.vertex_partition_ids dst
    if part == d.node_id
        then (do
          let (lvid, ids) = index_map dst g.global_to_local_id
          far ← far_end src lvid g.in_edge_ghost_vertices d.backward_dst_tables ids d
          v ← get_vertex lvid g
          some (record d {
            backward_dst_tables = far.tables;
            raw_graph = record g {
              global_to_local_id = far.ids;
              in_edge_ghost_vertices = far.ghosts;
              vertices = set g.vertices lvid (add_in_edge far v);
              num_local_in_edges = g.num_local_in_edges + 1;
            };
          }))
        else some d

  unfoldable pub process_edge : ℕ → ℕ → DataLoader A → Option (DataLoader A)
  process_edge src dst d = process_out src dst d >>= λ d'. process_in src dst d'

  unfoldable pub process_edges : List (ℕ × ℕ) → DataLoader A → Option (DataLoader A)
  process_edges [] d = some d
  process_edges ((src, dst) ∷ edges) d = do
    d' ← if src == dst then some d else (do
      d1 ← process_edge src dst d
      d2 ← if d1.undirected then process_edge dst src d1 else some d1
      some (count_edge d2))
    process_edges edges d'
