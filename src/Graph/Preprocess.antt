-- ===== src/Graph/Preprocess.antt =====
-- `DataLoader::preprocess` of graph-server/graph/dataloader.cpp, up to the dump, which comes last. The
-- files are the lines of the one and the pairs of vertices of the other.
use dorylus.Prelude.{
  ℕ, zero, suc, ◌+◌, List, [], ◌∷◌, map, Option, none, some, Bool, false, ◌==◌, if◌then◌else◌,
  replicate, ◌>>=◌,
}
use dorylus.Prelude.Map.{Map, find, size, nat_order}
use dorylus.Graph.Defs.{internal_vertex, Vertex, RawGraph}
use dorylus.Graph.Compress.{init_csc, init_csr}
use dorylus.Graph.Partition.{PartsLine, read_parts_file}
use dorylus.Graph.Edges.{DstTables, DataLoader, process_edges}
use dorylus.Graph.Ghosts.{find_ghost_degrees, number_all_ghosts}
use dorylus.Graph.Normalise.{set_edge_normalizations}

-- The rows of the nodes from `i` on, `n` flags to a row.
unfoldable pub new_tables : ℕ → ℕ → ℕ → ℕ → DstTables
new_tables node_id n i zero = []
new_tables node_id n i (suc k) =
    (if i == node_id then none else some (replicate n false)) ∷ new_tables node_id n (i + 1) k

-- The local ids, from `j` on, whose flag is set.
unfoldable pub marked : ℕ → List Bool → List ℕ
marked j [] = []
marked j (b ∷ bs) = let rest = marked (j + 1) bs in if b then j ∷ rest else rest

-- The own node has no row and gets no list.
unfoldable pub ghosts_list : Option (List Bool) → List ℕ
ghosts_list none = []
ghosts_list (some flags) = marked 0 flags

-- After the edges: the lists of the nodes, and the numbers of the ghosts.
unfoldable pub list_ghosts : {A : Type 0} → DataLoader A → RawGraph A
list_ghosts d =
    let g = d.raw_graph in
    record g {
      forward_ghosts_list = map ghosts_list d.forward_dst_tables;
      backward_ghosts_list = map ghosts_list d.backward_dst_tables;
      num_in_edge_ghost_vertices = size g.in_edge_ghost_vertices;
      num_out_edge_ghost_vertices = size g.out_edge_ghost_vertices;
    }

module _ {A : Type 0} (junk : A) where
  unfoldable pub new_vertices : ℕ → ℕ → Map ℕ ℕ → List (Vertex A)
  new_vertices i zero ids = []
  new_vertices i (suc n) ids =
      record {
        local_id = i;
        global_id = elim (find i ids) [ none ↦ 0 | some gvid ↦ gvid ];
        vertex_location = internal_vertex;
        in_edges = [];
        out_edges = [];
        norm_factor = junk;
      }
      ∷ new_vertices (i + 1) n ids

  -- After the partition file: the vertices and the tables.
  unfoldable pub prepare : List PartsLine → DataLoader A → DataLoader A
  prepare lines d =
      let g = read_parts_file d.node_id lines d.raw_graph in
      let n = g.num_local_vertices in
      record d {
        forward_dst_tables = new_tables d.node_id n 0 d.num_nodes;
        backward_dst_tables = new_tables d.node_id n 0 d.num_nodes;
        raw_graph = record g { vertices = new_vertices 0 n g.local_to_global_id };
      }

  module _ (junk_id : ℕ) where
    unfoldable pub finish_graph : RawGraph A → Option (RawGraph A)
    finish_graph g = do
      let g1 = number_all_ghosts g
      f ← init_csc junk junk_id g1
      let g2 = record g1 { forward_adj = f }
      b ← init_csr junk junk_id g2
      some (record g2 { backward_adj = b })

    -- The graph that is dumped.
    unfoldable pub preprocess :
        A
        → (ℕ → A)
        → (A → A → A)
        → List PartsLine
        → List (ℕ × ℕ)
        → DataLoader A
        → Option (RawGraph A)
    preprocess zero_data norm times lines edges d = do
      d1 ← process_edges junk_id zero_data edges (prepare lines d)
      g ← set_edge_normalizations norm times (find_ghost_degrees edges (list_ghosts d1))
      finish_graph g
