-- ===== src/Graph/Tests.antt =====
-- Two local vertices, 0 and 2, and the ghost 1, which has an edge to the first of them; the second
-- has one too.
use dorylus.Prelude.{
  ℕ, ◌+◌, ◌≤◌, ◌<◌, ◌≡◌, ◌≢◌, ◌⊎◌, ◌↔◌, refl, List, [], ◌∷◌, some, arith, length, add32,
}
use dorylus.Prelude.Map.{find, nat_order, size}
use dorylus.Graph.Defs.{
  local_edge, remote_edge, Vertex, internal_vertex, GhostVertex, CscMatrix, CsrMatrix, RawGraph,
  get_vertex, get_source_vertex_local_id, get_dest_vertex_local_id, other_local_id,
}
use dorylus.Graph.Compress.{init_csc, init_csr, compress, fill, new_arrays, store}
use dorylus.Graph.Adjacency.{IsCounted, Slices, sources, init_csc-Slices}
use dorylus.Graph.Partition.{PartsLine, skipped, failed, part_id, read_parts_file}
use dorylus.Graph.Ids.{Known, read_parts_file-inverse}
use dorylus.Graph.Ghosts.{number_all_ghosts, number_all_ghosts_bounds, number_ghosts}

abbrev vertex : Vertex ℕ
vertex = record {
  local_id = 0;
  global_id = 0;
  vertex_location = internal_vertex;
  in_edges =
      record { other_id = 1; edge_data = 5; edge_location = local_edge }
      ∷ record { other_id = 1; edge_data = 6; edge_location = remote_edge }
      ∷ [];
  out_edges = [];
  norm_factor = 3;
}

abbrev vertex' : Vertex ℕ
vertex' = record {
  local_id = 1;
  global_id = 2;
  vertex_location = internal_vertex;
  in_edges = [];
  out_edges = record { other_id = 0; edge_data = 7; edge_location = local_edge } ∷ [];
  norm_factor = 4;
}

abbrev pub empty : RawGraph ℕ
empty = record {
  global_to_local_id = [];
  local_to_global_id = [];
  forward_ghosts_list = [];
  backward_ghosts_list = [];
  forward_adj = record { column_cnt = 0; nnz = 0; values = []; column_ptrs = []; row_idxs = [] };
  backward_adj = record { row_cnt = 0; nnz = 0; values = []; row_ptrs = []; column_idxs = [] };
  vertices = [];
  in_edge_ghost_vertices = [];
  out_edge_ghost_vertices = [];
  num_local_vertices = 0;
  num_global_vertices = 0;
  num_in_edge_ghost_vertices = 0;
  num_out_edge_ghost_vertices = 0;
  num_local_in_edges = 0;
  num_local_out_edges = 0;
  num_global_edges = 0;
  vertex_partition_ids = [];
}

abbrev pub graph : RawGraph ℕ
graph = record empty {
  global_to_local_id = (0, 0) ∷ (2, 1) ∷ [];
  local_to_global_id = (0, 0) ∷ (1, 2) ∷ [];
  forward_ghosts_list = [] ∷ [] ∷ [];
  backward_ghosts_list = [] ∷ (0 ∷ []) ∷ [];
  vertices = vertex ∷ vertex' ∷ [];
  in_edge_ghost_vertices = (1, record { local_id = 2; edges = 0 ∷ []; degree = 0 }) ∷ [];
  num_local_vertices = 2;
  num_global_vertices = 3;
  num_in_edge_ghost_vertices = 1;
  num_local_in_edges = 2;
  num_local_out_edges = 1;
  num_global_edges = 2;
  vertex_partition_ids = 0 ∷ 1 ∷ 0 ∷ [];
}

pub graph-IsCounted : IsCounted graph
unfolding get_source_vertex_local_id get_dest_vertex_local_id other_local_id find
graph-IsCounted = record {
  vertices = refl;
  in_edges = refl;
  out_edges = refl;
  resolved_in = ((1 ∷ 2 ∷ [], refl), (([], refl), tt));
  resolved_out = (([], refl), ((0 ∷ [], refl), tt));
}

init_csc-Slices_example :
    (m : CscMatrix ℕ) × (init_csc 9 9 graph ≡ some m)
    × (m.column_cnt ≡ 2)
    × (m.nnz ≡ 2)
    × (length m.values ≡ m.nnz)
    × Slices (sources graph) (λ v. v.in_edges) m.column_ptrs m.values m.row_idxs 0 vertex
init_csc-Slices_example = init_csc-Slices 9 9 graph 0 graph-IsCounted refl

abbrev columns : CscMatrix ℕ
columns = record {
  column_cnt = 2;
  nnz = 2;
  values = 5 ∷ 6 ∷ [];
  column_ptrs = 0 ∷ 2 ∷ 2 ∷ [];
  row_idxs = 1 ∷ 2 ∷ [];
}

abbrev rows : CsrMatrix ℕ
rows = record {
  row_cnt = 2;
  nnz = 1;
  values = 7 ∷ [];
  row_ptrs = 0 ∷ 0 ∷ 1 ∷ [];
  column_idxs = 0 ∷ [];
}

init_csc_run : init_csc 9 9 graph ≡ some columns
unfolding init_csc compress get_vertex new_arrays store fill get_source_vertex_local_id
    other_local_id find
init_csc_run = refl

init_csr_run : init_csr 9 9 graph ≡ some rows
unfolding init_csr compress get_vertex new_arrays store fill get_dest_vertex_local_id other_local_id
    find
init_csr_run = refl

abbrev parts : List PartsLine
parts = skipped ∷ part_id 0 ∷ part_id 1 ∷ part_id 0 ∷ failed ∷ part_id 0 ∷ []

read_parts_file-inverse_example :
    ((find 1 (read_parts_file 0 parts empty).local_to_global_id ≡ some 2)
      ↔ (find 2 (read_parts_file 0 parts empty).global_to_local_id ≡ some 1))
    × Known 1
        (read_parts_file 0 parts empty).num_local_vertices
        (read_parts_file 0 parts empty).local_to_global_id
    × ((read_parts_file 0 parts empty).num_local_vertices
        ≤ (read_parts_file 0 parts empty).num_global_vertices)
    × (length (read_parts_file 0 parts empty).vertex_partition_ids
        ≡ (read_parts_file 0 parts empty).num_global_vertices)
read_parts_file-inverse_example =
    read_parts_file-inverse 0 1 2 parts empty refl refl refl (omega arith)

abbrev ghost : ℕ → GhostVertex
ghost i = record { local_id = i; edges = []; degree = 0 }

abbrev two_ghosts : RawGraph ℕ
two_ghosts = record graph { in_edge_ghost_vertices = (1, ghost 0) ∷ (4, ghost 0) ∷ [] }

number_all_ghosts_bounds_example : (2 ≤ 2) × (2 < 2 + 2) × ((◌≡◌ {A = ℕ} 1 4) ⊎ (◌≢◌ {A = ℕ} 2 3))
unfolding number_all_ghosts number_ghosts find size add32
number_all_ghosts_bounds_example =
    number_all_ghosts_bounds two_ghosts 1 4 {v = ghost 2} {w = ghost 3} (omega arith) refl refl
