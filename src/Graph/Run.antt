-- ===== src/Graph/Run.antt =====
-- Runs of the preprocessing: three vertices, of which the second belongs to the other node.
use dorylus.Prelude.{ℕ, ◌+◌, ◌≡◌, refl, List, [], ◌∷◌, some, false, arith, get_elem?, add32}
use dorylus.Graph.Defs.{local_edge, internal_vertex, Edge, Vertex, RawGraph, get_vertex}
use dorylus.Graph.Adjacency.{IsCounted}
use dorylus.Graph.Partition.{PartsLine, part_id}
use dorylus.Graph.Write.{Value, dump}
use dorylus.Graph.Read.{init}
use dorylus.Graph.RoundTrip.{IsDumpable, loaded}
use dorylus.Graph.Edges.{DataLoader}
use dorylus.Graph.Normalise.{
  far_degree, norm_in_edges, norm_out_edges, norm_vertex, norm_vertices, set_edge_normalizations,
}
use dorylus.Graph.Preprocess.{preprocess}
use dorylus.Graph.Prepared.{IsBlank}
use dorylus.Graph.Whole.{Counts, preprocess-IsDumpable, init-preprocess}
use dorylus.Graph.Symmetric.{set_edge_normalizations-symmetric}
use dorylus.Graph.Tests.{empty}

abbrev lines : List PartsLine
lines = part_id 0 ∷ part_id 1 ∷ part_id 0 ∷ []

abbrev edges : List (ℕ × ℕ)
edges = (0, 1) ∷ (1, 0) ∷ (2, 0) ∷ (2, 2) ∷ []

abbrev loader : DataLoader ℕ
loader = record {
  node_id = 0;
  num_nodes = 2;
  undirected = false;
  forward_dst_tables = [];
  backward_dst_tables = [];
  raw_graph = empty;
}

empty-IsBlank : IsBlank empty
empty-IsBlank = record {
  to_global = refl;
  to_local = refl;
  parts = refl;
  in_ghosts = refl;
  out_ghosts = refl;
  in_edges = refl;
  out_edges = refl;
  edges = refl;
}

preprocess-IsDumpable_example :
    (g : RawGraph ℕ) × (preprocess 9 9 0 (λ n. n) (λ a b. a + b) lines edges loader ≡ some g)
    × IsCounted g
    × IsDumpable 2 g
    × Counts 2 2 3 g
preprocess-IsDumpable_example =
    preprocess-IsDumpable 9 9 0 (λ n. n) (λ a b. a + b) lines edges loader empty-IsBlank
      (omega arith, (omega arith, (omega arith, tt))) (omega arith)
      (
        (omega arith, omega arith),
        (
          (omega arith, omega arith),
          ((omega arith, omega arith), ((omega arith, omega arith), tt)),
        ),
      )

init-preprocess_example :
    (g : RawGraph ℕ) × (file : List (Value ℕ)) × (preprocess 9 9 0
        (λ n. n)
        (λ a b. a + b)
        lines
        edges
        loader
      ≡ some g)
    × (dump 2 g ≡ some file)
    × (init file ≡ some (loaded g, []))
init-preprocess_example =
    init-preprocess 9 9 0 (λ n. n) (λ a b. a + b) lines edges loader empty-IsBlank
      (omega arith, (omega arith, (omega arith, tt))) (omega arith)
      (
        (omega arith, omega arith),
        (
          (omega arith, omega arith),
          ((omega arith, omega arith), ((omega arith, omega arith), tt)),
        ),
      )

-- The edge from the vertex 1 to the vertex 0.
abbrev far : Edge ℕ
far = record { other_id = 0; edge_data = 0; edge_location = local_edge }

abbrev near : Edge ℕ
near = record { other_id = 1; edge_data = 0; edge_location = local_edge }

abbrev vertex : List (Edge ℕ) → List (Edge ℕ) → Vertex ℕ
vertex ins outs = record {
  local_id = 0;
  global_id = 0;
  vertex_location = internal_vertex;
  in_edges = ins;
  out_edges = outs;
  norm_factor = 0;
}

abbrev pair : RawGraph ℕ
pair = record empty { vertices = vertex (near ∷ []) [] ∷ vertex [] (far ∷ []) ∷ [] }

pair_done :
    set_edge_normalizations (λ n. n + 10) (λ a b. a + b) pair
    ≡ some (record pair {
      vertices =
          record (vertex (record near { edge_data = 23 } ∷ []) []) { norm_factor = 24 }
          ∷ record (vertex [] (record far { edge_data = 23 } ∷ [])) { norm_factor = 22 }
          ∷ [];
    })
unfolding set_edge_normalizations norm_vertices norm_vertex norm_in_edges norm_out_edges far_degree
    get_vertex add32
pair_done = refl

set_edge_normalizations-symmetric_example :
    (u' : Vertex ℕ) × (v' : Vertex ℕ) × (some
        (record (vertex [] (record far { edge_data = 23 } ∷ [])) { norm_factor = 22 })
      ≡ some u')
    × (some (record (vertex (record near { edge_data = 23 } ∷ []) []) { norm_factor = 24 })
        ≡ some v')
    × (get_elem? u'.out_edges 0 ≡ some (record far { edge_data = 23 }))
    × (get_elem? v'.in_edges 0 ≡ some (record near { edge_data = 23 }))
unfolding add32
set_edge_normalizations-symmetric_example =
    set_edge_normalizations-symmetric (λ n. n + 10) (λ a b. a + b) pair 1 0 0 0
      (vertex [] (far ∷ [])) (vertex (near ∷ []) []) far near
      (record pair {
        vertices =
            record (vertex (record near { edge_data = 23 } ∷ []) []) { norm_factor = 24 }
            ∷ record (vertex [] (record far { edge_data = 23 } ∷ [])) { norm_factor = 22 }
            ∷ [];
      })
      refl refl refl refl refl refl refl refl pair_done
