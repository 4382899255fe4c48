-- ===== src/Engine/Aggregate/Tests.antt =====
-- The graph of Graph.Tests, with rows of one number.
use dorylus.Prelude.{ℕ, zero, suc, ◌+◌, ◌*◌, ◌≡◌, ◌<◌, ◌≤◌, refl, List, [], ◌∷◌, some, arith, true}
use dorylus.Prelude.Map.{find, nat_order}
use dorylus.Chunk.{forward, Chunk}
use dorylus.Graph.Defs.{CscMatrix, CsrMatrix, get_source_vertex_local_id, other_local_id}
use dorylus.Graph.Compress.{init_csc}
use dorylus.Graph.Adjacency.{sources}
use dorylus.Graph.Tests.{graph, graph-IsCounted}
use dorylus.Engine.Aggregate.Defs.{
  Place, Tensors, place_of, row_at, add_scaled, src_v_feats_2_e_feats, aggregate_gcn, aggregate_gat,
}
use dorylus.Engine.Aggregate.Rows.{IsRows}
use dorylus.Engine.Aggregate.Summed.{summed, gathered}
use dorylus.Engine.Aggregate.Whole.{aggregate_gcn-forward, aggregate_gat-forward}

abbrev chunk : Chunk
chunk = record {
  local_id = 0;
  global_id = 0;
  low_bound = 0;
  up_bound = 2;
  layer = 0;
  dir = forward;
  epoch = 1;
  vertex = true;
}

abbrev feats : List (List ℕ)
feats = (1 ∷ []) ∷ (2 ∷ []) ∷ []

abbrev tensors : Tensors ℕ
tensors = record { vertices = feats; ghosts = (3 ∷ []) ∷ [] }

abbrev norms : List ℕ
norms = 3 ∷ 4 ∷ []

abbrev plus : ℕ → ℕ → ℕ
plus a b = a + b

abbrev times : ℕ → ℕ → ℕ
times a b = a * b

abbrev no_rows : CsrMatrix ℕ
no_rows = record { row_cnt = 0; nnz = 0; values = []; row_ptrs = []; column_idxs = [] }

sums :
    (lvid : ℕ)
    → 0 ≤ lvid
    → lvid < 2
    → (row : List ℕ) × (summed plus times tensors norms feats graph
          (sources graph)
          (λ v. v.in_edges)
          lvid
        ≡ some row)
unfolding get_source_vertex_local_id other_local_id find place_of row_at add_scaled
sums zero a b = (31 ∷ [], refl)
sums (suc zero) a b = (8 ∷ [], refl)
sums (suc (suc lvid)) a b = absurd (omega (arith, b))

aggregate_gcn-forward_example :
    (m : CscMatrix ℕ) × (places : List Place) × (dsts : List Place) × (output : List (List ℕ))
    × (init_csc 9 9 graph ≡ some m)
    × (src_v_feats_2_e_feats 2 m ≡ some (places, dsts))
    × (aggregate_gcn plus times m no_rows tensors places norms feats chunk
          ((0 ∷ []) ∷ (0 ∷ []) ∷ [])
        ≡ some output)
    × IsRows
        (summed plus times tensors norms feats graph (sources graph) (λ v. v.in_edges))
        0
        2
        ((0 ∷ []) ∷ (0 ∷ []) ∷ [])
        output
aggregate_gcn-forward_example =
    aggregate_gcn-forward plus times tensors norms feats graph 9 9 no_rows chunk
      ((0 ∷ []) ∷ (0 ∷ []) ∷ []) graph-IsCounted refl (omega arith) (omega arith) (omega arith) sums

gathers :
    (lvid : ℕ)
    → 0 ≤ lvid
    → lvid < 2
    → (row : List ℕ) × (gathered plus times tensors norms feats graph
          (sources graph)
          (λ v. v.in_edges)
          lvid
        ≡ some row)
unfolding get_source_vertex_local_id other_local_id find place_of row_at add_scaled
gathers zero a b = (29 ∷ [], refl)
gathers (suc zero) a b = (2 ∷ [], refl)
gathers (suc (suc lvid)) a b = absurd (omega (arith, b))

aggregate_gat-forward_example :
    (m : CscMatrix ℕ) × (places : List Place) × (dsts : List Place) × (output : List (List ℕ))
    × (init_csc 9 9 graph ≡ some m)
    × (src_v_feats_2_e_feats 2 m ≡ some (places, dsts))
    × (aggregate_gat plus times m no_rows tensors places tensors [] [] feats chunk
          ((0 ∷ []) ∷ (0 ∷ []) ∷ [])
        ≡ some output)
    × IsRows
        (gathered plus times tensors norms feats graph (sources graph) (λ v. v.in_edges))
        0
        2
        ((0 ∷ []) ∷ (0 ∷ []) ∷ [])
        output
aggregate_gat-forward_example =
    aggregate_gat-forward plus times tensors norms feats graph 9 9 no_rows tensors [] [] chunk
      ((0 ∷ []) ∷ (0 ∷ []) ∷ []) graph-IsCounted refl (omega arith) (omega arith) (omega arith)
      gathers
