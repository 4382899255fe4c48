-- ===== src/Engine/Layers/Tests.antt =====
-- Ten vertices in three chunks, and a chunk at the turn of a model of two layers.
use dorylus.Prelude.{◌+◌, ◌*◌, ◌/◌, ◌≤◌, ◌<◌, ◌≡◌, ◌↔◌, true, arith}
use dorylus.Chunk.{Chunk, forward}
use dorylus.Engine.Layers.Defs.{chunk_size, load_chunk, get_abs_layer, inc_layer_gcn}
use dorylus.Engine.Layers.Progress.{InRange, inc_layer_gcn-get_abs_layer}
use dorylus.Engine.Layers.Cover.{load_chunk-partition}

load_chunk-partition_example :
    (5 / chunk_size 10 3 < 3)
    × ((((load_chunk 1 3 10 1).low_bound ≤ 5) × (5 < (load_chunk 1 3 10 1).up_bound))
        ↔ (1 ≡ 5 / chunk_size 10 3))
load_chunk-partition_example =
    load_chunk-partition 1 3 10 (omega arith) (omega arith) (omega arith) 5 1 (omega arith)
      (omega arith)

abbrev chunk : Chunk
chunk = record {
  local_id = 0;
  global_id = 0;
  low_bound = 0;
  up_bound = 4;
  layer = 1;
  dir = forward;
  epoch = 3;
  vertex = true;
}

chunk-InRange : InRange 2 chunk
chunk-InRange = (omega arith, omega arith, omega arith)

inc_layer_gcn-get_abs_layer_example :
    ((inc_layer_gcn 2 chunk).layer < 2)
    × (get_abs_layer 2 (inc_layer_gcn 2 chunk) + 2 * 2 * (inc_layer_gcn 2 chunk).epoch
        ≡ get_abs_layer 2 chunk + 2 * 2 * chunk.epoch + 1)
inc_layer_gcn-get_abs_layer_example = inc_layer_gcn-get_abs_layer 2 chunk chunk-InRange
