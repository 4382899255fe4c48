-- ===== src/Engine/Layers/Defs.antt =====
-- `loadChunks`, `getAbsLayer`, `incLayerGCN`, `incLayerGAT` and `isLastLayer`.
use dorylus.Prelude.{
  ℕ, zero, suc, ◌+◌, ◌/◌, List, [], ◌∷◌, Bool, true, not, ◌&&◌, ltb, ◌==◌, if◌then◌else◌, add32,
  sub32, mul32,
}
use dorylus.Chunk.{Chunk, forward, backward, is_forward}

-- `START_EPOCH`.
abbrev pub start_epoch : ℕ
start_epoch = 0

unfoldable pub chunk_size : ℕ → ℕ → ℕ
chunk_size vtcs_cnt num_lambdas = sub32 (add32 vtcs_cnt num_lambdas) 1 / num_lambdas

-- `std::min`.
unfoldable pub min : ℕ → ℕ → ℕ
min a b = if ltb b a then b else a

-- One turn of the loop of `loadChunks`.
unfoldable pub load_chunk : ℕ → ℕ → ℕ → ℕ → Chunk
load_chunk node_id num_lambdas vtcs_cnt cid =
    let size = chunk_size vtcs_cnt num_lambdas in
    let low = mul32 cid size in
    record {
      local_id = cid;
      global_id = add32 (mul32 node_id num_lambdas) cid;
      low_bound = low;
      up_bound = min (add32 low size) vtcs_cnt;
      layer = 0;
      dir = forward;
      epoch = add32 start_epoch 1;
      vertex = true;
    }

-- The chunks that are pushed, `n` of them from `cid` on.
unfoldable pub load_chunks_from : ℕ → ℕ → ℕ → ℕ → ℕ → List Chunk
load_chunks_from node_id num_lambdas vtcs_cnt cid zero = []
load_chunks_from node_id num_lambdas vtcs_cnt cid (suc n) =
    load_chunk node_id num_lambdas vtcs_cnt cid
    ∷ load_chunks_from node_id num_lambdas vtcs_cnt (cid + 1) n

unfoldable pub get_abs_layer : ℕ → Chunk → ℕ
get_abs_layer num_layers c =
    if is_forward c.dir then c.layer else sub32 (sub32 (mul32 2 num_layers) 1) c.layer

unfoldable pub inc_layer_gcn : ℕ → Chunk → Chunk
inc_layer_gcn num_layers c =
    if is_forward c.dir
    then (let next = add32 c.layer 1 in
        if next == num_layers
        then record c { layer = sub32 next 1; dir = backward }
        else record c { layer = next })
    else if c.layer == 0
    then record c { dir = forward; epoch = add32 c.epoch 1 }
    else record c { layer = sub32 c.layer 1 }

unfoldable pub inc_layer_gat : Chunk → Chunk
inc_layer_gat c =
    if is_forward c.dir
    then record c { layer = add32 c.layer 1 }
    else if c.layer == 0
    then record c { dir = forward; vertex = true; epoch = add32 c.epoch 1 }
    else record c { layer = sub32 c.layer 1 }

unfoldable pub engine_last_layer : Chunk → Bool
engine_last_layer c = not (is_forward c.dir) && ((c.layer == 0) && c.vertex)
