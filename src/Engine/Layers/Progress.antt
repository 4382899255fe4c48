-- ===== src/Engine/Layers/Progress.antt =====
-- The way of a chunk through the layers and epochs.
use dorylus.Prelude.{
  ℕ, ◌+◌, ◌-◌, ◌*◌, ◌<◌, ◌≡◌, true, arith, u32_mod, ◌==◌, if◌then◌else◌, add32-eq, sub32-eq,
  mul32-eq,
}
use dorylus.Chunk.{Chunk, forward, backward, is_forward, chunk_lt}
use dorylus.Engine.Layers.Defs.{get_abs_layer, inc_layer_gcn}

-- The chunk is in one of the layers of the model.
abbrev pub InRange : ℕ → Chunk → Type 0
InRange num_layers c = (c.layer < num_layers) × (2 * num_layers < u32_mod) × (c.epoch + 1 < u32_mod)

get_abs_layer-eq :
    (num_layers : ℕ) (c : Chunk)
    → c.layer < num_layers
    → 2 * num_layers < u32_mod
    → get_abs_layer num_layers c
      ≡ (if is_forward c.dir then c.layer else 2 * num_layers - 1 - c.layer)
unfolding get_abs_layer
get_abs_layer-eq num_layers c lt small = ground (
  arith,
  mul32-eq 2 num_layers small,
  sub32-eq (2 * num_layers) 1,
  sub32-eq (2 * num_layers - 1) c.layer,
)

-- The next layer of GCN, without wrap.
step_gcn : ℕ → Chunk → Chunk
step_gcn n c =
    if is_forward c.dir
    then (if c.layer + 1 == n
        then record c { dir = backward }
        else record c { layer = c.layer + 1 })
    else if c.layer == 0
    then record c { dir = forward; epoch = c.epoch + 1 }
    else record c { layer = c.layer - 1 }

inc_layer_gcn-eq : (n : ℕ) (c : Chunk) → InRange n c → inc_layer_gcn n c ≡ step_gcn n c
unfolding inc_layer_gcn step_gcn
inc_layer_gcn-eq n c r =
    ground (
      arith,
      add32-eq c.layer 1,
      add32-eq c.epoch 1,
      sub32-eq (c.layer + 1) 1,
      sub32-eq c.layer 1,
      r,
    )

step_gcn-layer : (n : ℕ) (c : Chunk) → c.layer < n → (step_gcn n c).layer < n
unfolding step_gcn
step_gcn-layer n c r = ground arith

step_gcn-place :
    (n : ℕ) (c : Chunk)
    → c.layer < n
    → (if is_forward (step_gcn n c).dir
          then (step_gcn n c).layer
          else 2 * n - 1 - (step_gcn n c).layer)
        + 2 * n * (step_gcn n c).epoch
      ≡ (if is_forward c.dir then c.layer else 2 * n - 1 - c.layer) + 2 * n * c.epoch + 1
unfolding step_gcn
step_gcn-place n c r =
    let next : 2 * n * (c.epoch + 1) ≡ 2 * n * c.epoch + 2 * n = omega arith in ground (arith, next)

-- `incLayerGCN` moves a chunk in range to the next of the `2 * numLayers` places of an epoch, as
-- `getAbsLayer` numbers them, or from the last place to the first of the next epoch; the layer stays
-- in range.
pub inc_layer_gcn-get_abs_layer :
    (n : ℕ) (c : Chunk)
    → InRange n c
    → ((inc_layer_gcn n c).layer < n)
      × (get_abs_layer n (inc_layer_gcn n c) + 2 * n * (inc_layer_gcn n c).epoch
          ≡ get_abs_layer n c + 2 * n * c.epoch + 1)
inc_layer_gcn-get_abs_layer n c r =
    let e = inc_layer_gcn-eq n c r in
    let lt = step_gcn-layer n c r.0 in
    let a = get_abs_layer-eq n c r.0 r.1 in
    let b = get_abs_layer-eq n (step_gcn n c) lt r.1 in
    rw e (lt, ground (arith, a, b, step_gcn-place n c r.0))

-- A chunk in range that has moved on, by `incLayerGCN`, comes after the chunk as it was in the
-- order of the queues.
pub inc_layer_gcn-chunk_lt :
    (n : ℕ) (c : Chunk) → InRange n c → chunk_lt (inc_layer_gcn n c) c ≡ true
unfolding chunk_lt inc_layer_gcn
inc_layer_gcn-chunk_lt n c r =
    ground (
      arith,
      add32-eq c.layer 1,
      add32-eq c.epoch 1,
      sub32-eq (c.layer + 1) 1,
      sub32-eq c.layer 1,
      r,
    )
