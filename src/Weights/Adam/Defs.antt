-- ===== src/Weights/Adam/Defs.antt =====
-- `AdamOptimizer`. `WEIGHT_DECAY` is the constant 0 of the header.
use dorylus.Prelude.{
  ℕ, zero, suc, ◌+◌, List, [], ◌∷◌, Option, none, some, ◌==◌, if◌then◌else◌, ◌>>=◌, mul32, add32,
  get_elem?, set, replicate,
}
use dorylus.Weights.Float.{Float}

pub record Adam (A : Type 0) : Type 0 where
  pub beta1 : A
  pub beta2 : A
  pub epsilon : A
  pub learning_rate : A
  pub epochs : ℕ
  pub dims : List ℕ
  pub momentum : List (List A)
  pub decay : List (List A)
  pub lr_t : A

-- `dims[layer] * dims[layer + 1]`.
unfoldable pub layer_size : List ℕ → ℕ → Option ℕ
layer_size dims layer = do
  a ← get_elem? dims layer
  b ← get_elem? dims (layer + 1)
  some (mul32 a b)

module _ {A : Type 0} ⦃f : Float A⦄ where
  unfoldable pub next_iteration : Adam A → Adam A
  next_iteration o =
      let epochs = add32 o.epochs 1 in
      let beta_1_power = f.pow o.beta1 epochs in
      let beta_2_power = f.pow o.beta2 epochs in
      record o {
        epochs = epochs;
        lr_t =
            f.div (f.mul o.learning_rate (f.sqrt (f.sub f.one beta_2_power)))
              (f.sub f.one beta_1_power);
      }

  -- The zeroed buffers that the constructor pushes for each layer.
  unfoldable pub zero_buffers : List ℕ → List (List A)
  zero_buffers [] = []
  zero_buffers (a ∷ []) = []
  zero_buffers (a ∷ b ∷ dims) = replicate (mul32 a b) f.zero ∷ zero_buffers (b ∷ dims)

  unfoldable pub new_adam : A → A → A → A → List ℕ → Adam A
  unfolding next_iteration zero_buffers
  new_adam beta1 beta2 epsilon lr dims = next_iteration (record {
    beta1 = beta1;
    beta2 = beta2;
    epsilon = epsilon;
    learning_rate = lr;
    epochs = 0;
    dims = dims;
    momentum = zero_buffers dims;
    decay = zero_buffers dims;
    lr_t = f.zero;
  })

  -- One element: the new momentum, decay and weight.
  unfoldable pub adam_element : Adam A → A → A → A → A → A × A × A
  adam_element o w g prev_m prev_d =
      let gt = f.add g (f.mul f.zero w) in
      let m = f.add (f.mul o.beta1 prev_m) (f.mul (f.sub f.one o.beta1) gt) in
      let d = f.add (f.mul o.beta2 prev_d) (f.mul (f.mul (f.sub f.one o.beta2) gt) gt) in
      (m, d, f.sub w (f.div (f.mul o.lr_t m) (f.add (f.sqrt d) o.epsilon)))

  -- The loop of `update` over the four arrays; a fault outside one of them.
  unfoldable pub adam_loop :
      Adam A → ℕ → List A → List A → List A → List A → Option (List A × List A × List A)
  adam_loop o zero ms ds ws gs = some (ms, ds, ws)
  adam_loop o (suc n) (m ∷ ms) (d ∷ ds) (w ∷ ws) (g ∷ gs) = do
    rest ← adam_loop o n ms ds ws gs
    let e = adam_element o w g m d
    some (e.0 ∷ rest.0, e.1 ∷ rest.1, e.2 ∷ rest.2)
  adam_loop o (suc n) ms ds ws gs = none

  -- `update`: the optimizer and the weights afterwards.
  unfoldable pub update : Adam A → ℕ → List A → List A → Option (Adam A × List A)
  update o layer weight gradient = do
    size ← layer_size o.dims layer
    ms ← get_elem? o.momentum layer
    ds ← get_elem? o.decay layer
    r ← adam_loop o size ms ds weight gradient
    let o' = record o { momentum = set o.momentum layer r.0; decay = set o.decay layer r.1 }
    some (if layer == 0 then next_iteration o' else o', r.2)
