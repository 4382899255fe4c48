-- ===== src/Weights/Adam/Total.antt =====
-- `AdamOptimizer::update` on arrays of the size of the layer: it returns, it changes one weight per
-- element, and it keeps the sizes of its own buffers.
use dorylus.Prelude.{
  ℕ, zero, suc, ◌<◌, ◌≡◌, refl, ap, List, [], ◌∷◌, some, arith, length, get_elem?, set,
  get_elem?-set_self, ◌==◌, if◌then◌else◌,
}
use dorylus.Weights.Float.{Float}
use dorylus.Weights.Adam.Defs.{Adam, update, layer_size, adam_loop, adam_element, next_iteration}

-- The buffers of a layer have its size.
abbrev pub LayerFits : {A : Type 0} → Adam A → ℕ → ℕ → Type 0
LayerFits {A} o layer n =
    (ms : List A) × (ds : List A) × (layer_size o.dims layer ≡ some n)
    × (get_elem? o.momentum layer ≡ some ms)
    × (get_elem? o.decay layer ≡ some ds)
    × (length ms ≡ n)
    × (length ds ≡ n)

get_elem?-lt : {B : Type 0} (xs : List B) (i : ℕ) (x : B) → get_elem? xs i ≡ some x → i < length xs
get_elem?-lt [] i x e = cc
get_elem?-lt (y ∷ ys) zero x e = omega arith
get_elem?-lt (y ∷ ys) (suc i) x e = omega (arith, get_elem?-lt ys i x e)

module _ {A : Type 0} ⦃f : Float A⦄ where
  adam_loop_total :
      (o : Adam A) (n : ℕ) (ms ds ws gs : List A)
      → length ms ≡ n
      → length ds ≡ n
      → length ws ≡ n
      → length gs ≡ n
      → (ms' : List A) × (ds' : List A) × (ws' : List A) × (adam_loop o n ms ds ws gs
          ≡ some (ms', ds', ws'))
        × (length ms' ≡ n)
        × (length ds' ≡ n)
        × (length ws' ≡ n)
  unfolding adam_loop
  adam_loop_total o zero ms ds ws gs a b c d = (ms, ds, ws, refl, a, b, c)
  adam_loop_total o (suc n) (m ∷ ms) (e ∷ ds) (w ∷ ws) (g ∷ gs) a b c d =
      let (ms', ds', ws', eq, la, lb, lc) =
        adam_loop_total o n ms ds ws gs (omega arith) (omega arith) (omega arith) (omega arith) in
      let el = adam_element o w g m e in
      (el.0 ∷ ms', el.1 ∷ ds', el.2 ∷ ws', ground (arith, eq), ap suc la, ap suc lb, ap suc lc)
  adam_loop_total o (suc n) _ _ _ _ a b c d = absurd (omega arith)

  -- The optimizer with new buffers for a layer.
  abbrev trained : Adam A → ℕ → List A → List A → Adam A
  trained o layer ms ds = record o {
    momentum = set o.momentum layer ms;
    decay = set o.decay layer ds;
  }

  pub update-LayerFits :
      (o : Adam A) (layer n : ℕ) (ws gs : List A)
      → LayerFits o layer n
      → length ws ≡ n
      → length gs ≡ n
      → (o' : Adam A) × (ws' : List A) × (update o layer ws gs ≡ some (o', ws'))
        × (length ws' ≡ n)
        × LayerFits o' layer n
  unfolding update next_iteration
  update-LayerFits o layer n ws gs (ms, ds, sz, gm, gd, lm, ld) lw lg =
      let (ms', ds', ws', eq, la, lb, lc) = adam_loop_total o n ms ds ws gs lm ld lw lg in
      let im = get_elem?-lt o.momentum layer ms gm in
      let id = get_elem?-lt o.decay layer ds gd in
      let o1 : Adam A = trained o layer ms' ds' in
      (
        if layer == 0 then next_iteration o1 else o1,
        ws',
        ground (arith, sz, gm, gd, eq),
        lc,
        (
          ms',
          ds',
          ground (arith, sz),
          ground (arith, get_elem?-set_self o.momentum layer ms' im),
          ground (arith, get_elem?-set_self o.decay layer ds' id),
          la,
          lb,
        ),
      )
