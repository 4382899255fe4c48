-- ===== src/Weights/Adam/Tests.antt =====
-- One step of Adam for a layer of two weights, with natural numbers in place of the floats.
use dorylus.Prelude.{ℕ, ◌+◌, ◌-◌, ◌*◌, ◌/◌, ◌^◌, ◌≡◌, refl, List, [], ◌∷◌, some, leb, length, mul32}
use dorylus.Weights.Float.{Float}
use dorylus.Weights.Adam.Defs.{Adam, update, layer_size}
use dorylus.Weights.Adam.Total.{LayerFits, update-LayerFits}

instance abbrev nat_float : Float ℕ
nat_float = record {
  zero = 0;
  one = 1;
  add = λ a b. a + b;
  sub = λ a b. a - b;
  mul = λ a b. a * b;
  div = λ a b. a / b;
  sqrt = λ a. a;
  pow = λ a n. a ^ n;
  of_unsigned = λ n. n;
  le = leb;
}

abbrev optimizer : Adam ℕ
optimizer = record {
  beta1 = 1;
  beta2 = 1;
  epsilon = 1;
  learning_rate = 1;
  epochs = 1;
  dims = 1 ∷ 2 ∷ [];
  momentum = (0 ∷ 3 ∷ []) ∷ [];
  decay = (0 ∷ 1 ∷ []) ∷ [];
  lr_t = 2;
}

optimizer-LayerFits : LayerFits optimizer 0 2
unfolding layer_size mul32
optimizer-LayerFits = (0 ∷ 3 ∷ [], 0 ∷ 1 ∷ [], refl, refl, refl, refl, refl)

update-LayerFits_example :
    (o' : Adam ℕ) × (ws' : List ℕ) × (update optimizer 0 (7 ∷ 9 ∷ []) (1 ∷ 1 ∷ []) ≡ some (o', ws'))
    × (length ws' ≡ 2)
    × LayerFits o' 0 2
update-LayerFits_example =
    update-LayerFits optimizer 0 2 (7 ∷ 9 ∷ []) (1 ∷ 1 ∷ []) optimizer-LayerFits refl refl
