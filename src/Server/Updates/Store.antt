-- ===== src/Server/Updates/Store.antt =====
-- The tensors of the store: what is put under a layer and a name is found there.
use dorylus.Prelude.{
  ℕ, zero, suc, ◌<◌, ◌≡◌, refl, List, [], ◌∷◌, some, arith, length, get_elem?, set,
  get_elem?-set_self, Option-cases, inl, inr, if◌then◌else◌,
}
use dorylus.Prelude.Map.{Map, Order, find, insert, find-insert, same, same_refl}
use dorylus.Weights.Heap.{Heap}
use dorylus.Weights.Tensor.{WeightTensor}
use dorylus.Server.Updates.Defs.{UpdateServer, tensor_at, put_tensor}

in_range : {A : Type 0} (xs : List A) (i : ℕ) {x : A} → get_elem? xs i ≡ some x → i < length xs
in_range [] i e = absurd (cc e)
in_range (x ∷ xs) zero e = omega arith
in_range (x ∷ xs) (suc i) e = omega (arith, in_range xs i e)

module _ {K A : Type 0} ⦃o : Order K⦄ (layer : ℕ) (name : K) (s : UpdateServer K A)
    (x y : WeightTensor × Heap A) (found : tensor_at layer name s ≡ some x) where
  layer_of :
      (m : Map K (WeightTensor × Heap A)) × (get_elem? s.weights_store layer ≡ some m)
      × (find name m ≡ some x)
  unfolding tensor_at
  layer_of = elim (Option-cases (get_elem? s.weights_store layer)) [
    | inl e ↦ ground (arith, e, found)
    | inr (m, e) ↦ (m, e, ground (arith, e, found))
  ]

  -- `put_tensor` changes the one entry, and nothing else of the server.
  pub put_tensor-tensor_at :
      (s' : UpdateServer K A) × (put_tensor layer name y s ≡ some s')
      × (tensor_at layer name s' ≡ some y)
      × (record s' { weights_store = s.weights_store } ≡ s)
  unfolding put_tensor tensor_at
  put_tensor-tensor_at =
      let (m, e, f) = layer_of in
      (
        record s { weights_store = set s.weights_store layer (insert name y m) },
        ground (arith, e),
        ground (
          arith,
          get_elem?-set_self s.weights_store layer (insert name y m),
          in_range s.weights_store layer e,
          find-insert name name y m,
          same_refl name,
        ),
        refl,
      )

  -- Every other name of the layer keeps its tensor.
  pub put_tensor-find :
      (s' : UpdateServer K A) (j : K)
      → put_tensor layer name y s ≡ some s'
      → tensor_at layer j s' ≡ (if same name j then some y else tensor_at layer j s)
  unfolding put_tensor tensor_at
  put_tensor-find s' j put =
      let (m, e, f) = layer_of in
      let new : s' ≡ record s { weights_store = set s.weights_store layer (insert name y m) } =
        ground (arith, e, put) in
      ground (
        arith,
        new,
        e,
        get_elem?-set_self s.weights_store layer (insert name y m),
        in_range s.weights_store layer e,
        find-insert name j y m,
      )
