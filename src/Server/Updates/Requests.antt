-- ===== src/Server/Updates/Requests.antt =====
-- The requests of the lambdas for weights.
use dorylus.Prelude.{
  ◌≡◌, ◌≢◌, List, [], ◌∷◌, ◌++◌, Option, none, some, ◌>>=◌, arith, All, All-imp, if◌then◌else◌,
  Option-cases, inl, inr, get_elem?,
}
use dorylus.Prelude.Map.{Order, same, same→eq}
use dorylus.Chunk.{Chunk}
use dorylus.Weights.Heap.{Heap}
use dorylus.Weights.Tensor.{WeightTensor, get_mat}
use dorylus.Server.Updates.Defs.{
  UpdateServer, Reply, error_msg, weights_layer, tensor_at, send_tensor, send_tensors,
}
use dorylus.Server.Updates.Store.{put_tensor-tensor_at, put_tensor-find}

-- The same replies, with an error after them.
abbrev pub with_error :
    {K A : Type 0}
    → K
    → UpdateServer K A × List (Reply K A)
    → Option (UpdateServer K A × List (Reply K A))
with_error name (s, replies) = some (s, replies ++ error_msg name ∷ [])

module _ {K A : Type 0} ⦃o : Order K⦄ (chunk : Chunk) where
  in_layer :
      (s : UpdateServer K A) (j : K) (x : WeightTensor × Heap A)
      → tensor_at (weights_layer chunk) j s ≡ some x
      → get_elem? s.weights_store (weights_layer chunk) ≢ none
  unfolding tensor_at
  in_layer s j x e gone = ground arith

  -- Names that are there stay there.
  still :
      (js : List K) (s s1 : UpdateServer K A) (j : K) (x : WeightTensor × Heap A)
      → ((k : K)
          → tensor_at (weights_layer chunk) k s1
            ≡ (if same j k then some x else tensor_at (weights_layer chunk) k s))
      → All (λ k. tensor_at (weights_layer chunk) k s ≢ none) js
      → All (λ k. tensor_at (weights_layer chunk) k s1 ≢ none) js
  still js s s1 j x put = All-imp (λ k has gone. ground (arith, put k, has)) js

  -- A request for tensors of which the first that the server does not have is `name`, of a layer that
  -- it has: the replies are those of a request for the tensors before it, then the error with its
  -- name, and nothing for the names after it.
  pub send_tensors-missing :
      (before : List K) (name : K) (rest : List K) (s : UpdateServer K A)
      → get_elem? s.weights_store (weights_layer chunk) ≢ none
      → All (λ j. tensor_at (weights_layer chunk) j s ≢ none) before
      → tensor_at (weights_layer chunk) name s ≡ none
      → send_tensors chunk (before ++ name ∷ rest) s
        ≡ (send_tensors chunk before s >>= with_error name)
  unfolding send_tensors tensor_at
  send_tensors-missing [] name rest s has here gone =
      elim (Option-cases (get_elem? s.weights_store (weights_layer chunk))) [
        | inl e ↦ absurd (has e)
        | inr (m, e) ↦ ground (arith, e, gone)
      ]
  send_tensors-missing (j ∷ before) name rest s has here gone =
      elim (Option-cases (tensor_at (weights_layer chunk) j s)) [
        | inl e ↦ absurd (here.0 e)
        | inr (x, found) ↦ elim (Option-cases (get_mat chunk x.0)) [
          | inl e ↦ ground (arith, found, e)
          | inr (g, eg) ↦ elim (Option-cases (send_tensor {K = K} g.0 x.1)) [
            | inl e ↦ ground (arith, found, eg, e)
            | inr (reply, er) ↦
                let (s1, put, at, same) =
                  put_tensor-tensor_at (weights_layer chunk) j s x (g.1, x.1) found in
                let there = λ (k : K).
                  put_tensor-find (weights_layer chunk) j s x (g.1, x.1) found s1 k put in
                let ih =
                  send_tensors-missing before name rest s1 (in_layer s1 j (g.1, x.1) at)
                    (still before s s1 j (g.1, x.1) there here.1)
                    (ground (arith, gone, found, there name, same→eq j name)) in
                ground (arith, found, eg, er, put, ih)
          ]
        ]
      ]
