-- ===== src/Weights/Tensor/Stash.antt =====
-- Weight stashing: what a chunk sees of its weights while the server goes on.
use dorylus.Prelude.{
  ℕ, ◌+◌, ◌<◌, ◌≡◌, refl, ◌∙◌, List, [], ◌∷◌, some, arith, length, u32_mod, Bool, subst, sym,
}
use dorylus.Prelude.Map.{size}
use dorylus.Chunk.{Chunk, chunk_order}
use dorylus.Weights.Float.{Float}
use dorylus.Weights.Heap.{Heap}
use dorylus.Weights.Tensor.Defs.{WeightTensor}
use dorylus.Weights.Tensor.Valid.{elemts, IsValid, weights_in, IsBound}
use dorylus.Weights.Tensor.Trace.{Call, run, CallFits, Spares, AllCalls}
use dorylus.Weights.Tensor.Calls.{step_total}

module _ {A : Type 0} where
  AllCalls-cast :
      (calls : List (Call A)) (b b' : Bool) (n n' : ℕ)
      → b' ≡ b
      → n' ≡ n
      → AllCalls (λ c. CallFits c b n) calls
      → AllCalls (λ c. CallFits c b' n') calls
  AllCalls-cast calls b b' n n' p q fits =
      subst (λ m. AllCalls (λ c. CallFits c b' m) calls) (sym q)
        (subst (λ s. AllCalls (λ c. CallFits c s n) calls) (sym p) fits)

module _ {A : Type 0} ⦃f : Float A⦄ where
  -- Any sequence of calls on a valid tensor, each with arrays of the right size, and not so long
  -- that a counter could wrap: no call faults, and the tensor is valid afterwards.
  pub run_total :
      (calls : List (Call A)) (w : WeightTensor) (h : Heap A)
      → IsValid w h
      → AllCalls (λ c. CallFits c w.sync (elemts w)) calls
      → size w.chunk2ver + length calls < u32_mod
      → w.curr_ver + length calls < u32_mod
      → (w' : WeightTensor) × (h' : Heap A) × (run calls (w, h) ≡ some (w', h')) × IsValid w' h'
  unfolding run
  run_total [] w h valid fits cs vs = (w, h, refl, valid)
  run_total (call ∷ calls) w h valid fits cs vs =
      let (w1, h1, eq, st) = step_total w h valid call fits.0 (omega arith) (omega arith) in
      let a = st.advances in
      let (w', h', eq', valid') =
        run_total calls w1 h1 a.valid (AllCalls-cast calls _ _ _ _ a.same_sync a.same_elemts fits.1)
          (omega (arith, a.chunks_le)) (omega (arith, a.versions_le)) in
      (w', h', rw eq eq', valid')

  -- Along any such sequence in which nobody releases a chunk, the chunk stays bound, to weights with
  -- the same contents.
  pub run-weights :
      (calls : List (Call A)) (w w' : WeightTensor) (h h' : Heap A) (c : Chunk)
      → IsValid w h
      → AllCalls (λ c. CallFits c w.sync (elemts w)) calls
      → size w.chunk2ver + length calls < u32_mod
      → w.curr_ver + length calls < u32_mod
      → AllCalls (Spares c) calls
      → IsBound c w
      → run calls (w, h) ≡ some (w', h')
      → IsBound c w' × (weights_in c w' h' ≡ weights_in c w h)
  unfolding run
  run-weights [] w w' h h' c valid fits cs vs spare b r = ground (arith, r, b)
  run-weights (call ∷ calls) w w' h h' c valid fits cs vs spare b r =
      let (w1, h1, eq, st) = step_total w h valid call fits.0 (omega arith) (omega arith) in
      let a = st.advances in
      let k = st.keeps c spare.0 b in
      let r' : run calls (w1, h1) ≡ some (w', h') = ground (arith, r, eq) in
      let (b', same) =
        run-weights calls w1 w' h1 h' c a.valid
          (AllCalls-cast calls _ _ _ _ a.same_sync a.same_elemts fits.1)
          (omega (arith, a.chunks_le)) (omega (arith, a.versions_le)) spare.1 k.same_bound r' in
      (b', same ∙ k.same_weights)
