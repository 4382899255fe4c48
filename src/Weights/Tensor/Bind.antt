-- ===== src/Weights/Tensor/Bind.antt =====
-- `getMat` binds a chunk for good: it goes on getting the same matrix.
use dorylus.Prelude.{◌+◌, ◌<◌, ◌≡◌, some, arith, u32_mod, inl, inr, Option-cases}
use dorylus.Prelude.Map.{find, size}
use dorylus.Chunk.{Chunk, chunk_order}
use dorylus.Weights.Heap.{Heap, Matrix}
use dorylus.Weights.Versions.{key_of, mat_of}
use dorylus.Weights.Versions
use dorylus.Weights.Versions.Calls.{weights_of}
use dorylus.Weights.Tensor.Defs.{WeightTensor, get_mat}
use dorylus.Weights.Tensor.Valid.{IsValid, IsBound}
use dorylus.Weights.Tensor.Get.{get_mat-Advances}

get_mat_again :
    (w : WeightTensor) (c : Chunk) (m : Matrix)
    → weights_of c w.versions ≡ some m
    → IsBound c w × (get_mat c w ≡ some (m, w))
unfolding get_mat Versions.get_mat
get_mat_again w c m b = elim (Option-cases (find (key_of c) w.chunk2ver)) [
  | inl unbound ↦ ground (arith, unbound, b)
  | inr (v, bound) ↦ ((λ e. ground (arith, bound)), ground (arith, bound, b))
]

module _ {A : Type 0} (w : WeightTensor) (h : Heap A) (valid : IsValid w h) (c : Chunk) where
  -- `getMat` on a valid tensor with fewer than 2 ^ 32 - 1 bound chunks returns a matrix and binds the
  -- chunk; the tensor is valid, and a second call with the chunk returns the same matrix and changes
  -- nothing.
  pub get_mat-get_mat :
      size w.chunk2ver + 1 < u32_mod
      → (m : Matrix) × (w' : WeightTensor) × (get_mat c w ≡ some (m, w'))
        × IsValid w' h
        × IsBound c w'
        × (get_mat c w' ≡ some (m, w'))
  get_mat-get_mat small =
      let (m, w', eq, b, adv, keeps) = get_mat-Advances w h valid c small in
      let (bound, again) = get_mat_again w' c m b in (m, w', eq, adv.valid, bound, again)
