-- ===== src/Matrices/Tests.antt =====
-- The operators at two small matrices of natural numbers.
use dorylus.Prelude.{
  ℕ, ◌+◌, ◌*◌, ◌≡◌, refl, List, [], ◌∷◌, none, some, length-replicate, mul32, ◌==◌, if◌then◌else◌,
  replicate,
}
use dorylus.Weights.Heap.{Heap, Matrix, num_elemts, load}
use dorylus.Weights.Tidy.{Owns}
use dorylus.Weights.Tensor.Tests.{nat_float}
use dorylus.Matrices.Defs.{
  times, times_assign, divide, divide_assign, plus, plus_assign, minus, minus_assign, power,
  power_assign,
}
use dorylus.Matrices.Operators.{Elementwise, number_operators}
use dorylus.Matrices.Product.{Gemm, IsGemm}
use dorylus.Matrices.Files.{FileItem, to_file, from_file, from_file-to_file}

abbrev left : Matrix
left = record { name = "left"; rows = 1; cols = 2; buf = some 0 }

abbrev right : Matrix
right = record { name = "right"; rows = 2; cols = 1; buf = some 1 }

abbrev heap : Heap ℕ
heap = record {
  next = 2;
  cell = λ p. if p == 0 then some (3 ∷ 4 ∷ []) else if p == 1 then some (5 ∷ 6 ∷ []) else none;
}

left-Owns : Owns 2 left heap
unfolding num_elemts mul32
left-Owns = (0, 3 ∷ 4 ∷ [], refl, refl, refl, refl)

right-Owns : Owns 2 right heap
unfolding num_elemts mul32
right-Owns = (1, 5 ∷ 6 ∷ [], refl, refl, refl, refl)

abbrev sum : ℕ → ℕ → ℕ
sum m n = m + n

number_operators_example :
    Elementwise (times 7) (times_assign 7) (λ a. nat_float.mul a 7) left heap
    × Elementwise (divide 7) (divide_assign 7) (λ a. nat_float.div a 7) left heap
    × Elementwise (plus 7) (plus_assign 7) (λ a. nat_float.add a 7) left heap
    × Elementwise (minus 7) (minus_assign 7) (λ a. nat_float.sub a 7) left heap
    × Elementwise (power sum 7) (power_assign sum 7) (λ a. sum a 7) left heap
number_operators_example = number_operators 2 left heap left-Owns refl sum 7

from_file-to_file_example :
    (items : List (FileItem ℕ)) × (m' : Matrix) × (h' : Heap ℕ) × (to_file left heap ≡ some items)
    × (from_file right items heap ≡ some (m', h'))
    × (m'.rows ≡ 1)
    × (m'.cols ≡ 2)
    × (m'.name ≡ "right")
    × (load m' h' ≡ load left heap)
    × (load left h' ≡ load left heap)
from_file-to_file_example = from_file-to_file 2 left right heap left-Owns refl

-- A stand-in for BLAS that returns arrays of the right size.
abbrev ones : Gemm ℕ
ones ta tb m n k alpha xs lda ys ldb ldc = some (replicate (m * n) 1)

ones-IsGemm : IsGemm ones
ones-IsGemm = record {
  returns = λ ta tb m n k alpha xs lda ys ldb ldc fa fb pn e.
      (replicate (m * n) 1, refl, length-replicate (m * n) 1);
}
