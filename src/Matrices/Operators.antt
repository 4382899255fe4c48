-- ===== src/Matrices/Operators.antt =====
-- The operators of `Matrix`, each beside its assigning form.
use dorylus.Prelude.{ℕ, ◌≡◌, List, Option, none, some, map}
use dorylus.Weights.Float.{Float}
use dorylus.Weights.Heap.{Heap, Matrix, load}
use dorylus.Weights.Tidy.{Owns}
use dorylus.Matrices.Defs.{
  times, times_assign, divide, divide_assign, plus, plus_assign, minus, minus_assign, power,
  power_assign,
}
use dorylus.Matrices.Elementwise.{map_new-map_assign}

module _ {A : Type 0} where
  -- `new` makes a matrix of the shape of `m` with `g` of each element, and leaves `m`; `assign` stores
  -- the same elements in `m`.
  abbrev pub Elementwise :
      (Matrix → Heap A → Option (Matrix × Heap A))
      → (Matrix → Heap A → Option (Heap A))
      → (A → A)
      → Matrix
      → Heap A
      → Type 0
  Elementwise new assign g m h =
      (xs : List A) × (m' : Matrix) × (h1 : Heap A) × (h2 : Heap A) × (load m h ≡ some xs)
      × (new m h ≡ some (m', h1))
      × (assign m h ≡ some h2)
      × (load m' h1 ≡ some (map g xs))
      × (load m h1 ≡ some xs)
      × (load m h2 ≡ some (map g xs))
      × (m'.rows ≡ m.rows)
      × (m'.cols ≡ m.cols)

module _ {A : Type 0} ⦃f : Float A⦄ (n : ℕ) (m : Matrix) (h : Heap A) (own : Owns n m h)
    (free : h.cell h.next ≡ none) where
  -- On a matrix that owns its array, each of the operators `*`, `/`, `+`, `-` and `^` with a number
  -- makes a matrix of the same shape that has the product, quotient, sum, difference or power of each
  -- element with the number, in this order of operands, and leaves the operand; its assigning form
  -- stores the same elements in the operand.
  pub number_operators :
      (powf : A → A → A) (x : A)
      → Elementwise (times x) (times_assign x) (λ a. f.mul a x) m h
        × Elementwise (divide x) (divide_assign x) (λ a. f.div a x) m h
        × Elementwise (plus x) (plus_assign x) (λ a. f.add a x) m h
        × Elementwise (minus x) (minus_assign x) (λ a. f.sub a x) m h
        × Elementwise (power powf x) (power_assign powf x) (λ a. powf a x) m h
  unfolding times times_assign divide divide_assign plus plus_assign minus minus_assign power
      power_assign
  number_operators powf x = (
    map_new-map_assign (λ a. f.mul a x) n m h own free,
    map_new-map_assign (λ a. f.div a x) n m h own free,
    map_new-map_assign (λ a. f.add a x) n m h own free,
    map_new-map_assign (λ a. f.sub a x) n m h own free,
    map_new-map_assign (λ a. powf a x) n m h own free,
  )
