-- ===== src/Matrices/Defs.antt =====
-- The operators on each element: with a number, or with the element at the same place of another
-- matrix, into a new matrix or in place. A failed `assert` is a fault.
use dorylus.Prelude.{
  ℕ, zero, suc, List, [], ◌∷◌, Option, none, some, ◌&&◌, ◌==◌, if◌then◌else◌, ◌>>=◌,
}
use dorylus.Weights.Float.{Float}
use dorylus.Weights.Heap.{Heap, Matrix, num_elemts, alloc, load, store, update_n}

module _ {A : Type 0} where
  -- The loop into a new array of `n` elements.
  unfoldable pub map_n : (A → A) → ℕ → List A → Option (List A)
  map_n f zero xs = some []
  map_n f (suc n) [] = none
  map_n f (suc n) (x ∷ xs) = do ys ← map_n f n xs; some (f x ∷ ys)

  -- The loop in place, over the first `n` elements.
  unfoldable pub map_in_place_n : (A → A) → ℕ → List A → Option (List A)
  map_in_place_n f zero xs = some xs
  map_in_place_n f (suc n) [] = none
  map_in_place_n f (suc n) (x ∷ xs) = do ys ← map_in_place_n f n xs; some (f x ∷ ys)

  unfoldable pub zip_n : (A → A → A) → ℕ → List A → List A → Option (List A)
  zip_n f zero xs ys = some []
  zip_n f (suc n) (x ∷ xs) (y ∷ ys) = do zs ← zip_n f n xs ys; some (f x y ∷ zs)
  zip_n f (suc n) xs ys = none

  -- `Matrix(rows, cols, result)` on a new array.
  unfoldable pub new_matrix : ℕ → ℕ → List A → Heap A → Matrix × Heap A
  new_matrix rows cols xs h =
      let (p, h') = alloc xs h in (record { name = ""; rows = rows; cols = cols; buf = some p }, h')

  -- `operator∘(float)`.
  unfoldable pub map_new : (A → A) → Matrix → Heap A → Option (Matrix × Heap A)
  map_new f m h = do
    xs ← load m h
    ys ← map_n f (num_elemts m) xs
    some (new_matrix m.rows m.cols ys h)

  -- `operator∘=(float)`.
  unfoldable pub map_assign : (A → A) → Matrix → Heap A → Option (Heap A)
  map_assign f m h = do xs ← load m h; ys ← map_in_place_n f (num_elemts m) xs; store m ys h

  -- `operator∘(Matrix&)`.
  unfoldable pub zip_new : (A → A → A) → Matrix → Matrix → Heap A → Option (Matrix × Heap A)
  zip_new f a b h =
      if (a.rows == b.rows) && (a.cols == b.cols)
      then (do
        xs ← load a h
        ys ← load b h
        zs ← zip_n f (num_elemts a) xs ys
        some (new_matrix a.rows a.cols zs h))
      else none

  -- `operator∘=(Matrix&)`. Both operands may point to one array: place `i` is read before it is
  -- written, and no other place is.
  unfoldable pub zip_assign : (A → A → A) → Matrix → Matrix → Heap A → Option (Heap A)
  zip_assign f a b h =
      if (a.rows == b.rows) && (a.cols == b.cols)
      then (do xs ← load a h; ys ← load b h; zs ← update_n f (num_elemts a) xs ys; store a zs h)
      else none

-- The operators. `powf` is `std::pow`.
module _ {A : Type 0} ⦃f : Float A⦄ where
  unfoldable pub times : A → Matrix → Heap A → Option (Matrix × Heap A)
  times x m h = map_new (λ a. f.mul a x) m h

  unfoldable pub times_assign : A → Matrix → Heap A → Option (Heap A)
  times_assign x m h = map_assign (λ a. f.mul a x) m h

  unfoldable pub divide : A → Matrix → Heap A → Option (Matrix × Heap A)
  divide x m h = map_new (λ a. f.div a x) m h

  unfoldable pub divide_assign : A → Matrix → Heap A → Option (Heap A)
  divide_assign x m h = map_assign (λ a. f.div a x) m h

  unfoldable pub plus : A → Matrix → Heap A → Option (Matrix × Heap A)
  plus x m h = map_new (λ a. f.add a x) m h

  unfoldable pub plus_assign : A → Matrix → Heap A → Option (Heap A)
  plus_assign x m h = map_assign (λ a. f.add a x) m h

  unfoldable pub minus : A → Matrix → Heap A → Option (Matrix × Heap A)
  minus x m h = map_new (λ a. f.sub a x) m h

  unfoldable pub minus_assign : A → Matrix → Heap A → Option (Heap A)
  minus_assign x m h = map_assign (λ a. f.sub a x) m h

  unfoldable pub power : (A → A → A) → A → Matrix → Heap A → Option (Matrix × Heap A)
  power powf x m h = map_new (λ a. powf a x) m h

  unfoldable pub power_assign : (A → A → A) → A → Matrix → Heap A → Option (Heap A)
  power_assign powf x m h = map_assign (λ a. powf a x) m h

  unfoldable pub times_mat : Matrix → Matrix → Heap A → Option (Matrix × Heap A)
  times_mat a b h = zip_new f.mul a b h

  unfoldable pub divide_mat : Matrix → Matrix → Heap A → Option (Matrix × Heap A)
  divide_mat a b h = zip_new f.div a b h

  unfoldable pub plus_mat : Matrix → Matrix → Heap A → Option (Matrix × Heap A)
  plus_mat a b h = zip_new f.add a b h

  unfoldable pub minus_mat : Matrix → Matrix → Heap A → Option (Matrix × Heap A)
  minus_mat a b h = zip_new f.sub a b h

  unfoldable pub times_mat_assign : Matrix → Matrix → Heap A → Option (Heap A)
  times_mat_assign a b h = zip_assign f.mul a b h

  unfoldable pub divide_mat_assign : Matrix → Matrix → Heap A → Option (Heap A)
  divide_mat_assign a b h = zip_assign f.div a b h

  unfoldable pub plus_mat_assign : Matrix → Matrix → Heap A → Option (Heap A)
  plus_mat_assign a b h = zip_assign f.add a b h

  unfoldable pub minus_mat_assign : Matrix → Matrix → Heap A → Option (Heap A)
  minus_mat_assign a b h = zip_assign f.sub a b h
