-- ===== src/Matrices/Files.antt =====
-- `toFile` and `fromFile`: the dimensions, then the elements. A file is the sequence of the values
-- that are written to it; their bytes are the machine's.
use dorylus.Prelude.{
  ℕ, zero, suc, ◌≡◌, refl, List, [], ◌∷◌, Option, none, some, map, arith, length, mul32, ◌>>=◌,
}
use dorylus.Weights.Heap.{Heap, Matrix, num_elemts, alloc, load, copy_n}
use dorylus.Weights.Tidy.{Owns}
use dorylus.Weights.Arrays.{copy_n-eq}

pub data FileItem (A : Type 0) : Type 0 where
  dim : ℕ → FileItem A
  element : A → FileItem A

module _ {A : Type 0} where
  unfoldable pub to_file : Matrix → Heap A → Option (List (FileItem A))
  to_file m h = do
    xs ← load m h
    ys ← copy_n (num_elemts m) xs
    some (dim m.rows ∷ dim m.cols ∷ map element ys)

  -- The elements that are read; a file that ends early leaves some undefined: a fault.
  unfoldable pub read_elements : ℕ → List (FileItem A) → Option (List A)
  read_elements zero items = some []
  read_elements (suc n) (element x ∷ items) = do xs ← read_elements n items; some (x ∷ xs)
  read_elements (suc n) items = none

  unfoldable pub from_file : Matrix → List (FileItem A) → Heap A → Option (Matrix × Heap A)
  from_file m (dim rows ∷ dim cols ∷ items) h = do
    xs ← read_elements (mul32 rows cols) items
    let (p, h') = alloc xs h
    some (record m { rows = rows; cols = cols; buf = some p }, h')
  from_file m items h = none

  read_elements-map :
      (n : ℕ) (xs : List A) → length xs ≡ n → read_elements n (map element xs) ≡ some xs
  unfolding read_elements
  read_elements-map zero [] l = refl
  read_elements-map (suc n) (x ∷ xs) l = ground (arith, read_elements-map n xs)
  read_elements-map _ _ l = ground arith

  -- A matrix that owns its array is written to a file, and read back into any matrix it has the same
  -- dimensions and elements, in a new array; the matrix that was written keeps its elements, and the
  -- one that was read into keeps its name.
  pub from_file-to_file :
      (n : ℕ) (m other : Matrix) (h : Heap A)
      → Owns n m h
      → h.cell h.next ≡ none
      → (items : List (FileItem A)) × (m' : Matrix) × (h' : Heap A) × (to_file m h ≡ some items)
        × (from_file other items h ≡ some (m', h'))
        × (m'.rows ≡ m.rows)
        × (m'.cols ≡ m.cols)
        × (m'.name ≡ other.name)
        × (load m' h' ≡ load m h)
        × (load m h' ≡ load m h)
  unfolding to_file from_file load alloc num_elemts
  from_file-to_file n m other h (p, xs, b, c, l, k) free = (
    dim m.rows ∷ dim m.cols ∷ map element xs,
    record other { rows = m.rows; cols = m.cols; buf = some h.next },
    (alloc xs h).1,
    ground (arith, b, c, k, copy_n-eq n xs l),
    ground (arith, k, read_elements-map n xs l),
    refl,
    refl,
    refl,
    ground (arith, b, c),
    ground (arith, b, c, free),
  )
