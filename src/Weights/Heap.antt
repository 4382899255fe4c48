-- ===== src/Weights/Heap.antt =====
-- The buffers of `new FeatType[n]`, and `Matrix` of src/common/matrix.hpp, which points to one.
use Prim.Native.String.{String}
use dorylus.Prelude.{
  ℕ, zero, suc, ◌+◌, List, [], ◌∷◌, Option, none, some, ◌==◌, if◌then◌else◌, ◌>>=◌, mul32,
}

-- `cell p` is the array at address `p`, and `none` where no array lives.
pub record Heap (A : Type 0) : Type 0 where
  pub next : ℕ
  pub cell : ℕ → Option (List A)

-- `data` is `none` as long as no buffer has been set.
pub record Matrix : Type 0 where
  pub name : String
  pub rows : ℕ
  pub cols : ℕ
  pub buf : Option ℕ

unfoldable pub num_elemts : Matrix → ℕ
num_elemts m = mul32 m.rows m.cols

module _ {A : Type 0} where
  abbrev pub update : (ℕ → Option (List A)) → ℕ → Option (List A) → ℕ → Option (List A)
  update f p v q = if p == q then v else f q

  -- `new`, with what the array holds once it is filled.
  unfoldable pub alloc : List A → Heap A → ℕ × Heap A
  alloc xs h = (h.next, record { next = h.next + 1; cell = update h.cell h.next (some xs) })

  -- The array behind a matrix; a fault where there is none.
  unfoldable pub load : Matrix → Heap A → Option (List A)
  load m h = do p ← m.buf; h.cell p

  unfoldable pub store : Matrix → List A → Heap A → Option (Heap A)
  store m xs h = do p ← m.buf; old ← h.cell p; some (record h { cell = update h.cell p (some xs) })

  -- `Matrix::free`: `delete[]` of an array that is not there is a fault.
  unfoldable pub free : Matrix → Heap A → Option (Heap A)
  free m h = elim m.buf [
    | none ↦ some h
    | some p ↦ do old ← h.cell p; some (record h { cell = update h.cell p none })
  ]

  -- `memcpy` of `n` elements; a fault where the source is shorter.
  unfoldable pub copy_n : ℕ → List A → Option (List A)
  copy_n zero xs = some []
  copy_n (suc n) [] = none
  copy_n (suc n) (x ∷ xs) = do ys ← copy_n n xs; some (x ∷ ys)

  -- `for (u = 0; u < n; ++u) x[u] = f(x[u], y[u])`; a fault outside either array.
  unfoldable pub update_n : {B : Type 0} → (A → B → A) → ℕ → List A → List B → Option (List A)
  update_n f zero xs ys = some xs
  update_n f (suc n) (x ∷ xs) (y ∷ ys) = do zs ← update_n f n xs ys; some (f x y ∷ zs)
  update_n f (suc n) xs ys = none

  -- `for (u = 0; u < n; ++u) x[u] = a`.
  unfoldable pub fill_n : ℕ → A → List A → Option (List A)
  fill_n zero a xs = some xs
  fill_n (suc n) a [] = none
  fill_n (suc n) a (x ∷ xs) = do ys ← fill_n n a xs; some (a ∷ ys)
