-- ===== src/Matrices/Product.antt =====
-- `dot`. The product itself is `cblas_sgemm`, a parameter; the code's part is to hand it the right
-- dimensions and strides.
use dorylus.Prelude.{
  ℕ, ◌*◌, ◌≤◌, ◌<◌, ◌≡◌, ◌≢◌, refl, List, Bool, true, false, not, ◌&&◌, Option, none, some, arith,
  length, ◌==◌, if◌then◌else◌, ◌>>=◌,
}
use dorylus.Weights.Heap.{Heap, Matrix, load}
use dorylus.Weights.Tidy.{Owns}
use dorylus.Matrices.Defs.{new_matrix}
use dorylus.Matrices.Elementwise.{new_matrix-load}

-- `cblas_sgemm` in row-major order, with `beta` 0: the two flags of transposition, `m`, `n`, `k`,
-- `alpha`, the two arrays with their strides, and the stride of the result.
abbrev pub Gemm : Type 0 → Type 0
Gemm A = Bool → Bool → ℕ → ℕ → ℕ → A → List A → ℕ → List A → ℕ → ℕ → Option (List A)

-- A stored matrix of `rows` rows and `cols` columns fits an array with the stride.
abbrev pub Fits : ℕ → ℕ → ℕ → ℕ → Type 0
Fits rows cols stride len = (0 < stride) × (cols ≤ stride) × (rows * stride ≤ len)

-- What BLAS asks of the arguments, and what it returns then.
pub record IsGemm {A : Type 0} (gemm : Gemm A) : Type 0 where
  pub returns :
      (ta tb : Bool) (m n k : ℕ) (alpha : A) (xs : List A) (lda : ℕ) (ys : List A) (ldb ldc : ℕ)
      → Fits (if ta then k else m) (if ta then m else k) lda (length xs)
      → Fits (if tb then n else k) (if tb then k else n) ldb (length ys)
      → 0 < n
      → ldc ≡ n
      → (zs : List A) × (gemm ta tb m n k alpha xs lda ys ldb ldc ≡ some zs) × (length zs ≡ m * n)

-- The dimensions of an operand as the product sees it.
abbrev pub height : Bool → Matrix → ℕ
height t m = if t then m.cols else m.rows

abbrev pub width : Bool → Matrix → ℕ
width t m = if t then m.rows else m.cols

module _ {A : Type 0} where
  -- One call, and the matrix around its result.
  unfoldable pub multiply :
      Gemm A
      → Bool
      → Bool
      → ℕ
      → ℕ
      → ℕ
      → A
      → Matrix
      → ℕ
      → Matrix
      → ℕ
      → Heap A
      → Option (Matrix × Heap A)
  multiply gemm ta tb m n k scale a lda b ldb h = do
    xs ← load a h
    ys ← load b h
    zs ← gemm ta tb m n k scale xs lda ys ldb n
    some (new_matrix m n zs h)

  unfoldable pub dot :
      Gemm A → Matrix → Matrix → Bool → Bool → A → Heap A → Option (Matrix × Heap A)
  dot gemm a b transpose1 transpose2 scale h =
      if not transpose1 && not transpose2
      then (if a.cols == b.rows
          then multiply gemm false false a.rows b.cols a.cols scale a a.cols b b.cols h
          else none)
      else if transpose1 && transpose2
      then (if a.rows == b.cols
          then multiply gemm true true a.cols b.rows a.rows scale a a.cols b a.rows h
          else none)
      else if transpose1
      then (if a.rows == b.rows
          then multiply gemm true false a.cols b.cols a.rows scale a a.cols b b.cols h
          else none)
      else if a.cols == b.cols
      then multiply gemm false true a.rows b.rows a.cols scale a a.cols b a.cols h
      else none

  module _ (gemm : Gemm A) (law : IsGemm gemm) (a b : Matrix) (scale : A) (h : Heap A)
      (oa : Owns (a.rows * a.cols) a h) (ob : Owns (b.rows * b.cols) b h) (pa : 0 < a.cols)
      (pb : 0 < b.cols) (free : h.cell h.next ≡ none) where
    multiply_total :
        (ta tb : Bool) (m n k lda ldb : ℕ)
        → 0 < n
        → Fits (if ta then k else m) (if ta then m else k) lda (a.rows * a.cols)
        → Fits (if tb then n else k) (if tb then k else n) ldb (b.rows * b.cols)
        → (c : Matrix) × (h' : Heap A) × (zs : List A) × (multiply gemm ta tb m n k scale a lda b
              ldb h
            ≡ some (c, h'))
          × (c.rows ≡ m)
          × (c.cols ≡ n)
          × (load c h' ≡ some zs)
          × (length zs ≡ m * n)
    unfolding multiply load
    multiply_total ta tb m n k lda ldb pn fa fb =
        let (p, xs, ba, ca, la, ka) = oa in
        let (q, ys, bb, cb, lb, kb) = ob in
        let (zs, eq, l) =
          law.returns ta tb m n k scale xs lda ys ldb n (fa.0, fa.1, omega (arith, fa.2, la))
            (fb.0, fb.1, omega (arith, fb.2, lb)) pn refl in
        (
          (new_matrix m n zs h).0,
          (new_matrix m n zs h).1,
          zs,
          ground (arith, ba, ca, bb, cb, eq),
          unfold new_matrix in refl,
          unfold new_matrix in refl,
          new_matrix-load m n zs h free,
          l,
        )

    -- On operands that own arrays of their size and have columns, with a result that has columns, where the width of the first, as
    -- the product sees it, is the height of the second, `dot` hands BLAS arguments that it accepts,
    -- in all four cases of transposition, and returns a matrix of the height of the first operand and
    -- the width of the second, with an array of that size.
    pub dot_total :
        (t1 t2 : Bool)
        → width t1 a ≡ height t2 b
        → 0 < width t2 b
        → (c : Matrix) × (h' : Heap A) × (zs : List A) × (dot gemm a b t1 t2 scale h ≡ some (c, h'))
          × (c.rows ≡ height t1 a)
          × (c.cols ≡ width t2 b)
          × (load c h' ≡ some zs)
          × (length zs ≡ height t1 a * width t2 b)
    unfolding dot
    dot_total false false e pn =
        let (c, h', zs, eq, r1, r2, r3, r4) =
          multiply_total false false a.rows b.cols a.cols a.cols b.cols pn
            (pa, omega arith, omega arith) (pb, omega arith, ground arith) in
        (c, h', zs, ground (arith, eq), r1, r2, r3, r4)
    dot_total false true e pn =
        let (c, h', zs, eq, r1, r2, r3, r4) =
          multiply_total false true a.rows b.rows a.cols a.cols a.cols pn
            (pa, omega arith, omega arith) (pa, omega arith, ground arith) in
        (c, h', zs, ground (arith, eq), r1, r2, r3, r4)
    dot_total true false e pn =
        let (c, h', zs, eq, r1, r2, r3, r4) =
          multiply_total true false a.cols b.cols a.rows a.cols b.cols pn
            (pa, omega arith, omega arith) (pb, omega arith, ground arith) in
        (c, h', zs, ground (arith, eq), r1, r2, r3, r4)
    dot_total true true e pn =
        let (c, h', zs, eq, r1, r2, r3, r4) =
          multiply_total true true a.cols b.rows a.rows a.cols a.rows pn
            (pa, omega arith, omega arith) (omega arith, omega arith, ground arith) in
        (c, h', zs, ground (arith, eq), r1, r2, r3, r4)

  -- `dot` fails its assertion when the inner dimensions differ.
  pub dot_fault :
      (gemm : Gemm A) (a b : Matrix) (scale : A) (h : Heap A) (t1 t2 : Bool)
      → width t1 a ≢ height t2 b
      → dot gemm a b t1 t2 scale h ≡ none
  unfolding dot
  dot_fault gemm a b scale h false false e = ground arith
  dot_fault gemm a b scale h false true e = ground arith
  dot_fault gemm a b scale h true false e = ground arith
  dot_fault gemm a b scale h true true e = ground arith
