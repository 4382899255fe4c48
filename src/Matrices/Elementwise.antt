-- ===== src/Matrices/Elementwise.antt =====
-- The operators on each element: what they compute, and what they leave alone.
use dorylus.Prelude.{
  ℕ, zero, suc, ◌≡◌, ◌≢◌, refl, ap, List, [], ◌∷◌, none, some, map, arith, length, ◌↔◌, ◌⊎◌, inl,
  inr, Option-cases,
}
use dorylus.Weights.Heap.{Heap, Matrix, num_elemts, alloc, load, store, update}
use dorylus.Weights.Tidy.{Owns}
use dorylus.Weights.Arrays.{zip_with, update_n-eq-zip_with}
use dorylus.Matrices.Defs.{
  map_n, map_in_place_n, zip_n, new_matrix, map_new, map_assign, zip_new, zip_assign,
}

module _ {A : Type 0} where
  map_n-eq : (f : A → A) (n : ℕ) (xs : List A) → length xs ≡ n → map_n f n xs ≡ some (map f xs)
  unfolding map_n
  map_n-eq f zero [] l = refl
  map_n-eq f (suc n) (x ∷ xs) l = ground (arith, map_n-eq f n xs)
  map_n-eq f _ _ l = ground arith

  map_in_place_n-eq :
      (f : A → A) (n : ℕ) (xs : List A) → length xs ≡ n → map_in_place_n f n xs ≡ some (map f xs)
  unfolding map_in_place_n
  map_in_place_n-eq f zero [] l = refl
  map_in_place_n-eq f (suc n) (x ∷ xs) l = ground (arith, map_in_place_n-eq f n xs)
  map_in_place_n-eq f _ _ l = ground arith

  zip_n-eq :
      (f : A → A → A) (n : ℕ) (xs ys : List A)
      → length xs ≡ n
      → length ys ≡ n
      → zip_n f n xs ys ≡ some (zip_with f xs ys)
  unfolding zip_n
  zip_n-eq f zero [] [] l k = refl
  zip_n-eq f (suc n) (x ∷ xs) (y ∷ ys) l k = ground (arith, zip_n-eq f n xs ys)
  zip_n-eq f _ _ _ l k = ground arith

  length-map : (f : A → A) (xs : List A) → length (map f xs) ≡ length xs
  length-map f [] = refl
  length-map f (x ∷ xs) = ap suc (length-map f xs)

  -- An array that is there stays as it is while a new one is made.
  pub new_matrix-load :
      (rows cols : ℕ) (ys : List A) (h : Heap A)
      → h.cell h.next ≡ none
      → load (new_matrix rows cols ys h).0 (new_matrix rows cols ys h).1 ≡ some ys
  unfolding new_matrix alloc load
  new_matrix-load rows cols ys h free = ground arith

  new_matrix-keeps :
      (rows cols : ℕ) (xs ys : List A) (m : Matrix) (h : Heap A)
      → h.cell h.next ≡ none
      → load m h ≡ some xs
      → load m (new_matrix rows cols ys h).1 ≡ some xs
  unfolding new_matrix alloc load
  new_matrix-keeps rows cols xs ys m h free l = elim (Option-cases m.buf) [
    | inl e ↦ ground (arith, l, e)
    | inr (p, e) ↦ ground (arith, l, e, free)
  ]

  pub owned-load :
      (n : ℕ) (m : Matrix) (h : Heap A)
      → Owns n m h
      → (xs : List A) × (load m h ≡ some xs) × (length xs ≡ n) × (num_elemts m ≡ n)
  unfolding load
  owned-load n m h (p, xs, b, c, l, k) = (xs, ground (arith, b, c), l, k)

  owned-store :
      (n : ℕ) (m : Matrix) (ys : List A) (h : Heap A)
      → Owns n m h
      → (h' : Heap A) × (store m ys h ≡ some h') × (load m h' ≡ some ys)
  unfolding load store
  owned-store n m ys h (p, xs, b, c, l, k) =
      (record h { cell = update h.cell p (some ys) }, ground (arith, b, c), ground (arith, b))

  -- On a matrix that owns its array, an operator with a number and its assigning form return, and
  -- compute the same elements, the function of each element; the first leaves the matrix as it was,
  -- the second stores them in it.
  pub map_new-map_assign :
      (f : A → A) (n : ℕ) (m : Matrix) (h : Heap A)
      → Owns n m h
      → h.cell h.next ≡ none
      → (xs : List A) × (m' : Matrix) × (h1 : Heap A) × (h2 : Heap A) × (load m h ≡ some xs)
        × (map_new f m h ≡ some (m', h1))
        × (map_assign f m h ≡ some h2)
        × (load m' h1 ≡ some (map f xs))
        × (load m h1 ≡ some xs)
        × (load m h2 ≡ some (map f xs))
        × (m'.rows ≡ m.rows)
        × (m'.cols ≡ m.cols)
  unfolding map_new map_assign
  map_new-map_assign f n m h own free =
      let (xs, ld, l, k) = owned-load n m h own in
      let (h2, st, ld2) = owned-store n m (map f xs) h own in
      (
        xs,
        (new_matrix m.rows m.cols (map f xs) h).0,
        (new_matrix m.rows m.cols (map f xs) h).1,
        h2,
        ld,
        ground (arith, ld, k, map_n-eq f n xs l),
        ground (arith, ld, k, map_in_place_n-eq f n xs l, st),
        new_matrix-load m.rows m.cols (map f xs) h free,
        new_matrix-keeps m.rows m.cols xs (map f xs) m h free ld,
        ld2,
        unfold new_matrix in refl,
        unfold new_matrix in refl,
      )

  -- On two matrices of one shape that own their arrays, or share one, an operator on matrices and
  -- its assigning form return, and compute the same elements, the function of the two elements at
  -- each place; the first leaves both operands as they were, the second stores them in the left one.
  pub zip_new-zip_assign :
      (f : A → A → A) (n : ℕ) (a b : Matrix) (h : Heap A)
      → Owns n a h
      → Owns n b h
      → a.rows ≡ b.rows
      → a.cols ≡ b.cols
      → h.cell h.next ≡ none
      → (xs : List A) × (ys : List A) × (m' : Matrix) × (h1 : Heap A) × (h2 : Heap A) × (load a h
          ≡ some xs)
        × (load b h ≡ some ys)
        × (zip_new f a b h ≡ some (m', h1))
        × (zip_assign f a b h ≡ some h2)
        × (load m' h1 ≡ some (zip_with f xs ys))
        × (load a h1 ≡ some xs)
        × (load b h1 ≡ some ys)
        × (load a h2 ≡ some (zip_with f xs ys))
        × (num_elemts m' ≡ n)
  unfolding zip_new zip_assign
  zip_new-zip_assign f n a b h oa ob r c free =
      let (xs, la, l, k) = owned-load n a h oa in
      let (ys, lb, l', k') = owned-load n b h ob in
      let zs = zip_with f xs ys in
      let (h2, st, ld2) = owned-store n a zs h oa in
      (
        xs,
        ys,
        (new_matrix a.rows a.cols zs h).0,
        (new_matrix a.rows a.cols zs h).1,
        h2,
        la,
        lb,
        ground (arith, la, lb, k, zip_n-eq f n xs ys l l', r, c),
        ground (arith, la, lb, k, update_n-eq-zip_with f n xs ys l l', st, r, c),
        new_matrix-load a.rows a.cols zs h free,
        new_matrix-keeps a.rows a.cols xs zs a h free la,
        new_matrix-keeps a.rows a.cols ys zs b h free lb,
        ld2,
        unfold new_matrix num_elemts in k,
      )

  -- On two matrices that own their arrays, an operator on matrices fails its assertions exactly when
  -- the shapes differ, and so does its assigning form.
  pub zip_fault_iff :
      (f : A → A → A) (n n' : ℕ) (a b : Matrix) (h : Heap A)
      → Owns n a h
      → Owns n' b h
      → ((zip_new f a b h ≡ none) ↔ ((a.rows ≢ b.rows) ⊎ (a.cols ≢ b.cols)))
        × ((zip_assign f a b h ≡ none) ↔ ((a.rows ≢ b.rows) ⊎ (a.cols ≢ b.cols)))
  unfolding zip_new zip_assign num_elemts
  zip_fault_iff f n n' a b h oa ob =
      let (xs, la, l, k) = owned-load n a h oa in
      let (ys, lb, l', k') = owned-load n' b h ob in
      let (h2, st, ld2) = owned-store n a (zip_with f xs ys) h oa in
      (
        ground (arith, la, lb, k, k', l, l', zip_n-eq f n xs ys),
        ground (arith, la, lb, k, k', l, l', update_n-eq-zip_with f n xs ys, st),
      )
