-- ===== src/Weights/Arrays.antt =====
-- The loops over arrays, on arrays that are long enough: no fault, and what they compute.
use dorylus.Prelude.{ℕ, zero, suc, ◌≡◌, refl, ap, List, [], ◌∷◌, some, arith, length, replicate}
use dorylus.Weights.Heap.{copy_n, update_n, fill_n}

module _ {A B : Type 0} where
  abbrev pub zip_with : (A → B → A) → List A → List B → List A
  zip_with f (x ∷ xs) (y ∷ ys) = f x y ∷ zip_with f xs ys
  zip_with f [] ys = []
  zip_with f (x ∷ xs) [] = []

  pub length-zip_with :
      (f : A → B → A) (n : ℕ) (xs : List A) (ys : List B)
      → length xs ≡ n
      → length ys ≡ n
      → length (zip_with f xs ys) ≡ n
  length-zip_with f n [] ys h k = h
  length-zip_with f n (x ∷ xs) [] h k = absurd (omega arith)
  length-zip_with f zero (x ∷ xs) (y ∷ ys) h k = absurd (omega arith)
  length-zip_with f (suc n) (x ∷ xs) (y ∷ ys) h k =
      ap suc (length-zip_with f n xs ys (omega arith) (omega arith))

  pub update_n-eq-zip_with :
      (f : A → B → A) (n : ℕ) (xs : List A) (ys : List B)
      → length xs ≡ n
      → length ys ≡ n
      → update_n f n xs ys ≡ some (zip_with f xs ys)
  unfolding update_n
  update_n-eq-zip_with f zero [] ys h k = refl
  update_n-eq-zip_with f zero (x ∷ xs) ys h k = absurd (omega arith)
  update_n-eq-zip_with f (suc n) [] ys h k = absurd (omega arith)
  update_n-eq-zip_with f (suc n) (x ∷ xs) [] h k = absurd (omega arith)
  update_n-eq-zip_with f (suc n) (x ∷ xs) (y ∷ ys) h k =
      rw (update_n-eq-zip_with f n xs ys (omega arith) (omega arith))

module _ {A : Type 0} where
  pub copy_n-eq : (n : ℕ) (xs : List A) → length xs ≡ n → copy_n n xs ≡ some xs
  unfolding copy_n
  copy_n-eq zero [] h = refl
  copy_n-eq zero (x ∷ xs) h = absurd (omega arith)
  copy_n-eq (suc n) [] h = absurd (omega arith)
  copy_n-eq (suc n) (x ∷ xs) h = rw (copy_n-eq n xs (omega arith))

  pub fill_n-eq :
      (n : ℕ) (a : A) (xs : List A) → length xs ≡ n → fill_n n a xs ≡ some (replicate n a)
  unfolding fill_n
  fill_n-eq zero a [] h = refl
  fill_n-eq zero a (x ∷ xs) h = absurd (omega arith)
  fill_n-eq (suc n) a [] h = absurd (omega arith)
  fill_n-eq (suc n) a (x ∷ xs) h = rw (fill_n-eq n a xs (omega arith))
