-- ===== src/Weights/Tidy.antt =====
-- A family of matrices that own their buffers: each matrix has an array of its own, and what the
-- heap has not handed out yet is empty.
use dorylus.Prelude.{
  ℕ, ◌≤◌, ◌≡◌, ◌≢◌, ◌⊎◌, inl, inr, List, Option, none, some, arith, length, ◌==◌, if◌then◌else◌,
}
use dorylus.Weights.Heap.{Heap, Matrix, num_elemts, update, alloc, load, store, free}

-- The matrix has an array of its size.
abbrev pub Owns : {A : Type 0} → ℕ → Matrix → Heap A → Type 0
Owns {A} n m h =
    (p : ℕ) × (xs : List A) × (m.buf ≡ some p)
    × (h.cell p ≡ some xs)
    × (length xs ≡ n)
    × (num_elemts m ≡ n)

pub record Tidy {A S : Type 0} (place : S → Option Matrix) (n : ℕ) (h : Heap A) : Type 0 where
  pub owned : (s : S) (m : Matrix) → place s ≡ some m → Owns n m h
  pub apart :
      (s s' : S) (m m' : Matrix) (p : ℕ)
      → place s ≡ some m
      → place s' ≡ some m'
      → m.buf ≡ some p
      → m'.buf ≡ some p
      → s ≡ s'
  pub fresh : (p : ℕ) → h.next ≤ p → h.cell p ≡ none

module _ {A S : Type 0} (place : S → Option Matrix) (n : ℕ) (h : Heap A)
    (tidy : Tidy place n h) where
  pub load-Tidy :
      (s : S) (m : Matrix)
      → place s ≡ some m
      → (xs : List A) × (load m h ≡ some xs) × (length xs ≡ n)
  unfolding load
  load-Tidy s m e = let (p, xs, b, c, l, k) = tidy.owned s m e in (xs, rw b c, l)

  -- A store writes its matrix and no other.
  pub store-Tidy :
      (s : S) (m : Matrix) (xs : List A)
      → place s ≡ some m
      → length xs ≡ n
      → (h' : Heap A) × (store m xs h ≡ some h')
        × Tidy place n h'
        × (load m h' ≡ some xs)
        × ((s' : S) (m' : Matrix) → place s' ≡ some m' → s' ≢ s → load m' h' ≡ load m' h)
  unfolding store load
  store-Tidy s m xs e l =
      let (p, old, b, c, l', k) = tidy.owned s m e in
      let h' : Heap A = record h { cell = update h.cell p (some xs) } in
      (
        h',
        ground arith,
        record {
          owned = λ s' m' e'.
              let (q, ys, b', c', l'', k') = tidy.owned s' m' e' in
              (q, if p == q then xs else ys, b', ground arith, ground arith, k');
          apart = tidy.apart;
          fresh = λ q le. ground (arith, tidy.fresh q, tidy.fresh p);
        },
        ground arith,
        λ s' m' e' ne.
            let (q, ys, b', c', l'', k') = tidy.owned s' m' e' in
            ground (arith, ne, tidy.apart s' s m' m p e' e),
      )

module _ {A S : Type 0} (place : S → Option Matrix) (n : ℕ) (h : Heap A) (tidy : Tidy place n h)
    (place' : S → Option Matrix) where
  -- The matrices under other names, each under one.
  pub rename-Tidy :
      (was : S → S)
      → ((s : S) (m : Matrix) → place' s ≡ some m → place (was s) ≡ some m)
      → ((s s' : S) (m m' : Matrix)
          → place' s ≡ some m
          → place' s' ≡ some m'
          → was s ≡ was s'
          → s ≡ s')
      → Tidy place' n h
  rename-Tidy was same_mat inj = record {
    owned = λ s m e. tidy.owned (was s) m (same_mat s m e);
    apart = λ s s' m m' p e e' b b'.
        inj s s' m m' e e'
          (tidy.apart (was s) (was s') m m' p (same_mat s m e) (same_mat s' m' e') b b');
    fresh = tidy.fresh;
  }

  -- A matrix that leaves the family is freed.
  pub free-Tidy :
      (s : S) (m : Matrix)
      → place s ≡ some m
      → ((s' : S) (m' : Matrix) → place' s' ≡ some m' → (place s' ≡ some m') × (s' ≢ s))
      → (h' : Heap A) × (free m h ≡ some h')
        × Tidy place' n h'
        × ((s' : S) (m' : Matrix) → place' s' ≡ some m' → load m' h' ≡ load m' h)
  unfolding free load
  free-Tidy s m e rest =
      let (p, old, b, c, l', k) = tidy.owned s m e in
      let h' : Heap A = record h { cell = update h.cell p none } in
      (
        h',
        ground arith,
        record {
          owned = λ s' m' e'.
              let (q, ys, b', c', l'', k') = tidy.owned s' m' (rest s' m' e').0 in
              (
                q,
                ys,
                b',
                ground (arith, rest s' m' e', tidy.apart s' s m' m p (rest s' m' e').0 e),
                l'',
                k',
              );
          apart =
              λ s1 s2 m1 m2 q e1 e2. tidy.apart s1 s2 m1 m2 q (rest s1 m1 e1).0 (rest s2 m2 e2).0;
          fresh = λ q le. ground (arith, tidy.fresh q, tidy.fresh p);
        },
        λ s' m' e'.
            let (q, ys, b', c', l'', k') = tidy.owned s' m' (rest s' m' e').0 in
            ground (arith, rest s' m' e', tidy.apart s' s m' m p (rest s' m' e').0 e),
      )

  -- A matrix that joins the family gets a new array.
  pub alloc-Tidy :
      (s : S) (m : Matrix) (xs : List A)
      → length xs ≡ n
      → num_elemts m ≡ n
      → m.buf ≡ some h.next
      → ((s' : S) (m' : Matrix)
          → place' s' ≡ some m'
          → ((s' ≡ s) × (m' ≡ m)) ⊎ (place s' ≡ some m'))
      → Tidy place' n (alloc xs h).1
        × (load m (alloc xs h).1 ≡ some xs)
        × ((s' : S) (m' : Matrix) → place s' ≡ some m' → load m' (alloc xs h).1 ≡ load m' h)
  unfolding alloc load num_elemts
  alloc-Tidy s m xs l k b rest = (
    record {
      owned = λ s' m' e'. elim (rest s' m' e') [
        | inl (_, em) ↦ (h.next, xs, ground arith, ground arith, l, ground arith)
        | inr old ↦
            let (q, ys, b', c', l'', k') = tidy.owned s' m' old in
            (q, ys, b', ground (arith, tidy.fresh h.next), l'', k')
      ];
      apart = λ s1 s2 m1 m2 q e1 e2 b1 b2. ground (
        arith,
        rest s1 m1 e1,
        rest s2 m2 e2,
        old_buf s1 m1,
        old_buf s2 m2,
        tidy.apart s1 s2 m1 m2 q,
      );
      fresh = λ q le. ground (arith, tidy.fresh q);
    },
    ground arith,
    λ s' m' e'. ground (arith, old_buf s' m' e'),
  )
    where
      old_buf : (s' : S) (m' : Matrix) → place s' ≡ some m' → m'.buf ≢ some h.next
      old_buf s' m' e' b' =
          let (q, ys, b'', c', l'', k') = tidy.owned s' m' e' in ground (arith, tidy.fresh h.next)
