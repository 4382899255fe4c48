-- ===== src/Weights/Tensor/New.antt =====
-- The constructor of `WeightTensor`.
use dorylus.Prelude.{ℕ, ◌+◌, ◌≤◌, ◌≡◌, refl, Bool, none, some, arith, replicate, length-replicate}
use dorylus.Prelude.Map.{find, nat_order, count}
use dorylus.Chunk.{chunk_order}
use dorylus.Weights.Float.{Float}
use dorylus.Weights.Heap.{Heap, Matrix, num_elemts, alloc}
use dorylus.Weights.Versions.{mat_of}
use dorylus.Weights.Versions.Refs.{IsConsistent}
use dorylus.Weights.Tidy.{Owns}
use dorylus.Weights.Tensor.Defs.{WeightTensor, new_tensor}
use dorylus.Weights.Tensor.Valid.{Slot, version, local_slot, ghost_slot, place, IsValid}

module _ {A : Type 0} ⦃f : Float A⦄ (mat : Matrix) (sync : Bool) (h : Heap A)
    (own : Owns (num_elemts mat) mat h) (fresh : (p : ℕ) → h.next ≤ p → h.cell p ≡ none) where
  abbrev made : WeightTensor
  made = (new_tensor mat sync h).0

  abbrev heap : Heap A
  heap = (new_tensor mat sync h).1

  made-IsConsistent : IsConsistent made.versions
  unfolding new_tensor find count
  made-IsConsistent = record {
    sorted = tt;
    sorted_vers = (tt, tt);
    current = ground arith;
    bounded = λ v r e. ground arith;
    counted = λ v r e. ground arith;
    held = λ c v e. ground arith;
    used = λ v r e lt. ground arith;
  }

  abbrev size_of : ℕ
  size_of = num_elemts mat

  made-Owns : (s : Slot) (m : Matrix) → place made s ≡ some m → Owns (num_elemts mat) m heap
  unfolding new_tensor alloc num_elemts mat_of find
  made-Owns (version v) m e =
      let (p, xs, b, c, l, k) = own in
      (p, xs, ground arith, ground (arith, fresh p), l, ground arith)
  made-Owns local_slot m e = (
    h.next,
    replicate size_of f.zero,
    ground arith,
    ground arith,
    length-replicate size_of f.zero,
    ground arith,
  )
  made-Owns ghost_slot m e = (
    h.next + 1,
    replicate size_of f.zero,
    ground arith,
    ground arith,
    length-replicate size_of f.zero,
    ground arith,
  )

  made-apart :
      (s s' : Slot) (m m' : Matrix) (p : ℕ)
      → place made s ≡ some m
      → place made s' ≡ some m'
      → m.buf ≡ some p
      → m'.buf ≡ some p
      → s ≡ s'
  unfolding new_tensor alloc mat_of find
  made-apart (version v) (version v') m m' p e e' b b' =
      let (q, xs, c, d, l, k) = own in ground (arith, fresh q)
  made-apart (version v) local_slot m m' p e e' b b' =
      let (q, xs, c, d, l, k) = own in ground (arith, fresh q)
  made-apart (version v) ghost_slot m m' p e e' b b' =
      let (q, xs, c, d, l, k) = own in ground (arith, fresh q)
  made-apart local_slot (version v) m m' p e e' b b' =
      let (q, xs, c, d, l, k) = own in ground (arith, fresh q)
  made-apart local_slot local_slot m m' p e e' b b' = refl
  made-apart local_slot ghost_slot m m' p e e' b b' = ground arith
  made-apart ghost_slot (version v) m m' p e e' b b' =
      let (q, xs, c, d, l, k) = own in ground (arith, fresh q)
  made-apart ghost_slot local_slot m m' p e e' b b' = ground arith
  made-apart ghost_slot ghost_slot m m' p e e' b b' = refl

  -- A fresh tensor is valid.
  pub new_tensor-IsValid : IsValid (new_tensor mat sync h).0 (new_tensor mat sync h).1
  unfolding new_tensor
  new_tensor-IsValid = record {
    table = made-IsConsistent;
    tidy = record {
      owned = made-Owns;
      apart = made-apart;
      fresh = λ p le. unfold new_tensor alloc in ground (arith, fresh p);
    };
  }
