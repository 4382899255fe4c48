-- ===== src/Prelude/Map.antt =====
-- `std::map`: its entries in the order of their keys. Two keys are the same if neither is below
-- the other, as the container decides it.
use Prim.Native.Nat.{ℕ, suc, ◌<◌, ◌≤◌}
use mathlib.Core.Path.{◌≡◌, refl}
use mathlib.Core.Bool.{Bool, true, false, not, ◌&&◌}
use mathlib.Core.List.{List, [], ◌∷◌}
use mathlib.Core.Option.{Option, none, some}
use native.Mathlib.Omega.{arith}
use dorylus.Prelude.Tests.{if◌then◌else◌, ltb}

pub record Order {ℓ} (K : Type ℓ) : Type ℓ where
  pub lt : K → K → Bool
  pub lt_irrefl : (a : K) → lt a a ≡ false
  pub lt_trans : (a b c : K) → lt a b ≡ true → lt b c ≡ true → lt a c ≡ true
  pub lt_total : (a b : K) → lt a b ≡ false → lt b a ≡ false → a ≡ b

abbrev pub Map : Type 0 → Type 0 → Type 0
Map K V = List (K × V)

module _ {K : Type 0} ⦃o : Order K⦄ where
  abbrev pub same : K → K → Bool
  same a b = not (o.lt a b) && not (o.lt b a)

  pub same→eq : (a b : K) → same a b ≡ true → a ≡ b
  same→eq a b h = ground (arith, o.lt_total a b)

  pub same_refl : (a : K) → same a a ≡ true
  same_refl a = ground (arith, o.lt_irrefl a)

module _ {K V : Type 0} ⦃o : Order K⦄ where
  unfoldable pub find : K → Map K V → Option V
  find k [] = none
  find k ((j, v) ∷ m) = if same j k then some v else find k m

  -- `m[k] = v`.
  unfoldable pub insert : K → V → Map K V → Map K V
  insert k v [] = (k, v) ∷ []
  insert k v ((j, w) ∷ m) =
      if o.lt j k
      then (j, w) ∷ insert k v m
      else if o.lt k j
      then (k, v) ∷ (j, w) ∷ m
      else (k, v) ∷ m

  unfoldable pub erase : K → Map K V → Map K V
  erase k [] = []
  erase k ((j, w) ∷ m) = if same j k then erase k m else (j, w) ∷ erase k m

  unfoldable pub size : Map K V → ℕ
  size [] = 0
  size (e ∷ m) = suc (size m)

  -- The number of the entries whose value passes a test.
  unfoldable pub count : (V → Bool) → Map K V → ℕ
  count p [] = 0
  count p ((j, w) ∷ m) = if p w then suc (count p m) else count p m

  -- Every key of the map lies above the given one.
  abbrev pub IsAbove : K → Map K V → Type 0
  IsAbove k [] = Unit {0}
  IsAbove k ((j, w) ∷ m) = (o.lt k j ≡ true) × IsAbove k m

  abbrev pub IsSorted : Map K V → Type 0
  IsSorted [] = Unit {0}
  IsSorted ((j, w) ∷ m) = IsAbove j m × IsSorted m

  pub find-insert :
      (k j : K) (v : V) (m : Map K V)
      → find j (insert k v m) ≡ (if same k j then some v else find j m)
  unfolding find insert
  find-insert k j v [] = refl
  find-insert k j v ((i, w) ∷ m) =
      ground
        (arith, o.lt_total k i, o.lt_total k j, o.lt_total i j, o.lt_irrefl k, find-insert k j v m)

  pub find-erase :
      (k j : K) (m : Map K V) → find j (erase k m) ≡ (if same k j then none else find j m)
  unfolding find erase
  find-erase k j [] = ground arith
  find-erase k j ((i, w) ∷ m) =
      ground
        (arith, o.lt_total k i, o.lt_total k j, o.lt_total i j, o.lt_irrefl k, find-erase k j m)

  IsAbove-trans : (i j : K) (m : Map K V) → o.lt i j ≡ true → IsAbove j m → IsAbove i m
  IsAbove-trans i j [] h a = tt
  IsAbove-trans i j ((k, w) ∷ m) h a = (o.lt_trans i j k h a.0, IsAbove-trans i j m h a.1)

  IsAbove-insert :
      (i k : K) (v : V) (m : Map K V) → o.lt i k ≡ true → IsAbove i m → IsAbove i (insert k v m)
  unfolding insert
  IsAbove-insert i k v [] h a = (h, tt)
  IsAbove-insert i k v ((j, w) ∷ m) h a = ground (arith, IsAbove-insert i k v m h a.1)

  IsAbove-erase : (i k : K) (m : Map K V) → IsAbove i m → IsAbove i (erase k m)
  unfolding erase
  IsAbove-erase i k [] a = tt
  IsAbove-erase i k ((j, w) ∷ m) a = ground (arith, IsAbove-erase i k m a.1)

  pub insert-IsSorted : (k : K) (v : V) (m : Map K V) → IsSorted m → IsSorted (insert k v m)
  unfolding insert
  insert-IsSorted k v [] s = (tt, tt)
  insert-IsSorted k v ((j, w) ∷ m) s = ground (
    arith,
    insert-IsSorted k v m s.1,
    IsAbove-insert j k v m,
    IsAbove-trans k j m,
    o.lt_total k j,
    s.0,
  )

  pub erase-IsSorted : (k : K) (m : Map K V) → IsSorted m → IsSorted (erase k m)
  unfolding erase
  erase-IsSorted k [] s = tt
  erase-IsSorted k ((j, w) ∷ m) s = ground (arith, erase-IsSorted k m s.1, IsAbove-erase j k m s.0)

  pub IsAbove-find : (k : K) (m : Map K V) → IsAbove k m → find k m ≡ none
  unfolding find
  IsAbove-find k [] a = refl
  IsAbove-find k ((j, w) ∷ m) a = ground (arith, IsAbove-find k m a.1)

  -- A new key adds one entry.
  pub size-insert_new :
      (k : K) (v : V) (m : Map K V) → find k m ≡ none → size (insert k v m) ≡ suc (size m)
  unfolding find insert size
  size-insert_new k v [] e = refl
  size-insert_new k v ((j, w) ∷ m) e = ground (arith, size-insert_new k v m)

  -- A key that is there gets a new value.
  pub size-insert_old :
      (k : K) (v w : V) (m : Map K V)
      → IsSorted m
      → find k m ≡ some v
      → size (insert k w m) ≡ size m
  unfolding find insert size
  size-insert_old k v w [] s e = cc
  size-insert_old k v w ((j, u) ∷ m) s e =
      ground (arith, size-insert_old k v w m s.1, IsAbove-find k m, IsAbove-trans k j m, s.0)

  pub size-erase-le : (k : K) (m : Map K V) → size (erase k m) ≤ size m
  unfolding size erase
  size-erase-le k [] = omega arith
  size-erase-le k ((j, w) ∷ m) = ground (arith, size-erase-le k m)

  pub count-insert_new :
      (p : V → Bool) (k : K) (v : V) (m : Map K V)
      → find k m ≡ none
      → count p (insert k v m) ≡ (if p v then suc (count p m) else count p m)
  unfolding find insert count
  count-insert_new p k v [] e = refl
  count-insert_new p k v ((j, w) ∷ m) e = ground (arith, count-insert_new p k v m)

  erase-none : (k : K) (m : Map K V) → find k m ≡ none → erase k m ≡ m
  unfolding find erase
  erase-none k [] e = refl
  erase-none k ((j, w) ∷ m) e = ground (arith, erase-none k m)

  pub count-erase :
      (p : V → Bool) (k : K) (v : V) (m : Map K V)
      → IsSorted m
      → find k m ≡ some v
      → count p m ≡ (if p v then suc (count p (erase k m)) else count p (erase k m))
  unfolding find erase count
  count-erase p k v [] s e = cc
  count-erase p k v ((j, w) ∷ m) s e =
      ground (arith, count-erase p k v m s.1, erase-none k m, IsAbove-find j m s.0, o.lt_total j k)

  -- An entry that passes the test is counted.
  pub count_pos :
      (p : V → Bool) (k : K) (v : V) (m : Map K V) → find k m ≡ some v → p v ≡ true → 0 < count p m
  unfolding find count
  count_pos p k v [] e h = cc
  count_pos p k v ((j, w) ∷ m) e h = ground (arith, count_pos p k v m)

  pub count-le-size : (p : V → Bool) (m : Map K V) → count p m ≤ size m
  unfolding count size
  count-le-size p [] = omega arith
  count-le-size p ((j, w) ∷ m) = ground (arith, count-le-size p m)

  -- If no entry passes the test, none is counted.
  pub count_zero :
      (p : V → Bool) (m : Map K V)
      → IsSorted m
      → ((k : K) (v : V) → find k m ≡ some v → p v ≡ false)
      → count p m ≡ 0
  unfolding find count
  count_zero p [] s none_pass = refl
  count_zero p ((j, w) ∷ m) s none_pass =
      ground (arith, none_pass j w, same_refl j, count_zero p m s.1 later)
    where
      later : (k : K) (v : V) → find k m ≡ some v → p v ≡ false
      later k v e = ground (arith, none_pass k v, same→eq j k, IsAbove-find j m s.0)

-- `unsigned` keys.
pub ltb_trans : (a b c : ℕ) → ltb a b ≡ true → ltb b c ≡ true → ltb a c ≡ true
ltb_trans a b c h k = ground arith

pub ltb_total : (a b : ℕ) → ltb a b ≡ false → ltb b a ≡ false → a ≡ b
ltb_total a b h k = ground arith

pub ltb_irrefl : (a : ℕ) → ltb a a ≡ false
ltb_irrefl a = ground arith

instance abbrev pub nat_order : Order ℕ
nat_order = record { lt = ltb; lt_irrefl = ltb_irrefl; lt_trans = ltb_trans; lt_total = ltb_total }

-- `m[k]`, which puts a 0 under a key that is not there.
unfoldable pub index_map : ℕ → Map ℕ ℕ → ℕ × Map ℕ ℕ
index_map k m = elim (find k m) [ none ↦ (0, insert k 0 m) | some v ↦ (v, m) ]

pub index_map-found : (k v : ℕ) (m : Map ℕ ℕ) → find k m ≡ some v → index_map k m ≡ (v, m)
unfolding index_map
index_map-found k v m e = rw (e, index_map) refl
