-- ===== src/NodeManager/Slots.antt =====
-- Lists of counts that stay below a bound.
use dorylus.Prelude.{
  ℕ, zero, suc, ◌+◌, ◌<◌, ◌≡◌, refl, List, [], ◌∷◌, some, arith, get_elem?, set, length,
}

abbrev pub AllBelow : ℕ → List ℕ → Type 0
AllBelow n [] = Unit {0}
AllBelow n (x ∷ xs) = (x < n) × AllBelow n xs

pub AllBelow-set : (n : ℕ) (xs : List ℕ) (i x : ℕ) → AllBelow n xs → x < n → AllBelow n (set xs i x)
AllBelow-set n [] i x a h = a
AllBelow-set n (y ∷ ys) zero x a h = (h, a.1)
AllBelow-set n (y ∷ ys) (suc i) x a h = (a.0, AllBelow-set n ys i x a.1 h)

pub get_elem?-AllBelow :
    (n : ℕ) (xs : List ℕ) (i : ℕ) {x : ℕ} → AllBelow n xs → get_elem? xs i ≡ some x → x < n
get_elem?-AllBelow n [] i a e = cc
get_elem?-AllBelow n (y ∷ ys) zero {x} a e = ground (arith, a.0)
get_elem?-AllBelow n (y ∷ ys) (suc i) a e = get_elem?-AllBelow n ys i a.1 e

pub get_elem?_total : (xs : List ℕ) (i : ℕ) → i < length xs → (x : ℕ) × (get_elem? xs i ≡ some x)
get_elem?_total [] i h = absurd (omega arith)
get_elem?_total (x ∷ xs) zero h = (x, refl)
get_elem?_total (x ∷ xs) (suc i) h = get_elem?_total xs i (omega arith)

abbrev pub sum_list : List ℕ → ℕ
sum_list [] = 0
sum_list (x ∷ xs) = x + sum_list xs

pub sum_list-set :
    (xs : List ℕ) (i : ℕ) {x : ℕ} (y : ℕ)
    → get_elem? xs i ≡ some x
    → sum_list (set xs i y) + x ≡ sum_list xs + y
sum_list-set [] i y e = cc
sum_list-set (z ∷ zs) zero y e = ground arith
sum_list-set (z ∷ zs) (suc i) y e = omega (arith, sum_list-set zs i y e)
