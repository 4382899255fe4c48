-- ===== src/Chunk/Order.antt =====
-- `operator<` of `Chunk` is a strict total order: what a `std::map` and a priority queue want.
use dorylus.Prelude.{
  ℕ, ◌≡◌, ◌⊎◌, refl, ◌∙◌, Bool, true, false, not, ◌&&◌, ◌||◌, ltb, ◌==◌, if◌then◌else◌, List, [],
  ◌∷◌, arith,
}
use dorylus.Prelude.Map.{Order}
use dorylus.Chunk.Defs.{Chunk, chunk_lt, is_forward}

-- Comparison by a list of keys, each ascending or (`true`) descending.
lex : List Bool → List ℕ → List ℕ → Bool
lex (true ∷ ts) (x ∷ xs) (y ∷ ys) = ltb y x || ((x == y) && lex ts xs ys)
lex (false ∷ ts) (x ∷ xs) (y ∷ ys) = ltb x y || ((x == y) && lex ts xs ys)
lex _ _ _ = false

abbrev Fits : List Bool → List ℕ → Type 0
Fits [] [] = Unit {0}
Fits (t ∷ ts) (x ∷ xs) = Fits ts xs
Fits _ _ = ⊥

lex_irrefl : (ts : List Bool) (xs : List ℕ) → lex ts xs xs ≡ false
unfolding lex
lex_irrefl [] xs = refl
lex_irrefl (true ∷ ts) [] = refl
lex_irrefl (false ∷ ts) [] = refl
lex_irrefl (true ∷ ts) (x ∷ xs) = ground (arith, lex_irrefl ts xs)
lex_irrefl (false ∷ ts) (x ∷ xs) = ground (arith, lex_irrefl ts xs)

lex_trans :
    (ts : List Bool) (xs ys zs : List ℕ)
    → lex ts xs ys ≡ true
    → lex ts ys zs ≡ true
    → lex ts xs zs ≡ true
unfolding lex
lex_trans (true ∷ ts) (x ∷ xs) (y ∷ ys) (z ∷ zs) h k = ground (arith, lex_trans ts xs ys zs)
lex_trans (false ∷ ts) (x ∷ xs) (y ∷ ys) (z ∷ zs) h k = ground (arith, lex_trans ts xs ys zs)
lex_trans _ _ _ _ h k = cc

lex_total :
    (ts : List Bool) (xs ys : List ℕ)
    → Fits ts xs
    → Fits ts ys
    → lex ts xs ys ≡ false
    → lex ts ys xs ≡ false
    → xs ≡ ys
unfolding lex
lex_total [] [] [] f g h k = refl
lex_total (true ∷ ts) (x ∷ xs) (y ∷ ys) f g h k = ground (arith, lex_total ts xs ys f g)
lex_total (false ∷ ts) (x ∷ xs) (y ∷ ys) f g h k = ground (arith, lex_total ts xs ys f g)
lex_total _ _ _ f g h k = ground arith

-- The layer and the flag count in the direction of the pass.
only : Bool → ℕ → ℕ
only b n = if b then n else 0

flag : Bool → ℕ
flag b = if b then 1 else 0

tags : List Bool
tags = true ∷ true ∷ true ∷ false ∷ false ∷ true ∷ true ∷ true ∷ true ∷ true ∷ []

keys : Chunk → List ℕ
unfolding only flag
keys c =
    c.epoch
    ∷ flag (not (is_forward c.dir))
    ∷ only (is_forward c.dir) c.layer
    ∷ only (not (is_forward c.dir)) c.layer
    ∷ only (is_forward c.dir) (flag c.vertex)
    ∷ only (not (is_forward c.dir)) (flag c.vertex)
    ∷ c.local_id
    ∷ c.global_id
    ∷ c.low_bound
    ∷ c.up_bound
    ∷ []

chunk_lt-lex : (a b : Chunk) → chunk_lt a b ≡ lex tags (keys a) (keys b)
unfolding chunk_lt lex tags keys
chunk_lt-lex a b = ground arith

keys_injective : (a b : Chunk) → keys a ≡ keys b → a ≡ b
unfolding keys
keys_injective a b h = ground arith

-- The order is transitive.
pub chunk_lt_trans :
    (a b c : Chunk) → chunk_lt a b ≡ true → chunk_lt b c ≡ true → chunk_lt a c ≡ true
chunk_lt_trans a b c h k = rw (chunk_lt-lex a c) (
    lex_trans tags (keys a) (keys b) (keys c) (rw (chunk_lt-lex a b) at h)
      (rw (chunk_lt-lex b c) at k))

pub chunk_lt_irrefl : (a : Chunk) → chunk_lt a a ≡ false
chunk_lt_irrefl a = chunk_lt-lex a a ∙ lex_irrefl tags (keys a)

keys-Fits : (a : Chunk) → Fits tags (keys a)
unfolding tags keys
keys-Fits a = tt

pub chunk_lt_total : (a b : Chunk) → chunk_lt a b ≡ false → chunk_lt b a ≡ false → a ≡ b
chunk_lt_total a b h k = keys_injective a b (
    lex_total tags (keys a) (keys b) (keys-Fits a) (keys-Fits b) (rw (chunk_lt-lex a b) at h)
      (rw (chunk_lt-lex b a) at k))

-- Of two chunks exactly one lies below the other, or they are one chunk.
pub chunk_lt_trichotomy :
    (a b : Chunk)
    → ((chunk_lt a b ≡ true) × (chunk_lt b a ≡ false))
      ⊎ (((chunk_lt a b ≡ false) × (chunk_lt b a ≡ true))
          ⊎ ((chunk_lt a b ≡ false) × (chunk_lt b a ≡ false) × (a ≡ b)))
chunk_lt_trichotomy a b =
    ground (arith, chunk_lt_trans a b a, chunk_lt_irrefl a, chunk_lt_total a b)

instance abbrev pub chunk_order : Order Chunk
chunk_order = record {
  lt = chunk_lt;
  lt_irrefl = chunk_lt_irrefl;
  lt_trans = chunk_lt_trans;
  lt_total = chunk_lt_total;
}
