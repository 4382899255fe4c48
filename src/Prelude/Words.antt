-- ===== src/Prelude/Words.antt =====
-- `unsigned`, a 32-bit word: a number below 2 ^ 32, with arithmetic that wraps.
use Prim.Native.Nat.{ℕ, ◌+◌, ◌-◌, ◌*◌, ◌%◌, ◌^◌, ◌<◌}
use mathlib.Core.Path.{◌≡◌}
use native.Mathlib.Nat.{mod-eq_of_lt}
use native.Mathlib.Omega.{arith}

abbrev pub u32_mod : ℕ
u32_mod = 2 ^ 32

unfoldable pub add32 : ℕ → ℕ → ℕ
add32 a b = (a + b) % u32_mod

unfoldable pub sub32 : ℕ → ℕ → ℕ
sub32 a b = (a + u32_mod - b) % u32_mod

unfoldable pub mul32 : ℕ → ℕ → ℕ
mul32 a b = (a * b) % u32_mod

pub add32-eq : (a b : ℕ) → a + b < u32_mod → add32 a b ≡ a + b
unfolding add32
add32-eq a b h = omega arith

pub sub32-eq : (a b : ℕ) → a < u32_mod → b < a + 1 → sub32 a b ≡ a - b
unfolding sub32
sub32-eq a b h k = omega arith

pub mul32-eq : (a b : ℕ) → a * b < u32_mod → mul32 a b ≡ a * b
unfolding mul32
mul32-eq a b h = mod-eq_of_lt h

-- All ones, `-1u` and `UINT_MAX`.
abbrev pub uint_max : ℕ
uint_max = 4294967295
