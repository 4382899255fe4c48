-- ===== src/Weights/Float.antt =====
-- `FeatType`, the `float` of the program, and the operations on it that the code uses. They are a
-- parameter of the model; no law of arithmetic is assumed of them.
use dorylus.Prelude.{ℕ, Bool}

pub record Float (A : Type 0) : Type 0 where
  pub zero : A
  pub one : A
  pub add : A → A → A
  pub sub : A → A → A
  pub mul : A → A → A
  pub div : A → A → A
  pub sqrt : A → A
  pub pow : A → ℕ → A
  pub of_unsigned : ℕ → A
  pub le : A → A → Bool
