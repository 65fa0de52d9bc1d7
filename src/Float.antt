-- ===== src/Float.antt =====
-- The `f64` operations of the standard library that the source uses. The type and its operations are
-- a parameter: the source's integers are exact, its floats are rounded by the machine.
use so4_oracle.Prelude.{ℕ, Bool}
use so4_oracle.Prelude.Int.{ℤ, pos}

pub record Float (F : Type 0) : Type 0 where
  -- `x as f64` of an integer, and `x as i128`, which truncates and saturates.
  pub of_int : ℤ → F
  pub to_int : F → ℤ
  pub add : F → F → F
  pub sub : F → F → F
  pub mul : F → F → F
  pub div : F → F → F
  pub abs : F → F
  pub sqrt : F → F
  pub floor : F → F
  pub ceil : F → F
  pub half : F
  pub infinity : F
  pub lt : F → F → Bool
  pub le : F → F → Bool
  pub eq : F → F → Bool

abbrev pub of_ℕ : {F : Type 0} → Float F → ℕ → F
of_ℕ f n = f.of_int (pos n)
