-- ===== src/Prices.antt =====
-- prices.rs: from the prices of the sources of one token to the band that goes on-chain. Prices are
-- `i128`; `none` of `Checked` is the panic of an arithmetic overflow or an index out of bounds.
pub mod Sort
pub mod Median
pub mod Cluster
pub mod Outliers
pub mod Aggregate
use so4_oracle.Prelude.{
  ℕ, suc, ◌*◌, max, Bool, Option, none, some, List, [], ◌∷◌, ltb, if◌then◌else◌,
}
use so4_oracle.Prelude.Int.{ℤ, pos, negsuc}
use so4_oracle.Float.{Float, of_ℕ}

-- DEFAULT_CLUSTER_TOLERANCE_BPS
abbrev pub default_cluster_tolerance_bps : ℕ
default_cluster_tolerance_bps = 500

unfoldable pub cluster_tolerance_bps : ℕ → ℕ
cluster_tolerance_bps max_deviation_bps = max max_deviation_bps default_cluster_tolerance_bps

abbrev pub is_zero : ℤ → Bool
is_zero (pos n) = if ltb 0 n then Bool.false else Bool.true
is_zero (negsuc n) = Bool.false

module _ {F : Type 0} (f : Float F) where
  open f use {of_int, sub, mul, div, abs, infinity}

  unfoldable pub deviation_bps : ℤ → ℤ → F
  deviation_bps price median =
      if is_zero median
      then infinity
      else mul (div (abs (sub (of_int price) (of_int median))) (abs (of_int median)))
          (of_ℕ f 10_000)
