-- ===== src/Sources/Price.antt =====
-- What every price source promises of a price: it is positive and fits the contract's `i128`.
use so4_oracle.Prelude.{◌^◌, ◌≡◌, false, some, arith}
use so4_oracle.Prelude.Int.{ℤ, pos, negsuc, ◌<ℤ◌, checked, fits_i128, leb_ℤ}

-- At least 10^-30, and below 2^127.
abbrev pub IsPrice : ℤ → Type 0
IsPrice p = (pos 0 <ℤ p) × (p <ℤ pos (2 ^ 127))

pub checked-IsPrice : (a p : ℤ) → checked a ≡ some p → leb_ℤ p (pos 0) ≡ false → IsPrice p
unfolding checked fits_i128
checked-IsPrice (pos n) p e h = ground arith
checked-IsPrice (negsuc n) p e h = absurd (ground arith)
