-- ===== src/Chain/ScVal/Parts.antt =====
-- The two halves of a 128-bit integer, read back by an independent decoder.
use so4_oracle.Prelude.{◌^◌, ◌<◌, ◌≡◌, true, arith}
use so4_oracle.Prelude.Int.{ℤ, pos, negsuc, ◌+ℤ◌, ◌*ℤ◌, fits_i128}
use so4_oracle.Chain.ScVal.{Int128Parts, i128_to_int128_parts}

-- What a contract reads: hi * 2^64 + lo.
abbrev pub value : Int128Parts → ℤ
value p = p.hi *ℤ pos (2 ^ 64) +ℤ pos p.lo

abbrev pub IsInt64 : ℤ → Type 0
IsInt64 (pos n) = n < 2 ^ 63
IsInt64 (negsuc n) = n < 2 ^ 63

-- For a value of the `i128` range, the high part fits an `i64`, the low part a `u64`, and the pair
-- stands for the value: neither cast loses a bit.
pub value-i128_to_int128_parts :
    (a : ℤ)
    → fits_i128 a ≡ true
    → let p = i128_to_int128_parts a in IsInt64 p.hi × (p.lo < 2 ^ 64) × (value p ≡ a)
unfolding i128_to_int128_parts fits_i128 ◌+ℤ◌ ◌*ℤ◌
value-i128_to_int128_parts (pos n) h = (ground arith, ground arith, ground arith)
value-i128_to_int128_parts (negsuc n) h = (ground arith, ground arith, ground arith)
