-- ===== src/Prelude/Int.antt =====
-- Signed integers over the native numbers, and the checked `i128` arithmetic of the source.
-- Sums and orders go through the two parts of an integer, which are numbers that `omega` reads.
use Prim.Native.Nat.{ℕ, suc, ◌+◌, ◌-◌, ◌*◌, ◌/◌, ◌^◌, ◌≤◌, ◌<◌}
use mathlib.Core.Path.{◌≡◌}
use mathlib.Core.Bool.{Bool}
use mathlib.Core.Option.{Option, none, some}
use native.Mathlib.Omega.{arith}
use so4_oracle.Prelude.Tests.{ltb, leb, if◌then◌else◌}

-- `negsuc n` is -(n + 1).
pub data ℤ : Type 0 where
  pos : ℕ → ℤ
  negsuc : ℕ → ℤ

abbrev pub pos_part : ℤ → ℕ
pos_part (pos n) = n
pos_part (negsuc n) = 0

abbrev pub neg_part : ℤ → ℕ
neg_part (pos n) = 0
neg_part (negsuc n) = suc n

-- a - b, as an integer.
abbrev pub sub_ℕ : ℕ → ℕ → ℤ
sub_ℕ a b = if leb b a then pos (a - b) else negsuc (b - a - 1)

infixl 65 ◌+ℤ◌ ◌-ℤ◌
infixl 70 ◌*ℤ◌ ◌/ℤ◌
infix 50 ◌≤ℤ◌ ◌<ℤ◌
unfoldable pub ◌+ℤ◌ : ℤ → ℤ → ℤ
a +ℤ b = sub_ℕ (pos_part a + pos_part b) (neg_part a + neg_part b)

unfoldable pub ◌-ℤ◌ : ℤ → ℤ → ℤ
a -ℤ b = sub_ℕ (pos_part a + neg_part b) (neg_part a + pos_part b)

unfoldable pub ◌*ℤ◌ : ℤ → ℤ → ℤ
a *ℤ b =
    sub_ℕ (pos_part a * pos_part b + neg_part a * neg_part b)
      (pos_part a * neg_part b + neg_part a * pos_part b)

-- `/` by a positive constant: the quotient is truncated towards zero.
unfoldable pub ◌/ℤ◌ : ℤ → ℕ → ℤ
pos n /ℤ d = pos (n / d)
negsuc n /ℤ d = sub_ℕ 0 (suc n / d)

unfoldable pub abs : ℤ → ℕ
abs a = pos_part a + neg_part a

abbrev pub ◌≤ℤ◌ : ℤ → ℤ → Type 0
a ≤ℤ b = pos_part a + neg_part b ≤ pos_part b + neg_part a

abbrev pub ◌<ℤ◌ : ℤ → ℤ → Type 0
a <ℤ b = pos_part a + neg_part b < pos_part b + neg_part a

abbrev pub ltb_ℤ : ℤ → ℤ → Bool
ltb_ℤ a b = ltb (pos_part a + neg_part b) (pos_part b + neg_part a)

abbrev pub leb_ℤ : ℤ → ℤ → Bool
leb_ℤ a b = leb (pos_part a + neg_part b) (pos_part b + neg_part a)

pub +ℤ_parts :
    (a b : ℤ)
    → pos_part (a +ℤ b) + neg_part a + neg_part b ≡ neg_part (a +ℤ b) + pos_part a + pos_part b
unfolding ◌+ℤ◌
+ℤ_parts a b = ground arith

pub -ℤ_parts :
    (a b : ℤ)
    → pos_part (a -ℤ b) + neg_part a + pos_part b ≡ neg_part (a -ℤ b) + pos_part a + neg_part b
unfolding ◌-ℤ◌
-ℤ_parts a b = ground arith

pub eq_of_parts : (a b : ℤ) → pos_part a + neg_part b ≡ pos_part b + neg_part a → a ≡ b
eq_of_parts a b h = ground arith

pub ruleset int_laws = (arith, +ℤ_parts, -ℤ_parts, eq_of_parts)

pub pos_times : (m n : ℕ) → pos m *ℤ pos n ≡ pos (m * n)
unfolding ◌*ℤ◌
pos_times m n = ground arith

-- -2^127 ≤ a < 2^127.
unfoldable pub fits_i128 : ℤ → Bool
fits_i128 (pos n) = ltb n (2 ^ 127)
fits_i128 (negsuc n) = ltb n (2 ^ 127)

abbrev pub i128_max : ℤ
i128_max = pos (2 ^ 127 - 1)

abbrev pub i128_min : ℤ
i128_min = negsuc (2 ^ 127 - 1)

-- The value where it fits, and otherwise `none`: the overflow that `checked_*` reports and that
-- plain arithmetic panics on (`overflow-checks = true`).
unfoldable pub checked : ℤ → Option ℤ
checked a = if fits_i128 a then some a else none

-- `saturating_*`: the value clamped to the range.
unfoldable pub saturate : ℤ → ℤ
saturate (pos n) = if ltb n (2 ^ 127) then pos n else i128_max
saturate (negsuc n) = if ltb n (2 ^ 127) then negsuc n else i128_min
