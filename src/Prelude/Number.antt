-- ===== src/Prelude/Number.antt =====
-- `str::parse` of the standard library for signed integers.
pub mod Digits
pub mod Unsigned
use Prim.Native.Char.{Char, code}
use Prim.Native.String.{String}
use Prim.Native.Nat.{ℕ, ◌+◌, ◌-◌, ◌*◌}
use mathlib.Core.Bool.{Bool}
use mathlib.Core.Option.{Option, none, some, map}
use so4_oracle.Prelude.Tests.{◌==◌, if◌then◌else◌}
use so4_oracle.Prelude.Int.{ℤ, pos, sub_ℕ, checked}
use so4_oracle.Prelude.Text.{is_ascii_digit}

unfoldable pub read_digits : ℕ → String → Option ℕ
read_digits acc String.[] = some acc
read_digits acc (String.◌∷◌ c s) =
    let rest = read_digits (acc * 10 + (code c - b'0')) s in if is_ascii_digit c then rest else none

-- At least one digit.
unfoldable pub read_magnitude : String → Option ℕ
read_magnitude String.[] = none
read_magnitude (String.◌∷◌ c s) = read_digits 0 (String.◌∷◌ c s)

-- The sign may be left out.
unfoldable pub read_int : String → Option ℤ
unfolding read_magnitude read_digits
read_int String.[] = none
read_int (String.◌∷◌ c s) =
    if code c == b'-'
    then map (sub_ℕ 0) (read_magnitude s)
    else if code c == b'+'
    then map pos (read_magnitude s)
    else map pos (read_magnitude (String.◌∷◌ c s))

-- `s.parse::<i128>().ok()`
unfoldable pub parse_i128 : String → Option ℤ
unfolding read_int
parse_i128 s = elim (read_int s) [ none ↦ none | some n ↦ checked n ]
