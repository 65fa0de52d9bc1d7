-- ===== src/Prelude/Number/Digits.antt =====
-- The number that a text of digits stands for.
use Prim.Native.Char.{code}
use Prim.Native.String.{String, count, ◌++◌ as append}
use Prim.Native.Nat.{ℕ, zero, suc, ◌+◌, ◌-◌, ◌*◌, ◌^◌, ◌≤◌, ◌<◌}
use mathlib.Core.Path.{◌≡◌, refl, ◌∙◌}
use mathlib.Core.Bool.{true}
use mathlib.Core.Option.{some}
use native.Mathlib.Omega.{arith, pow_step}
use native.Mathlib.Nat.{zero-add}
use text.Mathlib.TextLemmas.{cons-append, nil-append, length-cons, length-nil}
use so4_oracle.Prelude.Int.{pos, checked}
use so4_oracle.Prelude.Text.{is_ascii_digit, all_chars}
use so4_oracle.Prelude.Number.{read_digits, parse_i128}

abbrev pub Digits : String → Type 0
Digits s = all_chars is_ascii_digit s ≡ true

-- Most significant digit first, behind the digits of `acc`.
unfoldable pub value_from : ℕ → String → ℕ
value_from acc String.[] = acc
value_from acc (String.◌∷◌ c s) = value_from (acc * 10 + (code c - b'0')) s

abbrev pub value : String → ℕ
value s = value_from 0 s

pub pow_pos : (n : ℕ) → 0 < 10 ^ n
pow_pos zero = omega arith
pow_pos (suc n) = omega (arith, pow_step 10 n, pow_pos n)

pub pow_add : (m n : ℕ) → 10 ^ (m + n) ≡ 10 ^ m * 10 ^ n
pow_add zero n = rw (zero-add n) (omega arith)
pow_add (suc m) n =
    let e : suc m + n ≡ suc (m + n) = omega arith in
    rw (e, pow_step 10 (m + n), pow_step 10 m, pow_add m n) (omega arith)

pub value_from_lem : (acc : ℕ) (s : String) → value_from acc s ≡ acc * 10 ^ count s + value s
unfolding value_from
value_from_lem acc String.[] = rw length-nil (omega arith)
value_from_lem acc (String.◌∷◌ c s) =
    let d = code c - b'0' in
    rw
      (
        length-cons c s,
        value_from_lem (acc * 10 + d) s,
        value_from_lem (0 * 10 + d) s,
        pow_step 10 (count s),
      )
      (grind arith)

pub value_from-append :
    (acc : ℕ) (s t : String) → value_from acc (append s t) ≡ value_from (value_from acc s) t
unfolding value_from
value_from-append acc String.[] t = rw (nil-append t) refl
value_from-append acc (String.◌∷◌ c s) t =
    rw (cons-append c s t) (value_from-append (acc * 10 + (code c - b'0')) s t)

-- The digits of `s` and then those of `t`.
pub value-append : (s t : String) → value (append s t) ≡ value s * 10 ^ count t + value t
value-append s t = value_from-append 0 s t ∙ value_from_lem (value s) t

pub value_lt : (s : String) → Digits s → value s < 10 ^ count s
unfolding value_from all_chars is_ascii_digit
value_lt String.[] h = omega arith
value_lt (String.◌∷◌ c s) h =
    let d : code c - b'0' ≤ 9 = ground arith in
    let ih = value_lt s (ground arith) in
    rw (length-cons c s, value_from_lem (0 * 10 + (code c - b'0')) s, pow_step 10 (count s))
      (grind (arith, ih, d))

pub read_digits-Digits :
    (acc : ℕ) (s : String) → Digits s → read_digits acc s ≡ some (value_from acc s)
unfolding read_digits value_from all_chars
read_digits-Digits acc String.[] h = refl
read_digits-Digits acc (String.◌∷◌ c s) h =
    ground (arith, read_digits-Digits (acc * 10 + (code c - b'0')) s)

-- A text of digits that is not empty is read as its value, where that fits.
pub parse_i128-Digits :
    (s : String) → Digits s → 0 < count s → parse_i128 s ≡ checked (pos (value s))
unfolding parse_i128 all_chars is_ascii_digit
parse_i128-Digits String.[] h p = absurd (omega arith)
parse_i128-Digits (String.◌∷◌ c s) h p = ground (arith, read_digits-Digits 0 (String.◌∷◌ c s))
