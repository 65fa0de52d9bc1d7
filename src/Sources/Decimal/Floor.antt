-- ===== src/Sources/Decimal/Floor.antt =====
-- binance.rs, `parse_price_to_precision`: which number it makes of a decimal text.
use Prim.Native.Char.{Char}
use Prim.Native.String.{count, ◌++◌ as append}
use native.Mathlib.Nat.{div-eq_of_lt-le}
use text.Mathlib.TextLemmas.{cons-append}
use so4_oracle.Prelude.{
  ℕ, ◌+◌, ◌*◌, ◌/◌, ◌^◌, ◌<◌, ◌≡◌, ◌==◌, refl, ap, ltb, String, arith, true, false, Option, none,
  some, if◌then◌else◌,
}
use so4_oracle.Prelude.Int.{ℤ, pos, ◌+ℤ◌, pos_times, checked, fits_i128, abs}
use so4_oracle.Prelude.Result.{Result, ok, err}
use so4_oracle.Prelude.Text.{all_chars, is_ascii_digit, is_whitespace}
use so4_oracle.Prelude.Text.Trim.{
  Solid, is_solid, differs, all_chars-append, all_chars_mono, digit_solid, trim-Solid, split-append,
}
use so4_oracle.Prelude.Number.Digits.{Digits, value, value-append, value_lt, parse_i128-Digits}
use so4_oracle.Sources.Decimal.{
  starts_with_minus, is_blank, normalized_frac, scale_parts, parse_price_to_precision,
}
use so4_oracle.Sources.Decimal.Fraction.{normalized_frac-IsFloor}

abbrev pub success : {E A : Type 0} → Result E A → Option A
success (ok a) = some a
success (err e) = none

-- A price has to be positive and an `i128`.
abbrev pub in_range : ℕ → Option ℤ
in_range n = if n == 0 then none else if ltb n (2 ^ 127) then some (pos n) else none

plus_pos : (m n : ℕ) → pos m +ℤ pos n ≡ pos (m + n)
unfolding ◌+ℤ◌
plus_pos m n = ground arith

not_blank : (s : String) → 0 < count s → is_blank s ≡ false
not_blank String.[] h = absurd (omega arith)
not_blank (String.◌∷◌ c s) h = refl

norm_lt : (t : String) → Digits t → count t ≡ 30 → fits_i128 (pos (value t)) ≡ true
unfolding fits_i128
norm_lt t h c =
    let b = value_lt t h in let e : 10 ^ count t ≡ 10 ^ 30 = ap (λ k. 10 ^ k) c in ground arith

-- The parts behind the split: the digits of the whole and the thirty of the fraction.
pub scale_parts-success :
    (text whole frac : String)
    → Digits whole
    → 0 < count whole
    → Digits frac
    → success (scale_parts text whole frac)
      ≡ in_range (value whole * 10 ^ 30 + value (normalized_frac frac))
unfolding scale_parts checked fits_i128 abs
scale_parts-success text whole frac hw pw hf =
    let n = normalized_frac-IsFloor frac hf in
    let t = normalized_frac frac in
    rw
      (
        hw,
        hf,
        parse_i128-Digits whole hw pw,
        not_blank t (omega (arith, n.1)),
        parse_i128-Digits t n.0 (omega (arith, n.1)),
      )
      (ground (
        arith,
        norm_lt t n.0 n.1,
        pos_times (value whole) (10 ^ 30),
        plus_pos (value whole * 10 ^ 30) (value t),
      ))

decimal-Solid : (s t : String) → Digits s → Digits t → Solid (append s (String.◌∷◌ "." t))
unfolding all_chars is_whitespace
decimal-Solid s t hs ht =
    all_chars-append is_solid s (String.◌∷◌ "." t)
      (all_chars_mono is_ascii_digit is_solid s digit_solid hs)
      (point (all_chars_mono is_ascii_digit is_solid t digit_solid ht))
  where
    point : Solid t → Solid (String.◌∷◌ "." t)
    point h = ground arith

no_point : (s : String) → Digits s → all_chars (differs b'.') s ≡ true
unfolding is_ascii_digit
no_point s h = all_chars_mono is_ascii_digit (differs b'.') s digit_differs h
  where
    digit_differs : (c : Char) → is_ascii_digit c ≡ true → differs b'.' c ≡ true
    digit_differs c h = ground arith

-- A whole number is not empty, and begins with a digit.
begins_with_digit :
    (s t : String)
    → Digits s
    → 0 < count s
    → (is_blank (append s t) ≡ false) × (starts_with_minus (append s t) ≡ false)
unfolding all_chars is_ascii_digit
begins_with_digit String.[] t h p = absurd (omega arith)
begins_with_digit (String.◌∷◌ c s) t h p = rw (cons-append c s t) (ground arith)

parse-parts :
    (whole frac : String)
    → Digits whole
    → 0 < count whole
    → Digits frac
    → let text = append whole (String.◌∷◌ "." frac) in
      parse_price_to_precision text ≡ scale_parts text whole frac
unfolding parse_price_to_precision
parse-parts whole frac hw pw hf =
    let text = append whole (String.◌∷◌ "." frac) in
    let b = begins_with_digit whole (String.◌∷◌ "." frac) hw pw in
    rw
      (
        trim-Solid text (decimal-Solid whole frac hw hf),
        b.0,
        b.1,
        split-append b'.' whole "." frac (no_point whole hw) refl (no_point frac hf),
      )
      refl

-- For a decimal text `whole.frac` with at least one digit before its point: the price is the number
-- that the text stands for, times 10^30 and rounded down, where that is positive and below 2^127;
-- every other such text is refused.
pub parse_price_to_precision-floor :
    (whole frac : String)
    → Digits whole
    → 0 < count whole
    → Digits frac
    → success (parse_price_to_precision (append whole (String.◌∷◌ "." frac)))
      ≡ in_range (value (append whole frac) * 10 ^ 30 / 10 ^ count frac)
parse_price_to_precision-floor whole frac hw pw hf =
    let n = normalized_frac-IsFloor frac hf in
    let t = normalized_frac frac in
    let k = 10 ^ count frac in
    let v = value-append whole frac in
    let floor : value (append whole frac) * 10 ^ 30 / k ≡ value whole * 10 ^ 30 + value t =
      div-eq_of_lt-le k (rw v (grind arith)) (rw v (grind arith)) in
    rw (parse-parts whole frac hw pw hf, floor)
      (scale_parts-success (append whole (String.◌∷◌ "." frac)) whole frac hw pw hf)
