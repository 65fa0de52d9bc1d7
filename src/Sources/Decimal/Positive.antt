-- ===== src/Sources/Decimal/Positive.antt =====
-- binance.rs, `parse_price_to_precision`: what it returns is a price.
use Prim.Native.String.{count}
use text.Mathlib.TextLemmas.{length-cons}
use so4_oracle.Prelude.{
  ℕ, ◌*◌, ◌+◌, ◌^◌, ◌<◌, ◌≡◌, ◌∙◌, ◌||◌, true, some, String, List, [], ◌∷◌, arith, refl, sym, ap,
}
use so4_oracle.Prelude.Int.{ℤ}
use so4_oracle.Prelude.Number.{parse_i128}
use so4_oracle.Prelude.Number.Digits.{Digits, value}
use so4_oracle.Prelude.Result.{ok}
use so4_oracle.Prelude.Text.{trim, split, all_chars, is_ascii_digit}
use so4_oracle.Sources.Decimal.{
  is_blank, normalized_frac, scale_parts, split_parts, parse_price_to_precision,
}
use so4_oracle.Sources.Decimal.Floor.{scale_parts-success, success, in_range}
use so4_oracle.Sources.Price.{IsPrice}

abbrev Parts : (whole frac : String) → Type 0
Parts whole frac = Digits whole × (0 < count whole) × Digits frac

is_blank-Digits : (s : String) → is_blank s ≡ true → Digits s
unfolding all_chars
is_blank-Digits String.[] h = refl
is_blank-Digits (String.◌∷◌ c s) h = absurd (ground arith)

fraction-Digits :
    (frac : String) → (all_chars is_ascii_digit frac || is_blank frac) ≡ true → Digits frac
fraction-Digits frac h = ground (arith, is_blank-Digits frac)

scale_parts-Parts :
    (text whole frac : String) (p : ℤ) → scale_parts text whole frac ≡ ok p → Parts whole frac
unfolding scale_parts parse_i128 all_chars
scale_parts-Parts text String.[] frac p e = absurd (ground arith)
scale_parts-Parts text (String.◌∷◌ c s) frac p e =
    let n : 0 < count (String.◌∷◌ c s) = omega (arith, length-cons c s) in
    ground (arith, n, fraction-Digits frac)

in_range-IsPrice : (n : ℕ) (p : ℤ) → in_range n ≡ some p → IsPrice p
in_range-IsPrice n p e = ground arith

scale_parts-IsPrice :
    (text whole frac : String) (p : ℤ) → scale_parts text whole frac ≡ ok p → IsPrice p
scale_parts-IsPrice text whole frac p e =
    let parts = scale_parts-Parts text whole frac p e in
    in_range-IsPrice (value whole * 10 ^ 30 + value (normalized_frac frac)) p
      (sym (scale_parts-success text whole frac parts.0 parts.1 parts.2) ∙ ap success e)

split_parts-IsPrice :
    (text : String) (parts : List String) (p : ℤ) → split_parts text parts ≡ ok p → IsPrice p
unfolding split_parts
split_parts-IsPrice text [] p e = scale_parts-IsPrice text "0" "" p e
split_parts-IsPrice text (whole ∷ []) p e = scale_parts-IsPrice text whole "" p e
split_parts-IsPrice text (whole ∷ frac ∷ []) p e = scale_parts-IsPrice text whole frac p e
split_parts-IsPrice text (whole ∷ frac ∷ more ∷ rest) p e = absurd (ground arith)

pub parse_price_to_precision-IsPrice :
    (raw : String) (p : ℤ) → parse_price_to_precision raw ≡ ok p → IsPrice p
unfolding parse_price_to_precision
parse_price_to_precision-IsPrice raw p e =
    let text = trim raw in ground (arith, split_parts-IsPrice text (split b'.' text) p)
