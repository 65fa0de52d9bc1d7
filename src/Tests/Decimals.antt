-- ===== src/Tests/Decimals.antt =====
-- The theorem on decimal texts, and what the parser makes of some.
use Prim.Native.String.{◌++◌ as append}
use so4_oracle.Prelude.{◌*◌, ◌/◌, ◌^◌, ◌≡◌, refl, arith, none, String}
use so4_oracle.Prelude.Int.{pos, ◌*ℤ◌, ◌+ℤ◌, checked, fits_i128, abs}
use so4_oracle.Prelude.Number.{parse_i128}
use so4_oracle.Prelude.Number.Digits.{value}
use so4_oracle.Prelude.Result.{ok}
use so4_oracle.Prelude.Text.{trim, split, all_chars, is_ascii_digit, count_chars, push}
use so4_oracle.Sources.Decimal.{parse_price_to_precision, scale_parts, pad_zeros}
use so4_oracle.Sources.Decimal.Floor.{success, in_range, parse_price_to_precision-floor}

parse_price_to_precision-floor_example :
    success (parse_price_to_precision (append "12" (String.◌∷◌ "." "50")))
    ≡ in_range (value (append "12" "50") * 10 ^ 30 / 10 ^ 2)
unfolding all_chars is_ascii_digit
parse_price_to_precision-floor_example =
    parse_price_to_precision-floor "12" "50" refl (omega arith) refl

twelve_and_a_half : parse_price_to_precision " 12.5 " ≡ ok (pos (125 * 10 ^ 29))
unfolding parse_price_to_precision parse_i128 trim split scale_parts all_chars is_ascii_digit
    checked fits_i128 count_chars pad_zeros push ◌*ℤ◌ ◌+ℤ◌ abs
twelve_and_a_half = refl

zero_is_refused : success (parse_price_to_precision "0.000") ≡ none
unfolding parse_price_to_precision parse_i128 trim split scale_parts all_chars is_ascii_digit
    checked fits_i128 count_chars pad_zeros push ◌*ℤ◌ ◌+ℤ◌ abs
zero_is_refused = refl
