-- ===== src/Sources/Decimal.antt =====
-- binance.rs, `parse_price_to_precision`: a decimal text as an integer in units of 10^-30. The
-- parser of Coinbase prices calls it too.
pub mod Fraction
pub mod Floor
pub mod Positive
use Prim.Native.Char.{code}
use Prim.Native.String.{◌++◌ as append}
use so4_oracle.Prelude.{
  ℕ, zero, suc, ◌-◌, ◌*◌, ◌^◌, ◌==◌, ◌||◌, not, leb, Bool, true, false, Option, none, some, List,
  [], ◌∷◌, String, if◌then◌else◌,
}
use so4_oracle.Prelude.Int.{ℤ, pos, ◌+ℤ◌, ◌*ℤ◌, abs, checked}
use so4_oracle.Prelude.Result.{Result, ok, err, ◌>>=◌, ◌>>◌, ensure, ok_or}
use so4_oracle.Prelude.Text.{
  concat, trim, split, all_chars, is_ascii_digit, count_chars, take_chars, push,
}
use so4_oracle.Prelude.Number.{parse_i128}

-- SCALE_DIGITS, FLOAT_PRECISION
abbrev pub scale_digits : ℕ
scale_digits = 30

abbrev pub float_precision : ℤ
float_precision = pos (10 ^ 30)

pub data BinancePriceError : Type 0 where
  network_error : String → BinancePriceError
  http_error : ℕ → String → BinancePriceError
  json_error : String → BinancePriceError
  price_parse_error : String → BinancePriceError

abbrev is_blank : String → Bool
is_blank String.[] = true
is_blank (String.◌∷◌ c s) = false

abbrev starts_with_minus : String → Bool
starts_with_minus String.[] = false
starts_with_minus (String.◌∷◌ c s) = code c == b'-'

-- `while padded.chars().count() < scale_digits { padded.push('0'); }`: that many rounds.
unfoldable pub pad_zeros : ℕ → String → String
pad_zeros zero padded = padded
pad_zeros (suc n) padded = pad_zeros n (push padded "0")

unfoldable pub normalized_frac : String → String
normalized_frac frac =
    if leb scale_digits (count_chars frac)
    then take_chars scale_digits frac
    else pad_zeros (scale_digits - count_chars frac) frac

-- An error that quotes the text.
abbrev refused : String → String → BinancePriceError
refused what text = price_parse_error (concat (what ∷ text ∷ []))

-- Behind the split at the point.
unfoldable pub scale_parts : (text whole frac : String) → Result BinancePriceError ℤ
unfolding normalized_frac
scale_parts text whole frac = do
  ensure (all_chars is_ascii_digit whole) (refused "invalid whole part: " text)
  ensure (all_chars is_ascii_digit frac || is_blank frac) (refused "invalid fractional part: " text)
  whole_val ← ok_or (parse_i128 whole) (refused "overflow for price (whole part too large): " text)
  let digits = normalized_frac frac
  frac_val ←
      if is_blank digits
      then ok (pos 0)
      else ok_or (parse_i128 digits) (refused "invalid fractional part: " text)
  whole_scaled ←
      ok_or (checked (whole_val *ℤ float_precision)) (refused "overflow for price: " text)
  scaled ← ok_or (checked (whole_scaled +ℤ frac_val)) (refused "overflow for price: " text)
  ensure (not (abs scaled == 0)) (price_parse_error "price must be greater than zero")
  ok scaled

split_parts : String → List String → Result BinancePriceError ℤ
split_parts text [] = scale_parts text "0" ""
split_parts text (whole ∷ []) = scale_parts text whole ""
split_parts text (whole ∷ frac ∷ []) = scale_parts text whole frac
split_parts text (whole ∷ frac ∷ more ∷ rest) = err (refused "invalid decimal format: " text)

unfoldable pub parse_price_to_precision : String → Result BinancePriceError ℤ
unfolding split_parts
parse_price_to_precision raw =
    let text = trim raw in
    if is_blank text
    then err (price_parse_error "empty price string")
    else if starts_with_minus text
    then err (price_parse_error "negative prices are not supported")
    else split_parts text (split b'.' text)
