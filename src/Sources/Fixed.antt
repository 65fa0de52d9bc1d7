-- ===== src/Sources/Fixed.antt =====
-- fixed.rs: a price that stands in the configuration, in units of 10^-30.
pub mod Positive
use so4_oracle.Prelude.{Bool, false, not, [], ◌∷◌, String}
use so4_oracle.Prelude.Int.{ℤ, pos, leb_ℤ}
use so4_oracle.Prelude.Number.{parse_i128}
use so4_oracle.Prelude.Result.{Result, ok, ◌>>=◌, ◌>>◌, ensure, ok_or}
use so4_oracle.Prelude.Text.{concat}
use so4_oracle.Sources.Token.{TokenConfig}

pub data FixedPriceError : Type 0 where
  missing_fixed_price : FixedPriceError
  invalid_fixed_price : String → FixedPriceError

unfoldable pub display : FixedPriceError → String
display missing_fixed_price = "fixed price is not configured"
display (invalid_fixed_price price) = concat ("invalid fixed price: " ∷ price ∷ [])

unfoldable pub is_retryable : FixedPriceError → Bool
is_retryable e = false

-- `fixed::fixed_price`
unfoldable pub configured_price : TokenConfig → Result FixedPriceError ℤ
configured_price token = do
  raw ← ok_or token.fixed_price missing_fixed_price
  price ← ok_or (parse_i128 raw) (invalid_fixed_price raw)
  ensure (not (leb_ℤ price (pos 0))) (invalid_fixed_price raw)
  ok price
