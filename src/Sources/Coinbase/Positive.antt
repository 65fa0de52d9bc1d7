-- ===== src/Sources/Coinbase/Positive.antt =====
-- coinbase.rs: a price that an answer of Coinbase gives is positive.
use so4_oracle.Prelude.{ℕ, ◌≡◌, ◌==◌, String, str_eq}
use so4_oracle.Prelude.Int.{ℤ}
use so4_oracle.Prelude.Map.{lookup}
use so4_oracle.Prelude.Result.{Result, ok, err, ensure, ok_or, map_err, >>=-eq-ok}
use so4_oracle.Rpc.{truncate_error_body}
use so4_oracle.Sources.Coinbase.{
  network_error, http_error, json_error, missing_usd_rate, currency_mismatch, remap,
  parse_coinbase_http_result, parse_coinbase_http_response, parse_coinbase_response_body,
}
use so4_oracle.Sources.Decimal.{BinancePriceError, parse_price_to_precision}
use so4_oracle.Sources.Decimal.Positive.{parse_price_to_precision-IsPrice}
use so4_oracle.Sources.Price.{IsPrice}
use so4_oracle.Sources.Web.{Web}

map_err-eq-ok :
    {D : Type 0} (f : BinancePriceError → D) (r : Result BinancePriceError ℤ) (p : ℤ)
    → map_err f r ≡ ok p
    → r ≡ ok p
map_err-eq-ok f (ok a) p e = cc
map_err-eq-ok f (err x) p e = cc

module _ {W F : Type 0} (web : Web W F) where
  pub parse_coinbase_http_result-IsPrice :
      (response : Result String (ℕ × String)) (currency : String) (p : ℤ)
      → parse_coinbase_http_result web response currency ≡ ok p
      → IsPrice p
  unfolding parse_coinbase_http_result parse_coinbase_http_response parse_coinbase_response_body
  parse_coinbase_http_result-IsPrice response currency p e =
      let s1 = >>=-eq-ok (map_err network_error response) _ p e in
      let s2 =
        >>=-eq-ok (ensure (s1.0.0 == 200) (http_error s1.0.0 (truncate_error_body s1.0.1))) _ p
          s1.2 in
      let s3 = >>=-eq-ok (map_err json_error (web.decode_rates s1.0.1)) _ p s2.2 in
      let s4 =
        >>=-eq-ok
          (ensure (str_eq (web.to_uppercase s3.0.currency) (web.to_uppercase currency))
            (currency_mismatch currency s3.0.currency))
          _ p s3.2 in
      let s5 = >>=-eq-ok (ok_or (lookup "USD" s3.0.rates) missing_usd_rate) _ p s4.2 in
      parse_price_to_precision-IsPrice s5.0 p
        (map_err-eq-ok (remap web.debug_binance) (parse_price_to_precision s5.0) p s5.2)
