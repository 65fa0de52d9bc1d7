-- ===== src/Sources/Binance/Positive.antt =====
-- binance.rs: every price that an answer of Binance gives is positive.
use so4_oracle.Prelude.{ℕ, ◌≡◌, ◌==◌, All, none, Option-cases, inl, inr, List, [], ◌∷◌, String}
use so4_oracle.Prelude.Int.{ℤ}
use so4_oracle.Prelude.Result.{Result, ok, ensure, map_err, >>=-eq-ok, transfer_ok}
use so4_oracle.Rpc.{truncate_error_body}
use so4_oracle.Sources.Binance.{
  fetch_spot_prices_with_url, build_spot_price_url_for, collect_prices, find_entry, entries_of,
  parse_ticker_http_result, parse_ticker_http_response, parse_ticker_response_body,
}
use so4_oracle.Sources.Decimal.{parse_price_to_precision, json_error, network_error, http_error}
use so4_oracle.Sources.Decimal.Positive.{parse_price_to_precision-IsPrice}
use so4_oracle.Sources.Price.{IsPrice}
use so4_oracle.Sources.Web.{Web, BinanceTickerEntry}

abbrev pub Positive : List (String × ℤ) → Type 0
Positive = All (λ r. IsPrice r.1)

collect_prices-Positive :
    (entries : List BinanceTickerEntry) (symbols : List String) (rs : List (String × ℤ))
    → collect_prices entries symbols ≡ ok rs
    → Positive rs
unfolding collect_prices
collect_prices-Positive entries [] rs e = transfer_ok Positive e tt
collect_prices-Positive entries (symbol ∷ symbols) rs e =
    elim (Option-cases (find_entry symbol entries)) [
      | inl q ↦ collect_prices-Positive entries symbols rs (rw (q, collect_prices) at e)
      | inr (found, q) ↦
          let e' = rw (q, collect_prices) at e in
          let s1 = >>=-eq-ok (parse_price_to_precision found.price) _ rs e' in
          let s2 = >>=-eq-ok (collect_prices entries symbols) _ rs s1.2 in
          transfer_ok Positive s2.2 (
            parse_price_to_precision-IsPrice found.price s1.0 s1.1,
            collect_prices-Positive entries symbols s2.0 s2.1,
          )
    ]

module _ {W F : Type 0} (web : Web W F) where
  pub parse_ticker_http_result-Positive :
      (response : Result String (ℕ × String)) (symbols : List String) (rs : List (String × ℤ))
      → parse_ticker_http_result web response symbols ≡ ok rs
      → Positive rs
  unfolding parse_ticker_http_result parse_ticker_http_response parse_ticker_response_body
  parse_ticker_http_result-Positive response symbols rs e =
      let s1 = >>=-eq-ok (map_err network_error response) _ rs e in
      let s2 =
        >>=-eq-ok (ensure (s1.0.0 == 200) (http_error s1.0.0 (truncate_error_body s1.0.1))) _ rs
          s1.2 in
      let s3 = >>=-eq-ok (map_err json_error (web.decode_ticker s1.0.1)) _ rs s2.2 in
      collect_prices-Positive (entries_of s3.0) symbols rs s3.2

  pub fetch_spot_prices_with_url-Positive :
      (base_url : String) (symbols : List String) (w : W) (rs : List (String × ℤ))
      → (fetch_spot_prices_with_url web base_url symbols w).0 ≡ ok rs
      → Positive rs
  unfolding fetch_spot_prices_with_url
  fetch_spot_prices_with_url-Positive base_url symbols w rs e =
      parse_ticker_http_result-Positive
        (web.http_get (build_spot_price_url_for web.json_strings base_url symbols) [] none w).0
        symbols rs e
