-- ===== src/Sources/Coinbase.antt =====
-- coinbase.rs: the price of one currency in US dollars, from the exchange rates of Coinbase.
pub mod Positive
use so4_oracle.Prelude.{
  ℕ, ◌==◌, ◌||◌, Bool, true, false, Option, none, some, List, [], ◌∷◌, String, str_eq,
  if◌then◌else◌,
}
use so4_oracle.Prelude.Int.{ℤ}
use so4_oracle.Prelude.Map.{lookup}
use so4_oracle.Prelude.Result.{Result, ok, err, ◌>>=◌, ◌>>◌, ensure, ok_or, map_err}
use so4_oracle.Prelude.Text.{concat, contains, strip_suffix, trim_end_matches}
use so4_oracle.Rpc.{truncate_error_body}
use so4_oracle.Sources.Decimal.{BinancePriceError, parse_price_to_precision}
use so4_oracle.Sources.Binance.{http_text, is_transient}
use so4_oracle.Sources.Web.{Web}

pub data CoinbasePriceError : Type 0 where
  network_error : String → CoinbasePriceError
  http_error : ℕ → String → CoinbasePriceError
  json_error : String → CoinbasePriceError
  price_parse_error : String → CoinbasePriceError
  missing_usd_rate : CoinbasePriceError
  currency_mismatch : (expected got : String) → CoinbasePriceError

unfoldable pub display : CoinbasePriceError → String
display (network_error e) = concat ("Coinbase network error: " ∷ e ∷ [])
display (http_error status body) = http_text "Coinbase" status body
display (json_error e) = concat ("invalid Coinbase response: " ∷ e ∷ [])
display (price_parse_error e) = concat ("invalid Coinbase price: " ∷ e ∷ [])
display missing_usd_rate = "Coinbase response has no USD rate"
display (currency_mismatch expected got) =
    concat ("Coinbase currency mismatch: expected '" ∷ expected ∷ "', got '" ∷ got ∷ "'" ∷ [])

unfoldable pub is_retryable : CoinbasePriceError → Bool
is_retryable (network_error e) = true
is_retryable (http_error status body) = is_transient status
is_retryable (json_error e) = false
is_retryable (price_parse_error e) = false
is_retryable missing_usd_rate = false
is_retryable (currency_mismatch expected got) = false

-- "BTCUSDT" and "BTCUSD" are asked for as "BTC"; a symbol that is only a suffix stays as it is.
unfoldable pub base_currency : String → String
base_currency symbol =
    let shorter : Option String = elim (strip_suffix symbol "USDT") [
      | some s ↦ some s
      | none ↦ strip_suffix symbol "USD"
    ] in
    elim shorter [ none ↦ symbol | some s ↦ if str_eq s "" then symbol else s ]

-- The URL with its query, which is left to the HTTP client where the base is the rates' own.
unfoldable pub request_for : (base_url currency : String) → String × List (String × String)
request_for base_url currency =
    if contains base_url "currency=" || contains base_url "exchange-rates"
    then (
      trim_end_matches (trim_end_matches base_url "?currency=") "&currency=",
      ("currency", currency) ∷ [],
    )
    else (concat (base_url ∷ currency ∷ []), [])

-- The error of the decimal parser in this module's terms.
unfoldable pub remap : (BinancePriceError → String) → BinancePriceError → CoinbasePriceError
remap debug (BinancePriceError.price_parse_error msg) = price_parse_error msg
remap debug (BinancePriceError.network_error e) =
    price_parse_error
      (concat ("unexpected parse error: " ∷ debug (BinancePriceError.network_error e) ∷ []))
remap debug (BinancePriceError.http_error status body) =
    price_parse_error
      (concat ("unexpected parse error: " ∷ debug (BinancePriceError.http_error status body) ∷ []))
remap debug (BinancePriceError.json_error e) =
    price_parse_error
      (concat ("unexpected parse error: " ∷ debug (BinancePriceError.json_error e) ∷ []))

module _ {W F : Type 0} (web : Web W F) where
  unfoldable pub parse_coinbase_response_body :
      (body expected_currency : String) → Result CoinbasePriceError ℤ
  parse_coinbase_response_body body expected_currency = do
    resp ← map_err json_error (web.decode_rates body)
    ensure (str_eq (web.to_uppercase resp.currency) (web.to_uppercase expected_currency))
        (currency_mismatch expected_currency resp.currency)
    usd_price ← ok_or (lookup "USD" resp.rates) missing_usd_rate
    map_err (remap web.debug_binance) (parse_price_to_precision usd_price)

  unfoldable pub parse_coinbase_http_response :
      ℕ → (body expected_currency : String) → Result CoinbasePriceError ℤ
  unfolding parse_coinbase_response_body
  parse_coinbase_http_response status body expected_currency = do
    ensure (status == 200) (http_error status (truncate_error_body body))
    parse_coinbase_response_body body expected_currency

  unfoldable pub parse_coinbase_http_result :
      Result String (ℕ × String) → String → Result CoinbasePriceError ℤ
  unfolding parse_coinbase_http_response
  parse_coinbase_http_result response expected_currency = do
    reply ← map_err network_error response
    parse_coinbase_http_response reply.0 reply.1 expected_currency

  unfoldable pub fetch_spot_price_with_url :
      (base_url symbol : String) → W → Result CoinbasePriceError ℤ × W
  fetch_spot_price_with_url base_url symbol w =
      let currency = base_currency symbol in
      let (url, query) = request_for base_url currency in
      let (response, w') = web.http_get url query none w in
      (parse_coinbase_http_result response currency, w')
