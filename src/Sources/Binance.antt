-- ===== src/Sources/Binance.antt =====
-- binance.rs: the spot prices of Binance, many symbols in one request.
pub mod Positive
use so4_oracle.Prelude.{
  ℕ, ◌==◌, ◌||◌, not, leb, Bool, true, false, Option, none, some, List, [], ◌∷◌, String, length,
  str_eq, if◌then◌else◌,
}
use so4_oracle.Prelude.Int.{ℤ}
use so4_oracle.Prelude.Result.{Result, ok, err, ◌>>=◌, ◌>>◌, ensure, map_err}
use so4_oracle.Prelude.Text.{concat, show_nat}
use so4_oracle.Rpc.{show_http, truncate_error_body}
use so4_oracle.Sources.Decimal.{
  BinancePriceError, network_error, http_error, json_error, price_parse_error,
  parse_price_to_precision,
}
use so4_oracle.Sources.Web.{Web, BinanceTickerEntry, BinanceTickerResponse, single, many}

-- BINANCE_TICKER_PRICE_URL
abbrev pub binance_ticker_price_url : String
binance_ticker_price_url = "https://data-api.binance.vision/api/v3/ticker/price"

-- "<name> HTTP <status>", with the body behind a colon if there is one.
abbrev pub http_text : String → ℕ → String → String
http_text name status body = concat (name ∷ " returned " ∷ show_http (show_nat status) body ∷ [])

unfoldable pub display : BinancePriceError → String
display (network_error e) = concat ("Binance network error: " ∷ e ∷ [])
display (http_error status body) = http_text "Binance" status body
display (json_error e) = concat ("invalid Binance response: " ∷ e ∷ [])
display (price_parse_error e) = concat ("invalid Binance price: " ∷ e ∷ [])

-- A status that a later attempt may change.
abbrev pub is_transient : ℕ → Bool
is_transient status = leb 500 status || status == 429

unfoldable pub is_retryable : BinancePriceError → Bool
is_retryable (network_error e) = true
is_retryable (http_error status body) = is_transient status
is_retryable (json_error e) = false
is_retryable (price_parse_error e) = false

abbrev entries_of : BinanceTickerResponse → List BinanceTickerEntry
entries_of (single entry) = entry ∷ []
entries_of (many entries) = entries

abbrev find_entry : String → List BinanceTickerEntry → Option BinanceTickerEntry
find_entry symbol [] = none
find_entry symbol (e ∷ es) = if str_eq e.symbol symbol then some e else find_entry symbol es

-- A symbol that is not in the answer is passed over; a price that does not parse is an error.
unfoldable pub collect_prices :
    List BinanceTickerEntry → List String → Result BinancePriceError (List (String × ℤ))
collect_prices entries [] = ok []
collect_prices entries (symbol ∷ symbols) = elim (find_entry symbol entries) [
  | none ↦ collect_prices entries symbols
  | some found ↦ do
    scaled ← parse_price_to_precision found.price
    rest ← collect_prices entries symbols
    ok ((found.symbol, scaled) ∷ rest)
]

-- A list of one symbol gives a query for one symbol.
abbrev build_spot_price_url_for : (List String → String) → String → List String → String
build_spot_price_url_for json_strings base_url (symbol ∷ []) =
    concat (base_url ∷ "?symbol=" ∷ symbol ∷ [])
build_spot_price_url_for json_strings base_url symbols =
    concat (base_url ∷ "?symbols=" ∷ json_strings symbols ∷ [])

module _ {W F : Type 0} (web : Web W F) where
  unfoldable pub parse_ticker_response_body :
      String → List String → Result BinancePriceError (List (String × ℤ))
  unfolding collect_prices
  parse_ticker_response_body body symbols = do
    response ← map_err json_error (web.decode_ticker body)
    collect_prices (entries_of response) symbols

  unfoldable pub parse_ticker_http_response :
      ℕ → String → List String → Result BinancePriceError (List (String × ℤ))
  unfolding parse_ticker_response_body
  parse_ticker_http_response status body symbols = do
    ensure (status == 200) (http_error status (truncate_error_body body))
    parse_ticker_response_body body symbols

  unfoldable pub parse_ticker_http_result :
      Result String (ℕ × String) → List String → Result BinancePriceError (List (String × ℤ))
  unfolding parse_ticker_http_response
  parse_ticker_http_result response symbols = do
    reply ← map_err network_error response
    parse_ticker_http_response reply.0 reply.1 symbols

  unfoldable pub fetch_spot_prices_with_url :
      String → List String → W → Result BinancePriceError (List (String × ℤ)) × W
  fetch_spot_prices_with_url base_url symbols w =
      let url = build_spot_price_url_for web.json_strings base_url symbols in
      let (response, w') = web.http_get url [] none w in
      (parse_ticker_http_result response symbols, w')
