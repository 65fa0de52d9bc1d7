-- ===== src/Sources/Web.antt =====
-- What the price sources answer, and what the sources call outside the repository.
use so4_oracle.Prelude.{ℕ, Option, List, String}
use so4_oracle.Prelude.Int.{ℤ}
use so4_oracle.Prelude.Map.{Map}
use so4_oracle.Prelude.Result.{Result}
use so4_oracle.Retry.{Pause}
use so4_oracle.Rpc.{JsonRpcResponse}
use so4_oracle.Sources.Decimal.{BinancePriceError}

pub record BinanceTickerEntry : Type 0 where
  pub symbol : String
  pub price : String

pub data BinanceTickerResponse : Type 0 where
  single : BinanceTickerEntry → BinanceTickerResponse
  many : List BinanceTickerEntry → BinanceTickerResponse

pub record CoinbaseResponseData : Type 0 where
  pub currency : String
  pub rates : Map String

pub record PythPriceData : Type 0 where
  pub price : String
  pub conf : Option String
  pub expo : ℤ
  pub publish_time : Option ℤ

pub record PythPriceFeed : Type 0 where
  pub id : String
  pub price : PythPriceData

-- An array of feeds, or one feed under `data`.
pub data HermesResponse : Type 0 where
  array : List PythPriceFeed → HermesResponse
  wrapped : PythPriceFeed → HermesResponse

-- `http_get url query bearer` answers a status and a body, or a transport error. `now` is in seconds
-- and `wall` in nanoseconds. `ledger_request` is the serialised `getLatestLedger` call. The `decode_*` are `serde_json::from_str` at the reply's type, and
-- `json_strings` is `serde_json::to_string`; `debug_binance` and `show_bps` (`{:.2}` of an `f64`)
-- are the standard library's, as is the change of case.
pub record Web (W F : Type 0) : Type 0 where
  pub http_get :
      String → List (String × String) → Option String → W → Result String (ℕ × String) × W
  pub now : W → ℕ
  pub wall : W → ℕ
  pub pause : Pause W
  pub http_post : String → W → Result String (ℕ × String) × W
  pub ledger_request : Result String String
  pub decode_latest_ledger : String → Result String (JsonRpcResponse ℕ)
  pub decode_ticker : String → Result String BinanceTickerResponse
  pub decode_rates : String → Result String CoinbaseResponseData
  pub decode_feeds : String → Result String HermesResponse
  pub json_strings : List String → String
  pub debug_binance : BinancePriceError → String
  pub show_bps : F → String
  pub to_uppercase : String → String
  pub to_lowercase : String → String
