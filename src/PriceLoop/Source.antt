-- ===== src/PriceLoop/Source.antt =====
-- price_loop.rs: one price of one source, with its retries.
pub mod Positive
use so4_oracle.Prelude.{
  ℕ, Bool, true, false, Option, none, some, List, [], ◌∷◌, String, str_eq, if◌then◌else◌,
}
use so4_oracle.Prelude.Int.{ℤ}
use so4_oracle.Prelude.Map.{Map, lookup, remove}
use so4_oracle.Prelude.Result.{Result, ok, err, ◌>>=◌, ok_or, map_err, map_ok}
use so4_oracle.Prelude.Text.{concat}
use so4_oracle.Float.{Float}
use so4_oracle.Retry.{retry_with_backoff, max_backoff_delay_ms}
use so4_oracle.Sources.Token.{TokenConfig}
use so4_oracle.Sources.Web.{Web, PythPriceFeed}
use so4_oracle.Sources.Decimal.{BinancePriceError}
use so4_oracle.Sources.Binance
use so4_oracle.Sources.Binance.{binance_ticker_price_url, fetch_spot_prices_with_url}
use so4_oracle.Sources.Coinbase
use so4_oracle.Sources.Coinbase.{CoinbasePriceError, fetch_spot_price_with_url}
use so4_oracle.Sources.Pyth
use so4_oracle.Sources.Pyth.{
  PythPriceError, PriceWithTimestamp, fetch_pyth_prices, validate_pyth_price,
}
use so4_oracle.Sources.Fixed
use so4_oracle.Sources.Fixed.{FixedPriceError, configured_price}

pub record PriceWithObservationTime : Type 0 where
  pub price : ℤ
  pub observation_time : ℕ

pub data PriceSourceError (F : Type 0) : Type 0 where
  binance : BinancePriceError → PriceSourceError F
  coinbase : CoinbasePriceError → PriceSourceError F
  pyth : PythPriceError F → PriceSourceError F
  fixed : FixedPriceError → PriceSourceError F
  config : String → PriceSourceError F
  unsupported : String → PriceSourceError F

module _ {F : Type 0} where
  unfoldable pub display : (F → String) → PriceSourceError F → String
  display show_bps (binance e) = Binance.display e
  display show_bps (coinbase e) = Coinbase.display e
  display show_bps (pyth e) = Pyth.display show_bps e
  display show_bps (fixed e) = Fixed.display e
  display show_bps (config msg) = concat ("config error: " ∷ msg ∷ [])
  display show_bps (unsupported source) = concat ("unsupported source: " ∷ source ∷ [])

  unfoldable pub is_retryable : PriceSourceError F → Bool
  is_retryable (binance e) = Binance.is_retryable e
  is_retryable (coinbase e) = Coinbase.is_retryable e
  is_retryable (pyth e) = Pyth.is_retryable e
  is_retryable (fixed e) = Fixed.is_retryable e
  is_retryable (config msg) = false
  is_retryable (unsupported source) = false

abbrev pub observed : ℕ → ℤ → PriceWithObservationTime
observed now price = record { price = price; observation_time = now }

abbrev find_price : String → List (String × ℤ) → Option ℤ
find_price symbol [] = none
find_price symbol ((s, p) ∷ rest) = if str_eq s symbol then some p else find_price symbol rest

-- What the sources of one cycle share: the batches that were fetched at its start. `binance_prices`
-- is `none` where the batch failed or none was made.
pub record Batches : Type 0 where
  pub pyth_prices : Map PythPriceFeed
  pub pyth_batch_failed : Bool
  pub binance_prices : Option (Map ℤ)

module _ {W F : Type 0} (f : Float F) (web : Web W F) (pyth_api_key : Option String)
    (coinbase_base_url : String) where
  abbrev Answer : Type 0
  Answer = Result (PriceSourceError F) PriceWithObservationTime

  unfoldable pub from_binance : ℕ → Option (Map ℤ) → String → W → Answer × W
  from_binance now (some prices) symbol w = (
    map_ok (observed now) (
        ok_or (lookup symbol prices)
          (config (concat ("binance symbol not returned in batch: " ∷ symbol ∷ [])))),
    w,
  )
  from_binance now none symbol w =
      let (results, w') = fetch_spot_prices_with_url web binance_ticker_price_url (symbol ∷ []) w in
      (
        do
          rs ← map_err binance results
          map_ok (observed now) (
              ok_or (find_price symbol rs)
                (config (concat ("binance symbol not returned: " ∷ symbol ∷ [])))),
        w',
      )

  unfoldable pub from_coinbase : ℕ → String → W → Answer × W
  from_coinbase now symbol w =
      let (result, w') = fetch_spot_price_with_url web coinbase_base_url symbol w in
      (map_ok (observed now) (map_err coinbase result), w')

  unfoldable pub from_feed : ℕ → TokenConfig → PythPriceFeed → Answer
  from_feed now token feed =
      map_ok (λ (r : PriceWithTimestamp). observed r.observation_time r.price)
        (map_err pyth (
          validate_pyth_price f feed.price now token.stale_after_seconds
            token.pyth_max_confidence_bps))

  -- A feed that is not in the batch is asked for by itself, unless the batch has failed.
  unfoldable pub from_pyth : ℕ → Batches → TokenConfig → String → W → Answer × W
  unfolding from_feed
  from_pyth now batches token feed_id w = elim (lookup feed_id batches.pyth_prices) [
    | some feed ↦ (from_feed now token feed, w)
    | none ↦
        if batches.pyth_batch_failed
        then (
          err (
              pyth (
                PythPriceError.network_error "batch request failed, skipping individual fallback")),
          w,
        )
        else let (feeds, w') = fetch_pyth_prices web (feed_id ∷ []) pyth_api_key w in
          (
            do
              all ← map_err pyth feeds
              feed ← ok_or (lookup feed_id all) (pyth (PythPriceError.missing_feed_id feed_id))
              from_feed now token feed,
            w',
          )
  ]

  -- A source that needs a setting of the token reports that it is missing.
  abbrev with_setting : Option String → String → (String → W → Answer × W) → W → Answer × W
  with_setting none missing g w = (err (config missing), w)
  with_setting (some s) missing g w = g s w

  unfoldable pub fetch_source_price : Batches → String → TokenConfig → W → Answer × W
  fetch_source_price batches source token w =
      let now = web.now w in
      if str_eq source "binance"
      then with_setting token.binance_symbol "missing binance_symbol"
          (from_binance now batches.binance_prices) w
      else if str_eq source "coinbase"
      then with_setting token.coinbase_symbol "missing coinbase_symbol" (from_coinbase now) w
      else if str_eq source "pyth"
      then with_setting token.pyth_feed_id "missing pyth_feed_id" (from_pyth now batches token) w
      else if str_eq source "fixed"
      then (map_ok (observed now) (map_err fixed (configured_price token)), w)
      else (err (unsupported source), w)

  -- SOURCE_RETRY_ATTEMPTS = 3, SOURCE_RETRY_BASE_DELAY_MS = 100
  unfoldable pub fetch_source_with_retry : Batches → String → TokenConfig → W → Answer × W
  fetch_source_with_retry batches source token w =
      retry_with_backoff is_retryable web.pause (fetch_source_price batches source token) 2 100
        max_backoff_delay_ms w
