-- ===== src/PriceLoop/Source/Positive.antt =====
-- price_loop.rs: whatever the network answers, a source gives a positive price or an error.
use so4_oracle.Prelude.{
  ℕ, ◌≡◌, refl, Bool-cases, Option-cases, inl, inr, Bool, true, false, Option, none, some, List, [],
  ◌∷◌, String, str_eq, if◌then◌else◌, arith,
}
use so4_oracle.Prelude.Int.{ℤ}
use so4_oracle.Prelude.Map.{Map, lookup}
use so4_oracle.Prelude.Result.{Result, ok, err, ok_or, map_err, map_ok, Result-cases}
use so4_oracle.Float.{Float}
use so4_oracle.Retry.Bounds.{retry_with_backoff-result}
use so4_oracle.Retry.{max_backoff_delay_ms}
use so4_oracle.Sources.Token.{TokenConfig}
use so4_oracle.Sources.Web.{Web, PythPriceFeed}
use so4_oracle.Sources.Price.{IsPrice}
use so4_oracle.Sources.Binance.{binance_ticker_price_url, fetch_spot_prices_with_url}
use so4_oracle.Sources.Binance.Positive.{Positive, fetch_spot_prices_with_url-Positive}
use so4_oracle.Sources.Coinbase.{
  parse_coinbase_http_result, fetch_spot_price_with_url, base_currency, request_for,
}
use so4_oracle.Sources.Coinbase.Positive.{parse_coinbase_http_result-IsPrice}
use so4_oracle.Sources.Pyth.{fetch_pyth_prices, validate_pyth_price}
use so4_oracle.Sources.Pyth.Fresh.{validate_pyth_price-IsFresh}
use so4_oracle.Sources.Fixed.{configured_price}
use so4_oracle.Sources.Fixed.Positive.{configured_price-IsPrice}
use so4_oracle.PriceLoop.Source.{
  PriceSourceError, PriceWithObservationTime, Batches, observed, find_price, from_binance,
  from_coinbase, from_feed, from_pyth, with_setting, fetch_source_price, fetch_source_with_retry,
  coinbase, fixed, is_retryable,
}

-- An error, or a price that is positive and fits.
abbrev pub Good : {E : Type 0} → Result E PriceWithObservationTime → Type 0
Good (ok r) = IsPrice r.price
Good (err e) = Unit

abbrev pub GoodPrice : {E : Type 0} → Result E ℤ → Type 0
GoodPrice (ok p) = IsPrice p
GoodPrice (err e) = Unit

GoodPrice-intro : {E : Type 0} (r : Result E ℤ) → ((p : ℤ) → r ≡ ok p → IsPrice p) → GoodPrice r
GoodPrice-intro (ok p) h = h p refl
GoodPrice-intro (err e) h = tt

-- The two last steps of most sources: the time is added, and the error is wrapped.
Good-observed :
    {E D : Type 0} (now : ℕ) (g : E → D) (r : Result E ℤ)
    → GoodPrice r
    → Good (map_ok (observed now) (map_err g r))
Good-observed now g (ok p) h = h
Good-observed now g (err e) h = tt

Good-ok_or :
    {D : Type 0} (now : ℕ) (e : D) (o : Option ℤ)
    → ((p : ℤ) → o ≡ some p → IsPrice p)
    → Good (map_ok (observed now) (ok_or o e))
Good-ok_or now e none h = tt
Good-ok_or now e (some p) h = h p refl

find_price-Positive :
    (symbol : String) (rs : List (String × ℤ)) (p : ℤ)
    → Positive rs
    → find_price symbol rs ≡ some p
    → IsPrice p
find_price-Positive symbol [] p h e = absurd (ground arith)
find_price-Positive symbol ((s, q) ∷ rest) p h e =
    ground (arith, find_price-Positive symbol rest p h.1)

-- The prices of a Binance batch are positive.
abbrev pub PositiveBatch : Option (Map ℤ) → Type 0
PositiveBatch none = Unit
PositiveBatch (some prices) = (symbol : String) (p : ℤ) → lookup symbol prices ≡ some p → IsPrice p

Good-if :
    {E W : Type 0} (b : Bool) (x y : Result E PriceWithObservationTime × W)
    → Good x.0
    → Good y.0
    → Good (if b then x else y).0
Good-if true x y hx hy = hx
Good-if false x y hx hy = hy

module _ {W F : Type 0} (f : Float F) (web : Web W F) (pyth_api_key : Option String)
    (coinbase_base_url : String) where
  from_binance-Good :
      (now : ℕ) (batch : Option (Map ℤ)) (symbol : String) (w : W)
      → PositiveBatch batch
      → Good (from_binance f web pyth_api_key coinbase_base_url now batch symbol w).0
  unfolding from_binance
  from_binance-Good now (some prices) symbol w h =
      Good-ok_or now _ (lookup symbol prices) (h symbol)
  from_binance-Good now none symbol w h =
      let results = (fetch_spot_prices_with_url web binance_ticker_price_url (symbol ∷ []) w).0 in
      elim (Result-cases results) [
        | inl (rs, e) ↦ rw (e) (
            Good-ok_or now _ (find_price symbol rs) (λ p q.
              find_price-Positive symbol rs p
                (fetch_spot_prices_with_url-Positive web binance_ticker_price_url (symbol ∷ []) w rs
                  e)
                q))
        | inr (x, e) ↦ rw (e) tt
      ]

  from_coinbase-Good :
      (now : ℕ) (symbol : String) (w : W)
      → Good (from_coinbase f web pyth_api_key coinbase_base_url now symbol w).0
  unfolding from_coinbase fetch_spot_price_with_url
  from_coinbase-Good now symbol w =
      let currency = base_currency symbol in
      let request = request_for coinbase_base_url currency in
      let reply = (web.http_get request.0 request.1 none w).0 in
      Good-observed now coinbase (parse_coinbase_http_result web reply currency)
        (GoodPrice-intro _ (parse_coinbase_http_result-IsPrice web reply currency))

  from_feed-Good :
      (now : ℕ) (token : TokenConfig) (feed : PythPriceFeed)
      → Good (from_feed f web pyth_api_key coinbase_base_url now token feed)
  unfolding from_feed
  from_feed-Good now token feed =
      elim (Result-cases (
        validate_pyth_price f feed.price now token.stale_after_seconds
          token.pyth_max_confidence_bps)) [
            | inl (r, e) ↦ rw (e) (
                (validate_pyth_price-IsFresh f feed.price now token.stale_after_seconds
                  token.pyth_max_confidence_bps r e).0)
            | inr (x, e) ↦ rw (e) tt
          ]

  from_pyth-Good :
      (now : ℕ) (batches : Batches) (token : TokenConfig) (feed_id : String) (w : W)
      → Good (from_pyth f web pyth_api_key coinbase_base_url now batches token feed_id w).0
  unfolding from_pyth
  from_pyth-Good now batches token feed_id w =
      elim (Option-cases (lookup feed_id batches.pyth_prices)) [
        | inr (feed, e) ↦ rw (e, from_pyth) (from_feed-Good now token feed)
        | inl e ↦ elim (Bool-cases batches.pyth_batch_failed) [
          | inl failed ↦ rw (e, failed, from_pyth) tt
          | inr tried ↦
              let feeds = (fetch_pyth_prices web (feed_id ∷ []) pyth_api_key w).0 in
              elim (Result-cases feeds) [
                | inr (x, q) ↦ rw (e, tried, q, from_pyth) tt
                | inl (all, q) ↦ elim (Option-cases (lookup feed_id all)) [
                  | inl r ↦ rw (e, tried, q, r, from_pyth) tt
                  | inr (feed, r) ↦ rw (e, tried, q, r, from_pyth) (from_feed-Good now token feed)
                ]
              ]
        ]
      ]

  Good-with_setting :
      (setting : Option String) (missing : String)
      (g : String → W → Result (PriceSourceError F) PriceWithObservationTime × W) (w : W)
      → ((s : String) → Good (g s w).0)
      → Good (with_setting f web pyth_api_key coinbase_base_url setting missing g w).0
  Good-with_setting none missing g w h = tt
  Good-with_setting (some s) missing g w h = h s

  fetch_source_price-Good :
      (batches : Batches) (source : String) (token : TokenConfig) (w : W)
      → PositiveBatch batches.binance_prices
      → Good (fetch_source_price f web pyth_api_key coinbase_base_url batches source token w).0
  unfolding fetch_source_price
  fetch_source_price-Good batches source token w h =
      let now = web.now w in
      Good-if (str_eq source "binance") _ _
        (Good-with_setting token.binance_symbol _ _ w
          (λ symbol. from_binance-Good now batches.binance_prices symbol w h))
        (Good-if (str_eq source "coinbase") _ _
          (Good-with_setting token.coinbase_symbol _ _ w
            (λ symbol. from_coinbase-Good now symbol w))
          (Good-if (str_eq source "pyth") _ _
            (Good-with_setting token.pyth_feed_id _ _ w
              (λ feed_id. from_pyth-Good now batches token feed_id w))
            (Good-if (str_eq source "fixed") _ _
              (Good-observed now fixed (configured_price token)
                (GoodPrice-intro _ (configured_price-IsPrice token)))
              tt)))

  -- Where the prices of the Binance batch are positive: whatever the network answers, a source gives
  -- an error, or a price that is positive and fits an `i128`.
  pub fetch_source_with_retry-Good :
      (batches : Batches) (source : String) (token : TokenConfig) (w : W)
      → PositiveBatch batches.binance_prices
      → Good (fetch_source_with_retry f web pyth_api_key coinbase_base_url batches source token w).0
  unfolding fetch_source_with_retry
  fetch_source_with_retry-Good batches source token w h =
      retry_with_backoff-result is_retryable web.pause
        (fetch_source_price f web pyth_api_key coinbase_base_url batches source token) Good 2 100
        max_backoff_delay_ms w (λ v. fetch_source_price-Good batches source token v h)
