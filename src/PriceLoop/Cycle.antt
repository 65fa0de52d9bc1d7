-- ===== src/PriceLoop/Cycle.antt =====
-- price_loop.rs: one cycle of the price loop. The requests that the source makes at once are made
-- one after another, in the order of the program.
pub mod Traced
use so4_oracle.Prelude.{
  ℕ, ◌+◌, ◌-◌, ltb, leb, Bool, true, false, ◌||◌, Option, none, some, List, [], ◌∷◌, ◌++◌, String,
  str_eq, is_empty, length, if◌then◌else◌,
}
use so4_oracle.Prelude.Int.{ℤ}
use so4_oracle.Prelude.Map.{Map, lookup, insert}
use so4_oracle.Prelude.Result.{Result, ok, err}
use so4_oracle.Prelude.Text.{concat}
use so4_oracle.Float.{Float}
use so4_oracle.Metrics.{record_price_cycle}
use so4_oracle.Retry.{retry_with_backoff, max_backoff_delay_ms}
use so4_oracle.Rpc
use so4_oracle.Rpc.{RpcError, get_latest_ledger_sequence}
use so4_oracle.Signing.{Signer}
use so4_oracle.State.{Loop, AppState, CachedPrice, PriceCache, CycleStatus}
use so4_oracle.Prices.Median.{Checked}
use so4_oracle.Sources.Token.{TokenConfig, lookup_key}
use so4_oracle.Sources.Web.{Web, PythPriceFeed}
use so4_oracle.Sources.Binance.{fetch_spot_prices_with_url}
use so4_oracle.Sources.Decimal.{BinancePriceError}
use so4_oracle.Sources.Pyth.{PythPriceError, fetch_pyth_prices}
use so4_oracle.PriceLoop.Source.{Batches}
use so4_oracle.PriceLoop.Build.{
  PriceConfig, ErrorContext, context_of, with_metrics, record_error_with_context,
  build_cached_price,
}

-- `CachedPrice::is_stale`: a price from the future counts as stale.
unfoldable pub is_stale : CachedPrice → (stale_after_seconds now : ℕ) → Bool
is_stale p stale_after_seconds now =
    if ltb now p.timestamp then true else leb stale_after_seconds (now - p.timestamp)

-- The local variables of `execute_price_cycle`.
pub record Harvest : Type 0 where
  pub new_prices : Map CachedPrice
  pub tokens_ok : ℕ
  pub tokens_failed : ℕ
  pub tokens_stale : ℕ

pub record Tally : Type 0 where
  pub tokens_ok : ℕ
  pub tokens_failed : ℕ
  pub tokens_stale : ℕ

-- A token with its answer.
abbrev pub Built : Type 0
Built = TokenConfig × Result String CachedPrice

abbrev has_source : String → List String → Bool
has_source name [] = false
has_source name (s ∷ rest) = str_eq s name || has_source name rest

-- The settings of the tokens that use the source, where they are set.
unfoldable pub asked_for :
    (source : String) → (TokenConfig → Option String) → List TokenConfig → List String
asked_for source setting [] = []
asked_for source setting (token ∷ rest) =
    let later = asked_for source setting rest in
    if has_source source token.sources
    then (elim (setting token) [ none ↦ later | some s ↦ s ∷ later ])
    else later

-- `results.into_iter().collect()`, into a map.
unfoldable pub collect_prices : List (String × ℤ) → Map ℤ → Map ℤ
collect_prices [] prices = prices
collect_prices ((symbol, price) ∷ rest) prices = collect_prices rest (insert symbol price prices)

-- `for (key, price) in new_prices { cache.prices.insert(key, price); }`
unfoldable pub insert_all : Map CachedPrice → Map CachedPrice → Map CachedPrice
insert_all [] prices = prices
insert_all ((key, price) ∷ rest) prices = insert_all rest (insert key price prices)

-- With no price at all the cache is cleared.
unfoldable pub write_back : Map CachedPrice → (wall : ℕ) → PriceCache → PriceCache
unfolding insert_all
write_back new_prices wall cache =
    if is_empty new_prices
    then record cache { prices = []; last_updated = none }
    else record cache { prices = insert_all new_prices cache.prices; last_updated = some wall }

module _ {K W F : Type 0} (f : Float F) (web : Web W F) (signer : Signer K)
    (cfg : PriceConfig K) where
  abbrev key_of : TokenConfig → String
  key_of token = lookup_key web.to_lowercase token

  -- LEDGER_SEQUENCE_RETRY_ATTEMPTS = 3, LEDGER_SEQUENCE_RETRY_BASE_DELAY_MS = 100
  unfoldable pub fetch_ledger_seq : W → Result RpcError ℕ × W
  fetch_ledger_seq w =
      retry_with_backoff Rpc.is_retryable web.pause
        (get_latest_ledger_sequence web.http_post web.decode_latest_ledger web.ledger_request) 2 100
        max_backoff_delay_ms w

  -- A batch that fails is an empty map and a flag.
  abbrev pyth_batch : Result (PythPriceError F) (Map PythPriceFeed) → Map PythPriceFeed × Bool
  pyth_batch (ok prices) = (prices, false)
  pyth_batch (err e) = ([], true)

  abbrev binance_batch : Result BinancePriceError (List (String × ℤ)) → Option (Map ℤ)
  binance_batch (ok results) = some (collect_prices results [])
  binance_batch (err e) = none

  unfoldable pub fetch_binance_batch : W → Option (Map ℤ) × W
  fetch_binance_batch w =
      let symbols = asked_for "binance" (λ t. t.binance_symbol) cfg.tokens in
      if is_empty symbols
      then (none, w)
      else let (results, w') = fetch_spot_prices_with_url web cfg.binance_base_url symbols w in
        (binance_batch results, w')

  -- Phase 1: stale entries are counted, and stay.
  unfoldable pub count_stale : ℕ → PriceCache → List TokenConfig → ℕ
  count_stale now cache [] = 0
  count_stale now cache (token ∷ rest) =
      let later = count_stale now cache rest in
      elim (lookup (key_of token) cache.prices) [
        | none ↦ later
        | some p ↦ if is_stale p token.stale_after_seconds now then later + 1 else later
      ]

  -- Phase 2: the answers, in the order of the tokens.
  unfoldable pub build_all : ℕ → Batches → List TokenConfig → Loop W → Checked (List Built × Loop W)
  build_all ledger_seq batches [] s = some ([], s)
  build_all ledger_seq batches (token ∷ rest) s =
      elim (build_cached_price f web signer cfg token ledger_seq batches s) [
        | none ↦ none
        | some (result, s') ↦ elim (build_all ledger_seq batches rest s') [
          | none ↦ none
          | some (results, s'') ↦ some ((token, result) ∷ results, s'')
        ]
      ]

  -- What becomes of a token whose price could not be built.
  unfoldable pub keep_cached : TokenConfig → ℕ → Option CachedPrice → Harvest → Harvest
  keep_cached token now none h = record h { tokens_failed = h.tokens_failed + 1 }
  keep_cached token now (some cached) h =
      if is_stale cached token.stale_after_seconds now
      then record h { tokens_stale = h.tokens_stale + 1; tokens_failed = h.tokens_failed + 1 }
      else record h {
        new_prices = insert (key_of token) cached h.new_prices;
        tokens_ok = h.tokens_ok + 1;
      }

  unfoldable pub settle_token : ℕ → Built → Harvest → Loop W → Harvest × Loop W
  settle_token ledger_seq (token, ok price) h s = (
    record h { new_prices = insert (key_of token) price h.new_prices; tokens_ok = h.tokens_ok + 1 },
    s,
  )
  settle_token ledger_seq (token, err error) h s =
      let s' =
        record_error_with_context f web signer cfg (concat ("price:" ∷ token.symbol ∷ [])) error
          (context_of token ledger_seq) s in
      (keep_cached token (web.now s'.world) (lookup (key_of token) s'.app.price_cache.prices) h, s')

  -- `for (key, token, result) in results`
  unfoldable pub settle_all : ℕ → List Built → Harvest → Loop W → Harvest × Loop W
  settle_all ledger_seq [] h s = (h, s)
  settle_all ledger_seq (b ∷ rest) h s =
      let (h', s') = settle_token ledger_seq b h s in settle_all ledger_seq rest h' s'

  abbrev pub with_world : W → Loop W → Loop W
  with_world w s = record s { world = w }

  abbrev pub with_cache : PriceCache → Loop W → Loop W
  with_cache cache s = record s { app = record s.app { price_cache = cache } }

  abbrev tally_of : Harvest → Tally
  tally_of h = record {
    tokens_ok = h.tokens_ok;
    tokens_failed = h.tokens_failed;
    tokens_stale = h.tokens_stale;
  }

  -- Behind the last answer: the results are settled and the cache is written.
  unfoldable pub finish_prices : ℕ → (tokens_stale : ℕ) → List Built → Loop W → Tally × Loop W
  finish_prices ledger_seq tokens_stale results s =
      let start : Harvest = record {
        new_prices = [];
        tokens_ok = 0;
        tokens_failed = 0;
        tokens_stale = tokens_stale;
      } in
      let (h, s') = settle_all ledger_seq results start s in
      (tally_of h, with_cache (write_back h.new_prices (web.wall s'.world) s'.app.price_cache) s')

  abbrev batches_of : Result (PythPriceError F) (Map PythPriceFeed) → Option (Map ℤ) → Batches
  batches_of pyth_result binance_prices = record {
    pyth_prices = (pyth_batch pyth_result).0;
    pyth_batch_failed = (pyth_batch pyth_result).1;
    binance_prices = binance_prices;
  }

  -- Behind the ledger sequence; `now` is the clock at the start of the cycle.
  unfoldable pub fetch_tokens :
      (now ledger_seq : ℕ)
      → Result (PythPriceError F) (Map PythPriceFeed)
      → Loop W
      → Checked (Tally × Loop W)
  fetch_tokens now ledger_seq pyth_result s =
      let (binance_prices, w) = fetch_binance_batch s.world in
      let stale = count_stale now s.app.price_cache cfg.tokens in
      elim (build_all ledger_seq (batches_of pyth_result binance_prices) cfg.tokens
        (with_world w s)) [
          | none ↦ none
          | some (results, s') ↦ some (finish_prices ledger_seq stale results s')
        ]

  unfoldable pub execute_price_cycle : Loop W → Checked (Tally × Loop W)
  execute_price_cycle s =
      let now = web.now s.world in
      let pyth_feed_ids = asked_for "pyth" (λ t. t.pyth_feed_id) cfg.tokens in
      let (ledger_result, w1) = fetch_ledger_seq s.world in
      let (pyth_result, w2) = fetch_pyth_prices web pyth_feed_ids cfg.pyth_api_key w1 in
      elim ledger_result [
        | err error ↦ some (
          record { tokens_ok = 0; tokens_failed = 1; tokens_stale = 0 },
          record_error_with_context f web signer cfg "get_latest_ledger" (Rpc.display error)
              (record { token = ""; symbol = ""; ledger_seq = 0 }) (with_world w2 s),
        )
        | ok ledger_seq ↦ fetch_tokens now ledger_seq pyth_result (with_world w2 s)
      ]

  abbrev with_status : CycleStatus → Loop W → Loop W
  with_status status s = record s { app = record s.app { cycle_status = status } }

  unfoldable pub finish_cycle : (latency_ms tokens_ok tokens_failed : ℕ) → Loop W → Loop W
  finish_cycle latency_ms tokens_ok tokens_failed s =
      with_metrics (record_price_cycle latency_ms tokens_ok tokens_failed (web.now s.world)) (
        with_status
          (record s.app.cycle_status {
            price_cycle_running = false;
            last_price_cycle_at = some (web.wall s.world);
          })
          s)

  abbrev finish : ℕ → Tally × Loop W → Loop W
  finish latency_ms (t, s) = finish_cycle latency_ms t.tokens_ok t.tokens_failed s

  -- `cut` is the state in which the timeout of 60 seconds has dropped the cycle, where it has.
  unfoldable pub run_price_cycle :
      (cut : Option (Loop W)) → (latency_ms : ℕ) → Loop W → Checked (Loop W)
  run_price_cycle cut latency_ms s =
      let begun = with_status (record s.app.cycle_status { price_cycle_running = true }) s in
      elim cut [
        | some dropped ↦ some (finish_cycle latency_ms 0 (length cfg.tokens) dropped)
        | none ↦ elim (execute_price_cycle begun) [
          | none ↦ none
          | some result ↦ some (finish latency_ms result)
        ]
      ]
