-- ===== src/PriceLoop/Build.antt =====
-- price_loop.rs: the price of one token, from its sources to the signed entry.
pub mod Answers
pub mod Signed
use so4_oracle.Prelude.{ℕ, ◌/◌, ◌^◌, Option, none, some, List, [], ◌∷◌, ◌++◌, String}
use so4_oracle.Prelude.Int.{ℤ, pos}
use so4_oracle.Prelude.Result.{Result, ok, err, ◌>>=◌, map_err}
use so4_oracle.Prelude.Text.{concat}
use so4_oracle.Float.{Float}
use so4_oracle.Metrics.{
  Metrics, record_token_source_fetch_failure, record_token_source_outlier_rejection,
}
use so4_oracle.Signing
use so4_oracle.Signing.{Signer, sign_price, sign_price_with_key}
use so4_oracle.State.{Loop, CachedPrice, FailedSubmission}
use so4_oracle.State.Ring
use so4_oracle.Prices.Median.{Checked}
use so4_oracle.Prices.Aggregate.{AggregatedPrice, RejectedSource, aggregate_prices}
use so4_oracle.Sources.Token.{TokenConfig, shown_symbol}
use so4_oracle.Sources.Web.{Web}
use so4_oracle.PriceLoop.Source
use so4_oracle.PriceLoop.Source.{
  PriceSourceError, PriceWithObservationTime, Batches, fetch_source_with_retry,
}

-- The part of `Config` that the price loop reads, and the key that was decoded at the start.
pub record PriceConfig (K : Type 0) : Type 0 where
  pub tokens : List TokenConfig
  pub binance_base_url : String
  pub coinbase_base_url : String
  pub pyth_api_key : Option String
  pub network : String
  pub network_passphrase : String
  pub keeper_index : ℕ
  pub keeper_private_key : String
  pub price_signing_key : Option K

-- What the sources have given so far, in their order.
pub record Observations : Type 0 where
  pub prices : List ℤ
  pub sources : List String
  pub observation_times : List ℕ

abbrev pub no_observations : Observations
no_observations = record { prices = []; sources = []; observation_times = [] }

-- ErrorContext
pub record ErrorContext : Type 0 where
  pub token : String
  pub symbol : String
  pub ledger_seq : ℕ

abbrev pub context_of : TokenConfig → ℕ → ErrorContext
context_of token ledger_seq = record {
  token = token.stellar_address;
  symbol = token.symbol;
  ledger_seq = ledger_seq;
}

abbrev pub push_observation : String → PriceWithObservationTime → Observations → Observations
push_observation source p obs = record {
  prices = obs.prices ++ (p.price ∷ []);
  sources = obs.sources ++ (source ∷ []);
  observation_times = obs.observation_times ++ (p.observation_time ∷ []);
}

abbrev pub with_metrics : {W : Type 0} → (Metrics → Metrics) → Loop W → Loop W
with_metrics g s = record s { app = record s.app { metrics = g s.app.metrics } }

module _ {K W F : Type 0} (f : Float F) (web : Web W F) (signer : Signer K)
    (cfg : PriceConfig K) where
  unfoldable pub record_error_with_context :
      (operation error : String) → ErrorContext → Loop W → Loop W
  record_error_with_context operation error ctx s =
      let entry : FailedSubmission = record {
        at = web.wall s.world;
        operation = operation;
        network = cfg.network;
        token = ctx.token;
        symbol = ctx.symbol;
        min_price = pos 0;
        max_price = pos 0;
        tx_hash = none;
        error = error;
        timestamp = web.now s.world;
        ledger_seq = ctx.ledger_seq;
      } in
      record s { app = record s.app { failures = Ring.push s.app.failures entry } }

  -- What a source's answer leaves: an observation, or a failure on record.
  unfoldable pub observe :
      TokenConfig
      → ℕ
      → (source : String) → Result (PriceSourceError F) PriceWithObservationTime
      → Observations
      → Loop W
      → Observations × Loop W
  observe token ledger_seq source (ok p) obs s = (push_observation source p obs, s)
  observe token ledger_seq source (err e) obs s =
      let operation = concat ("source:" ∷ token.symbol ∷ ":" ∷ source ∷ []) in
      let counted =
        with_metrics
          (record_token_source_fetch_failure token.symbol token.stellar_address source
            (web.now s.world))
          s in
      (
        obs,
        record_error_with_context operation (Source.display web.show_bps e)
            (context_of token ledger_seq) counted,
      )

  -- `for source in &token.sources`
  unfoldable pub collect_sources :
      TokenConfig → ℕ → Batches → List String → Observations → Loop W → Observations × Loop W
  collect_sources token ledger_seq batches [] obs s = (obs, s)
  collect_sources token ledger_seq batches (source ∷ rest) obs s =
      let (answer, w) =
        fetch_source_with_retry f web cfg.pyth_api_key cfg.coinbase_base_url batches source token
          s.world in
      let (obs', s') = observe token ledger_seq source answer obs (record s { world = w }) in
      collect_sources token ledger_seq batches rest obs' s'

  unfoldable pub record_rejections : TokenConfig → List (RejectedSource F) → Loop W → Loop W
  record_rejections token [] s = s
  record_rejections token (r ∷ rest) s = record_rejections token rest (
      with_metrics
        (record_token_source_outlier_rejection token.symbol token.stellar_address r.source
          (web.now s.world))
        s)

  -- With the key that was decoded at the start, or else with the text of the key, whose error is the
  -- token's.
  unfoldable pub signature_of : TokenConfig → ℕ → AggregatedPrice F → Result String (List ℕ)
  signature_of token ledger_seq a = elim cfg.price_signing_key [
    | some key ↦ ok (
        sign_price_with_key signer key cfg.network_passphrase ledger_seq token.stellar_address
          a.min_price a.max_price a.min_observation_time)
    | none ↦ map_err Signing.display (
        sign_price signer cfg.keeper_private_key cfg.network_passphrase ledger_seq
          token.stellar_address a.min_price a.max_price a.min_observation_time)
  ]

  -- The timestamp is that of the oldest observation.
  unfoldable pub signed_cached_price :
      TokenConfig → ℕ → AggregatedPrice F → Result String CachedPrice
  signed_cached_price token ledger_seq a = do
    signature ← signature_of token ledger_seq a
    ok (record {
      token_address = token.stellar_address;
      symbol = token.symbol;
      display_symbol = shown_symbol token;
      keeper_index = cfg.keeper_index;
      min_price = a.min_price;
      max_price = a.max_price;
      median = a.median;
      timestamp = a.min_observation_time;
      ledger_seq = ledger_seq;
      sources_used = a.sources_used;
      signature = signer.hex_encode signature;
    })

  -- `none` is a panic inside the aggregation.
  unfoldable pub build_cached_price :
      TokenConfig → ℕ → Batches → Loop W → Checked (Result String CachedPrice × Loop W)
  build_cached_price token ledger_seq batches s =
      let (obs, s') = collect_sources token ledger_seq batches token.sources no_observations s in
      elim (aggregate_prices f obs.prices obs.sources obs.observation_times token.min_sources
        token.max_deviation_bps) [
          | none ↦ none
          | some (err e) ↦ some (err e, s')
          | some (ok a) ↦ some (
            signed_cached_price token ledger_seq a,
            record_rejections token a.rejected_sources s',
          )
        ]
