-- ===== src/Metrics.antt =====
-- metrics.rs: the counters that the two loops keep. The counts are taken to stay below 2^64. The
-- counters of HTTP requests stand in Metrics.Http.
pub mod Http
pub mod Labels
use so4_oracle.Prelude.{ℕ, ◌+◌, Bool, ◌&&◌, List, [], ◌∷◌, String, str_eq, if◌then◌else◌}

pub record TokenSourceLabels : Type 0 where
  pub symbol : String
  pub token : String
  pub source : String

pub record Counters : Type 0 where
  pub price_cycle_count : ℕ
  pub price_cycle_latency_ms : ℕ
  pub token_fetch_ok : ℕ
  pub token_fetch_failures : ℕ
  pub keeper_cycle_count : ℕ
  pub keeper_cycle_latency_ms : ℕ
  pub orders_executed : ℕ
  pub deposits_executed : ℕ
  pub withdrawals_executed : ℕ
  pub submit_failures : ℕ
  pub keeper_balance_low_count : ℕ
  pub prices_stale_count : ℕ
  pub last_metrics_update : ℕ

pub record Metrics : Type 0 where
  pub counters : Counters
  pub token_source_fetch_failures : List (TokenSourceLabels × ℕ)
  pub token_source_outlier_rejections : List (TokenSourceLabels × ℕ)

pub record KeeperCycleTally : Type 0 where
  pub orders : ℕ
  pub deposits : ℕ
  pub withdrawals : ℕ
  pub errors : ℕ
  pub keeper_balance_low : Bool
  pub prices_stale : Bool

-- `*map.entry(labels).or_insert(0) += 1`
unfoldable pub bump_label :
    TokenSourceLabels → List (TokenSourceLabels × ℕ) → List (TokenSourceLabels × ℕ)
bump_label l [] = (l, 1) ∷ []
bump_label l ((m, n) ∷ rest) =
    let later = bump_label l rest in
    if str_eq m.symbol l.symbol && str_eq m.token l.token && str_eq m.source l.source
    then (m, n + 1) ∷ rest
    else (m, n) ∷ later

abbrev pub bump_if : Bool → ℕ → ℕ
bump_if b n = if b then n + 1 else n

-- `now` is the clock in seconds.
abbrev stamp : ℕ → Counters → Counters
stamp now c = record c { last_metrics_update = now }

unfoldable pub record_price_cycle : (latency_ms tokens_ok tokens_failed now : ℕ) → Metrics → Metrics
record_price_cycle latency_ms tokens_ok tokens_failed now m =
    let c = m.counters in
    record m {
      counters = stamp now (record c {
        price_cycle_count = c.price_cycle_count + 1;
        price_cycle_latency_ms = latency_ms;
        token_fetch_ok = c.token_fetch_ok + tokens_ok;
        token_fetch_failures = c.token_fetch_failures + tokens_failed;
      });
    }

unfoldable pub record_keeper_cycle :
    (latency_ms : ℕ) → KeeperCycleTally → (now : ℕ) → Metrics → Metrics
record_keeper_cycle latency_ms tally now m =
    let c = m.counters in
    record m {
      counters = stamp now (record c {
        keeper_cycle_count = c.keeper_cycle_count + 1;
        keeper_cycle_latency_ms = latency_ms;
        orders_executed = c.orders_executed + tally.orders;
        deposits_executed = c.deposits_executed + tally.deposits;
        withdrawals_executed = c.withdrawals_executed + tally.withdrawals;
        submit_failures = c.submit_failures + tally.errors;
        keeper_balance_low_count = bump_if tally.keeper_balance_low c.keeper_balance_low_count;
        prices_stale_count = bump_if tally.prices_stale c.prices_stale_count;
      });
    }

unfoldable pub record_submit_failure : (now : ℕ) → Metrics → Metrics
record_submit_failure now m =
    let c = m.counters in
    record m { counters = stamp now (record c { submit_failures = c.submit_failures + 1 }) }

unfoldable pub record_token_source_fetch_failure :
    (symbol token source : String) → (now : ℕ) → Metrics → Metrics
record_token_source_fetch_failure symbol token source now m = record m {
  token_source_fetch_failures =
      bump_label (record { symbol = symbol; token = token; source = source })
        m.token_source_fetch_failures;
  counters = stamp now m.counters;
}

unfoldable pub record_token_source_outlier_rejection :
    (symbol token source : String) → (now : ℕ) → Metrics → Metrics
record_token_source_outlier_rejection symbol token source now m = record m {
  token_source_outlier_rejections =
      bump_label (record { symbol = symbol; token = token; source = source })
        m.token_source_outlier_rejections;
  counters = stamp now m.counters;
}
