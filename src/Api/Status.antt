-- ===== src/Api/Status.antt =====
-- api/admin.rs: what the admin's routes show of the two loops and of the keeper's balance. A float is
-- shown as its text.
pub mod Agrees
use mathlib.Core.List.{reverse}
use so4_oracle.Prelude.{
  ℕ, ◌-◌, ◌/◌, ◌^◌, leb, not, Bool, true, false, Option, none, some, List, [], ◌∷◌, map, String,
  take, if◌then◌else◌,
}
use so4_oracle.Prelude.Int.{ℤ}
use so4_oracle.Prelude.Map.{Map}
use so4_oracle.Prelude.Result.{Result, ok, err}
use so4_oracle.Float.{Float}
use so4_oracle.Retry.{retry_with_backoff, max_backoff_delay_ms}
use so4_oracle.Rpc
use so4_oracle.Rpc.{RpcError, balance_below_minimum}
use so4_oracle.State.{
  AppState, CachedPrice, CycleStatus, FailedSubmission, KeeperExecution, KeeperStatus,
}
use so4_oracle.Keeper.Balance.{
  Horizon, KeeperBalanceConfig, check_keeper_balance, spendable_xlm, stroops_per_xlm,
}
use so4_oracle.Api.{ApiError}

-- KEEPER_BALANCE_RETRY_ATTEMPTS is 3; KEEPER_BALANCE_RETRY_BASE_DELAY_MS
abbrev keeper_balance_retry_base_delay_ms : ℕ
keeper_balance_retry_base_delay_ms = 100

-- `system_time_secs`, of a time in nanoseconds since the epoch.
abbrev system_time_secs : ℕ → Option ℕ
system_time_secs t = some (t / 10 ^ 9)

abbrev and_then : {A B : Type 0} → Option A → (A → Option B) → Option B
and_then none g = none
and_then (some a) g = g a

-- `t.elapsed().ok().map(|d| d.as_secs())`
abbrev secs_ago : (now : ℕ) → ℕ → Option ℕ
secs_ago now t = if leb t now then some ((now - t) / 10 ^ 9) else none

pub record BlacklistedKey : Type 0 where
  pub key : String
  pub consecutive_failures : ℕ

pub record KeeperStatusResponse : Type 0 where
  pub pending_orders : ℕ
  pub pending_deposits : ℕ
  pub pending_withdrawals : ℕ
  pub last_cycle_at : Option ℕ
  pub last_cycle_latency_ms : Option ℕ
  pub last_executions : List KeeperExecution
  pub blacklisted_keys : List BlacklistedKey

-- `keeper_status`, of a snapshot and the blacklist.
unfoldable pub keeper_status : KeeperStatus × CycleStatus → Map ℕ → KeeperStatusResponse
keeper_status (status, cycle) blacklist = record {
  pending_orders = status.pending_orders;
  pending_deposits = status.pending_deposits;
  pending_withdrawals = status.pending_withdrawals;
  last_cycle_at = and_then cycle.last_keeper_cycle_at system_time_secs;
  last_cycle_latency_ms = cycle.last_keeper_cycle_latency_ms;
  last_executions = take 50 (reverse status.last_executions);
  blacklisted_keys = map (λ e. record { key = e.0; consecutive_failures = e.1 }) blacklist;
}

-- BalanceResponse of api/admin.rs
pub record BalanceResponse : Type 0 where
  pub account_id : String
  pub balance_stroops : ℤ
  pub balance_xlm : String
  pub min_balance_xlm : String
  pub is_funded : Bool

pub record OracleStatusResponse : Type 0 where
  pub last_cycle_time : Option ℕ
  pub keeper_balance : Option String
  pub prices : List CachedPrice
  pub recent_errors : List FailedSubmission
  pub price_cycle_count : ℕ
  pub keeper_cycle_count : ℕ
  pub token_fetch_failures : ℕ
  pub submit_failures : ℕ
  pub last_price_cycle_secs_ago : Option ℕ
  pub last_keeper_cycle_secs_ago : Option ℕ

module _ {W F : Type 0} (f : Float F) (horizon : Horizon W F) (cfg : KeeperBalanceConfig F)
    (pause : ℕ → W → W) where
  -- One attempt; the flag of a low balance goes along with the world.
  unfoldable pub check_balance : Bool × W → Result RpcError ℤ × (Bool × W)
  check_balance (below_min, w) =
      let ((stroops, below), w') = check_keeper_balance f horizon cfg below_min w in
      (stroops, (below, w'))

  abbrev pub pause_beside : ℕ → Bool × W → Bool × W
  pause_beside d (below_min, w) = (below_min, pause d w)

  unfoldable pub balance_with_retry : Bool × W → Result RpcError ℤ × (Bool × W)
  balance_with_retry s =
      retry_with_backoff Rpc.is_retryable pause_beside check_balance 2
        keeper_balance_retry_base_delay_ms max_backoff_delay_ms s

  -- `build_balance_response` of keeper.rs, as the handler passes it on.
  unfoldable pub build_balance_response : ℤ → BalanceResponse
  build_balance_response stroops = record {
    account_id = cfg.account_id;
    balance_stroops = stroops;
    balance_xlm = horizon.show_xlm (spendable_xlm f horizon cfg stroops);
    min_balance_xlm = horizon.show_xlm cfg.min_balance_xlm;
    is_funded = not (f.lt (spendable_xlm f horizon cfg stroops) cfg.min_balance_xlm);
  }

  unfoldable pub balance_answer : Result RpcError ℤ → Result ApiError BalanceResponse
  balance_answer (ok stroops) = ok (build_balance_response stroops)
  balance_answer (err (balance_below_minimum stroops balance minimum)) = ok (record {
    account_id = cfg.account_id;
    balance_stroops = stroops;
    balance_xlm = balance;
    min_balance_xlm = minimum;
    is_funded = false;
  })
  balance_answer (err _) = err (record { status = 503; message = "keeper_balance_check_failed" })

  -- `keeper_balance`
  unfoldable pub keeper_balance : Bool × W → Result ApiError BalanceResponse × (Bool × W)
  keeper_balance s = let (result, s') = balance_with_retry s in (balance_answer result, s')

  abbrev total_xlm : ℤ → String
  total_xlm stroops = horizon.show_xlm (f.div (f.of_int stroops) (f.of_int stroops_per_xlm))

  abbrev pub shown_balance : Result RpcError ℤ → Option String
  shown_balance (ok stroops) = some (total_xlm stroops)
  shown_balance (err e) = none

  -- `oracle_status`, at the time `now`.
  unfoldable pub oracle_status : (now : ℕ) → AppState → W → OracleStatusResponse × (Bool × W)
  oracle_status now app w =
      let (result, s') = balance_with_retry (app.keeper_balance_below_min, w) in
      (
        record {
          last_cycle_time = and_then app.cycle_status.last_price_cycle_at system_time_secs;
          keeper_balance = shown_balance result;
          prices = map (λ e. e.1) app.price_cache.prices;
          recent_errors = take 20 (reverse app.failures.items);
          price_cycle_count = app.metrics.counters.price_cycle_count;
          keeper_cycle_count = app.metrics.counters.keeper_cycle_count;
          token_fetch_failures = app.metrics.counters.token_fetch_failures;
          submit_failures = app.metrics.counters.submit_failures;
          last_price_cycle_secs_ago = and_then app.cycle_status.last_price_cycle_at (secs_ago now);
          last_keeper_cycle_secs_ago =
              and_then app.cycle_status.last_keeper_cycle_at (secs_ago now);
        },
        s',
      )
