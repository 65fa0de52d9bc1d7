-- ===== src/State.antt =====
-- state.rs: the shared state of the service. The locks of the source each guard one field; a task
-- that holds one is a step on that field.
pub mod Ring
pub mod Limiter
use so4_oracle.Prelude.{ℕ, ◌*◌, ◌^◌, Bool, Option, List, String}
use so4_oracle.Prelude.Int.{ℤ}
use so4_oracle.Prelude.Map.{Map}
use Ring.{RingBuffer}
use so4_oracle.Metrics.{Metrics}

pub record CachedPrice : Type 0 where
  pub token_address : String
  pub symbol : String
  pub display_symbol : String
  pub keeper_index : ℕ
  pub min_price : ℤ
  pub max_price : ℤ
  pub median : ℤ
  pub timestamp : ℕ
  pub ledger_seq : ℕ
  pub sources_used : List String
  pub signature : String

-- Times are nanoseconds since the epoch.
pub record PriceCache : Type 0 where
  pub prices : Map CachedPrice
  pub last_updated : Option ℕ
  pub last_submitted_medians : Option (Map ℤ)
  pub last_full_submission : Option ℕ

pub record KeeperExecution : Type 0 where
  pub timestamp : ℕ
  pub operation : String
  pub key : String
  pub tx_hash : Option String
  pub success : Bool
  pub error : Option String

pub record KeeperStatus : Type 0 where
  pub pending_orders : ℕ
  pub pending_deposits : ℕ
  pub pending_withdrawals : ℕ
  pub last_executions : List KeeperExecution

pub record FailedSubmission : Type 0 where
  pub at : ℕ
  pub operation : String
  pub network : String
  pub token : String
  pub symbol : String
  pub min_price : ℤ
  pub max_price : ℤ
  pub tx_hash : Option String
  pub error : String
  pub timestamp : ℕ
  pub ledger_seq : ℕ

-- MAX_CONSECUTIVE_FREEZE_FAILURES, MAX_CONSECUTIVE_EXECUTION_FAILURES, IN_FLIGHT_EXPIRY in
-- nanoseconds
abbrev pub max_consecutive_freeze_failures : ℕ
max_consecutive_freeze_failures = 3

abbrev pub max_consecutive_execution_failures : ℕ
max_consecutive_execution_failures = 5

abbrev pub in_flight_expiry : ℕ
in_flight_expiry = 300 * 10 ^ 9

-- What the service remembers of single work keys.
pub record KeyTables : Type 0 where
  pub in_flight_keys : Map ℕ
  pub freeze_failure_counts : Map ℕ
  pub frozen_order_blacklist : Map ℕ
  pub execution_failure_counts : Map ℕ

-- Times are nanoseconds since the epoch.
pub record CycleStatus : Type 0 where
  pub price_cycle_running : Bool
  pub keeper_cycle_running : Bool
  pub last_price_cycle_at : Option ℕ
  pub last_keeper_cycle_at : Option ℕ
  pub last_keeper_cycle_latency_ms : Option ℕ

-- The part of `AppState` that the loops change.
pub record AppState : Type 0 where
  pub keys : KeyTables
  pub failures : RingBuffer FailedSubmission
  pub keeper_status : KeeperStatus
  pub price_cache : PriceCache
  pub pending_key_start_index : ℕ
  pub cycle_status : CycleStatus
  pub metrics : Metrics
  pub keeper_balance_below_min : Bool
  pub keeper_cycle_generation : ℕ

-- The shared state and the world that a loop acts on.
pub record Loop (W : Type 0) : Type 0 where
  pub app : AppState
  pub world : W
