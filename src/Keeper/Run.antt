-- ===== src/Keeper/Run.antt =====
-- keeper_loop.rs: what one cycle carries from item to item, and how it keeps its records.
use so4_oracle.Prelude.{
  ℕ, ◌+◌, ◌/◌, ◌^◌, Bool, Option, [], ◌∷◌, ◌++◌, String, length, drop, ltb, if◌then◌else◌,
}
use so4_oracle.Prelude.Int.{pos}
use so4_oracle.Prelude.Result.{Result}
use so4_oracle.State.{AppState, KeyTables, KeeperExecution, FailedSubmission}
use so4_oracle.State.Ring
use so4_oracle.Keeper.Handler.{Chain, KeeperConfig, HandlerError, execute_handler}

pub record CycleSummary : Type 0 where
  pub orders_executed : ℕ
  pub deposits_executed : ℕ
  pub withdrawals_executed : ℕ
  pub errors : ℕ
  pub prices_stale : Bool
  pub keeper_balance_low : Bool

-- CycleSummary::skipped
abbrev pub skipped : Bool → Bool → CycleSummary
skipped prices_stale keeper_balance_low = record {
  orders_executed = 0;
  deposits_executed = 0;
  withdrawals_executed = 0;
  errors = 0;
  prices_stale = prices_stale;
  keeper_balance_low = keeper_balance_low;
}

-- The shared state, the local variables of `execute_keeper_cycle`, and the world.
pub record Run (W : Type 0) : Type 0 where
  pub app : AppState
  pub summary : CycleSummary
  pub sequence_cache : Option ℕ
  pub world : W

module _ {W : Type 0} where
  abbrev pub keys : Run W → KeyTables
  keys r = r.app.keys

  abbrev pub with_keys : KeyTables → Run W → Run W
  with_keys t r = record r { app = record r.app { keys = t } }

  abbrev pub count_error : Run W → Run W
  count_error r = record r { summary = record r.summary { errors = r.summary.errors + 1 } }

module _ {W : Type 0} (chain : Chain W) (cfg : KeeperConfig) where
  unfoldable pub record_error : String → String → Option String → Run W → Run W
  record_error operation error hash r =
      let t = chain.wall r.world in
      let entry : FailedSubmission = record {
        at = t;
        operation = operation;
        network = cfg.network;
        token = "";
        symbol = "";
        min_price = pos 0;
        max_price = pos 0;
        tx_hash = hash;
        error = error;
        timestamp = t / 10 ^ 9;
        ledger_seq = 0;
      } in
      record r { app = record r.app { failures = Ring.push r.app.failures entry } }

  -- The oldest execution goes when there are more than 100.
  unfoldable pub record_execution :
      String → String → Option String → Bool → Option String → Run W → Run W
  record_execution operation key hash success error r =
      let entry : KeeperExecution = record {
        timestamp = chain.wall r.world;
        operation = operation;
        key = key;
        tx_hash = hash;
        success = success;
        error = error;
      } in
      let all = r.app.keeper_status.last_executions ++ (entry ∷ []) in
      let last = if ltb 100 (length all) then drop 1 all else all in
      record r {
        app = record r.app {
          keeper_status = record r.app.keeper_status { last_executions = last };
        };
      }

  -- `execute_handler(.., &mut sequence_cache).await`
  unfoldable pub call :
      (contract_id method key : String) → Run W → Result HandlerError String × Run W
  call contract_id method key r =
      let (result, cache, w) =
        execute_handler chain cfg contract_id method key r.sequence_cache r.world in
      (result, record r { sequence_cache = cache; world = w })
