-- ===== src/Keeper/Cycle/Timed.antt =====
-- keeper_loop.rs, `run_keeper_cycle`: a cycle with its bookkeeping and its timeout.
use so4_oracle.Prelude.{ℕ, ◌+◌, ◌%◌, ◌^◌, true, false, Option, none, some, String}
use so4_oracle.Prelude.Result.{Result, ok, err}
use so4_oracle.Metrics.{record_keeper_cycle, record_submit_failure}
use so4_oracle.State.{Loop}
use so4_oracle.Prices.Median.{Checked}
use so4_oracle.Keeper.Run.{Run, CycleSummary, skipped, record_error}
use so4_oracle.Keeper.Cycle.{Setup, with_app, clock_secs, execute_keeper_cycle}

module _ {W F : Type 0} (setup : Setup W F) where
  open setup use {chain, cfg}

  -- `keeper_cycle_generation.fetch_add(1)`
  abbrev next_generation : Loop W → Loop W
  next_generation s =
      with_app setup
        (record s.app { keeper_cycle_generation = (s.app.keeper_cycle_generation + 1) % 2 ^ 64 }) s

  unfoldable pub begin_cycle : Loop W → Loop W
  begin_cycle s =
      let s' = next_generation s in
      with_app setup
        (record s'.app {
          cycle_status = record s'.app.cycle_status { keeper_cycle_running = true };
        })
        s'

  -- The failure on record, and the counters.
  unfoldable pub report : (latency_ms : ℕ) → Result String CycleSummary → Loop W → Loop W
  report latency_ms (ok summary) s =
      with_app setup
        (record s.app {
          metrics =
              record_keeper_cycle latency_ms
                (record {
                  orders = summary.orders_executed;
                  deposits = summary.deposits_executed;
                  withdrawals = summary.withdrawals_executed;
                  errors = summary.errors;
                  keeper_balance_low = summary.keeper_balance_low;
                  prices_stale = summary.prices_stale;
                })
                (clock_secs setup s.world) s.app.metrics;
        })
        s
  report latency_ms (err e) s =
      let r : Run W = record {
        app = s.app;
        summary = skipped false false;
        sequence_cache = none;
        world = s.world;
      } in
      let app = (record_error chain cfg "keeper_cycle" e none r).app in
      with_app setup
        (record app { metrics = record_submit_failure (clock_secs setup s.world) app.metrics }) s

  unfoldable pub end_cycle : (latency_ms : ℕ) → Result String CycleSummary → Loop W → Loop W
  end_cycle latency_ms result s = next_generation (
      report latency_ms result (
        with_app setup
          (record s.app {
            cycle_status = record s.app.cycle_status {
              keeper_cycle_running = false;
              last_keeper_cycle_at = some (chain.wall s.world);
              last_keeper_cycle_latency_ms = some latency_ms;
            };
          })
          s))

  -- `cut` is the state in which the timeout of 50 seconds has dropped the cycle, where it has.
  unfoldable pub run_keeper_cycle :
      (cut : Option (Loop W))
      → (latency_ms : ℕ) → Loop W
      → Checked (Result String CycleSummary × Loop W)
  run_keeper_cycle (some dropped) latency_ms s =
      let result = err "keeper cycle exceeded 50s budget" in
      some (result, end_cycle latency_ms result dropped)
  run_keeper_cycle none latency_ms s = elim (execute_keeper_cycle setup (begin_cycle s)) [
    | none ↦ none
    | some (result, s') ↦ some (result, end_cycle latency_ms result s')
  ]
