-- ===== src/Tests/Shutdowns.antt =====
-- A loop that runs one whole cycle, which finds nothing to do, and is then shut down in its back-off.
use so4_oracle.Prelude.{ℕ, ◌+◌, ◌≡◌, refl, true, false, none, List, [], ◌∷◌}
use so4_oracle.Prelude.Text.{len_bytes}
use so4_oracle.State.{Loop}
use so4_oracle.Chain.ScVal.{strkey_to_sc_address, account_strkey_to_muxed}
use so4_oracle.Chain.Tx.{build_invoke_tx}
use so4_oracle.Keeper.Simulate
use so4_oracle.Keeper.Simulate.{simulate_contract_call}
use so4_oracle.Keeper.Pending.Fetch.{get_pending_keys}
use so4_oracle.Keeper.Item.View.{is_some}
use so4_oracle.Retry.{retry_with_backoff, retry_rounds}
use so4_oracle.Keeper.Cycle.{gated, execute_keeper_cycle, all_pending, pending}
use so4_oracle.Keeper.Cycle.Timed.{run_keeper_cycle, begin_cycle}
use so4_oracle.Keeper.Cycle.Rounds.{Turn, Ending, run_rounds, run_keeper_loop}
use so4_oracle.Tests.Fixtures.{force}
use so4_oracle.Tests.Cycles.{setup, begun}

abbrev waits : ℕ → ℕ → ℕ
waits d w = w + d

abbrev turns : List (Turn ℕ)
turns =
    record { at_tick = false; at_backoff = false; at_cycle = none; cut = none; latency_ms = 12 }
    ∷ record { at_tick = false; at_backoff = true; at_cycle = none; cut = none; latency_ms = 0 }
    ∷ []

ends : is_some (run_keeper_loop setup waits 1_500 turns begun) ≡ true
unfolding run_keeper_loop run_rounds run_keeper_cycle begin_cycle execute_keeper_cycle all_pending
    pending get_pending_keys simulate_contract_call strkey_to_sc_address account_strkey_to_muxed
    build_invoke_tx retry_with_backoff retry_rounds Simulate.simulate_contract_call_once
    Simulate.simulation_payload len_bytes Simulate.is_retryable Simulate.display gated
ends = refl

abbrev ran : Ending × Loop ℕ
ran = force (run_keeper_loop setup waits 1_500 turns begun) ends
