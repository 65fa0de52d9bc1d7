-- ===== src/Tests/Cycles.antt =====
-- The theorems on the keeper's cycle. Every read of the contract fails here, so that no key waits.
use so4_oracle.Prelude.{ℕ, ◌≡◌, refl, true, [], ◌∷◌, String, is_empty, ◌||◌, ◌+◌}
use so4_oracle.Prelude.Int.{ℤ, pos, ◌*ℤ◌, ◌+ℤ◌, ◌-ℤ◌}
use so4_oracle.Prelude.Result.{Result, ok, err}
use so4_oracle.Prelude.Text.{len_bytes, trim, all_chars, is_ascii_digit}
use so4_oracle.Prelude.Number.{read_int}
use so4_oracle.Keeper.Item.View.{is_some}
use so4_oracle.Retry.{retry_with_backoff, retry_rounds}
use so4_oracle.State.{Loop}
use so4_oracle.Chain.ScVal.{strkey_to_sc_address, account_strkey_to_muxed}
use so4_oracle.Chain.Tx.{build_invoke_tx}
use so4_oracle.Keeper.Simulate
use so4_oracle.Keeper.Simulate.{Reader, simulate_contract_call}
use so4_oracle.Keeper.Balance.{
  check_keeper_balance, get_account_balance_stroops, read_account, judge_balance,
  parse_account_balance_response, parse_xlm_balance_to_stroops, stroops_of, checked_i64,
}
use so4_oracle.Keeper.Pending.Fetch.{get_pending_keys}
use so4_oracle.Keeper.Run.{CycleSummary, skipped}
use so4_oracle.Keeper.Item.Invariant.{IsBounded}
use so4_oracle.Keeper.Cycle.{
  Setup, all_pending, pending, check_balance, fresh_prices, swept_keys, execute_keeper_cycle,
}
use so4_oracle.Keeper.Cycle.Gates.{low_at, fresh_at, execute_keeper_cycle-idle}
use so4_oracle.Keeper.Cycle.Bounded.{execute_keeper_cycle-IsBounded}
use so4_oracle.Tests.Fixtures.{confirming, cfg, start, force, force-eq}
use so4_oracle.Tests.PriceBands.{fixed}
use so4_oracle.Tests.Orders.{start-IsBounded}

abbrev reader : Reader
reader = record {
  simulate_request = λ tx. err "no simulation";
  decode_json = λ body. err "no JSON";
  show_json = λ json. "";
}

-- Horizon reports half a lumen, and a hundred are wanted.
abbrev pub setup : Setup ℕ ℤ
setup = record {
  chain = confirming;
  cfg = cfg;
  reader = reader;
  reader_config = record { reader_contract_id = "CREADER"; data_store_contract_id = "CDATA" };
  floats = fixed;
  horizon = record {
    http_get = λ url w. (ok (200, "1.5"), w + 1);
    decode_account = λ body. ok (record { asset_type = "native"; balance = body } ∷ []);
    show_xlm = λ x. "";
  };
  balance_config = record {
    horizon_url = "https://horizon";
    account_id = "GKEEPER";
    min_balance_xlm = pos 100_000_000;
  };
  tokens = [];
  to_lowercase = λ s. s;
}

abbrev pub begun : Loop ℕ
begun = record { app = start.app; world = 1_000 }

ends : is_some (execute_keeper_cycle setup begun) ≡ true
unfolding execute_keeper_cycle all_pending pending get_pending_keys simulate_contract_call
    strkey_to_sc_address account_strkey_to_muxed build_invoke_tx retry_with_backoff retry_rounds
    Simulate.simulate_contract_call_once Simulate.simulation_payload len_bytes Simulate.is_retryable
    Simulate.display
ends = refl

abbrev ran : Result String CycleSummary × Loop ℕ
ran = force (execute_keeper_cycle setup begun) ends

execute_keeper_cycle-IsBounded_example : IsBounded ran.1.app.keys
execute_keeper_cycle-IsBounded_example =
    execute_keeper_cycle-IsBounded setup begun ran start-IsBounded
      (force-eq (execute_keeper_cycle setup begun) ends)

-- The claim on "ab" has expired.
abbrev resumed : Loop ℕ
resumed = record {
  app = record start.app { keys = record start.app.keys { in_flight_keys = ("ab", 0) ∷ [] } };
  world = 1_000_000;
}

still_ends : is_some (execute_keeper_cycle setup resumed) ≡ true
unfolding execute_keeper_cycle all_pending pending get_pending_keys simulate_contract_call
    strkey_to_sc_address account_strkey_to_muxed build_invoke_tx retry_with_backoff retry_rounds
    Simulate.simulate_contract_call_once Simulate.simulation_payload len_bytes Simulate.is_retryable
    Simulate.display
still_ends = refl

abbrev resumed_run : Result String CycleSummary × Loop ℕ
resumed_run = force (execute_keeper_cycle setup resumed) still_ends

closed : (low_at setup resumed || is_empty (fresh_at setup resumed)) ≡ true
unfolding check_balance check_keeper_balance get_account_balance_stroops read_account judge_balance
    fresh_prices parse_account_balance_response parse_xlm_balance_to_stroops stroops_of trim
    all_chars is_ascii_digit read_int checked_i64 ◌*ℤ◌ ◌+ℤ◌ ◌-ℤ◌
closed = refl

execute_keeper_cycle-idle_example :
    (resumed_run.0 ≡ ok (skipped (is_empty (fresh_at setup resumed)) (low_at setup resumed)))
    × (resumed_run.1.app.keys ≡ swept_keys setup resumed)
    × (resumed_run.1.app.price_cache ≡ resumed.app.price_cache)
execute_keeper_cycle-idle_example =
    execute_keeper_cycle-idle setup resumed resumed_run closed
      (force-eq (execute_keeper_cycle setup resumed) still_ends)
