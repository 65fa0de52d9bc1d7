-- ===== src/Tests/Statuses.antt =====
-- What the admin's routes show of a keeper with half an XLM to spend and of two failures.
use so4_oracle.Prelude.Number.{read_int}
use so4_oracle.Prelude.Text.{trim, all_chars, is_ascii_digit}
use so4_oracle.Keeper.Balance.{
  check_keeper_balance, judge_balance, get_account_balance_stroops, read_account,
  parse_account_balance_response, parse_xlm_balance_to_stroops, stroops_of, checked_i64,
  leading_digits,
}
use so4_oracle.Retry.{retry_with_backoff, retry_rounds}
use mathlib.Core.List.{reverse}
use so4_oracle.Prelude.{
  ℕ, ◌+◌, ◌≡◌, refl, false, not, some, none, List, [], ◌∷◌, String, take, length, min,
}
use so4_oracle.Prelude.Int.{pos, ◌*ℤ◌, ◌+ℤ◌, ◌/ℤ◌, ◌-ℤ◌}
use so4_oracle.Prelude.Result.{ok}
use so4_oracle.Rpc
use so4_oracle.State.{FailedSubmission}
use so4_oracle.State.Ring.{push_all}
use so4_oracle.Api.Submissions.{
  FailedSubmissionsQuery, failure_ring_capacity, failed_submissions, failed_submissions-push_all,
  Picked, AsksFor,
}
use so4_oracle.Api.Status.{
  BalanceResponse, keeper_balance, build_balance_response, balance_answer, balance_with_retry,
  check_balance,
}
use so4_oracle.Api.Status.Agrees.{keeper_balance-agrees}
use so4_oracle.Tests.Cycles.{setup}
use so4_oracle.Tests.PriceBands.{fixed}

abbrev waits : ℕ → ℕ → ℕ
waits d w = w + d

abbrev half : BalanceResponse
half = record {
  account_id = "GKEEPER";
  balance_stroops = pos 15_000_000;
  balance_xlm = "";
  min_balance_xlm = "";
  is_funded = false;
}

shows_half : (keeper_balance fixed setup.horizon setup.balance_config waits (false, 5)).0 ≡ ok half
unfolding keeper_balance balance_answer balance_with_retry retry_with_backoff retry_rounds
    check_balance check_keeper_balance judge_balance get_account_balance_stroops read_account
    parse_account_balance_response parse_xlm_balance_to_stroops stroops_of trim all_chars
    is_ascii_digit read_int checked_i64 leading_digits ◌*ℤ◌ ◌+ℤ◌ ◌/ℤ◌ ◌-ℤ◌ Rpc.is_retryable
shows_half = refl

keeper_balance-agrees_example :
    (half.is_funded
      ≡ not (keeper_balance fixed setup.horizon setup.balance_config waits (false, 5)).1.0)
    × (half
        ≡ build_balance_response fixed setup.horizon setup.balance_config waits
            half.balance_stroops)
keeper_balance-agrees_example =
    keeper_balance-agrees fixed setup.horizon setup.balance_config waits (false, 5) half shows_half

abbrev failed_at : ℕ → String → FailedSubmission
failed_at at operation = record {
  at = at;
  operation = operation;
  network = "testnet";
  token = "";
  symbol = "";
  min_price = pos 0;
  max_price = pos 0;
  tx_hash = none;
  error = "rejected";
  timestamp = at;
  ledger_seq = 0;
}

abbrev history : List FailedSubmission
history =
    failed_at 1 "execute_order" ∷ failed_at 2 "price_cycle" ∷ failed_at 3 "execute_deposit" ∷ []

abbrev executions : FailedSubmissionsQuery
executions = record { operation = some "execute"; limit = some 5 }

failed_submissions-push_all_example :
    let answer =
      failed_submissions executions
        (push_all (record { capacity = failure_ring_capacity; items = [] }) history) in
    (chosen : List FailedSubmission) × Picked
      (AsksFor (some "execute"))
      (take 256 (reverse history))
      chosen
    × (answer.total_count ≡ length chosen)
    × (answer.failures ≡ take (min 5 256) chosen)
failed_submissions-push_all_example = failed_submissions-push_all executions history
