-- ===== src/Tests/Orders.antt =====
-- The keeper's theorems on one order, for each answer of the node.
use so4_oracle.Prelude.{
  ℕ, ◌+◌, ◌-◌, ◌≡◌, refl, Bool, true, false, Option, none, some, [], ◌∷◌, String, List, All, arith,
  ◌≤◌, leb, leb→le, str_eq,
}
use so4_oracle.Prelude.Map.{Map, lookup, insert, contains_key}
use so4_oracle.Prelude.Text.{contains, concat, split, trim}
use so4_oracle.Prelude.Result.{ok, err}
use so4_oracle.Retry.{retry_with_backoff, retry_rounds}
use so4_oracle.Chain.ScVal.{strkey_to_sc_address, account_strkey_to_muxed}
use so4_oracle.Chain.Tx.{build_invoke_tx}
use so4_oracle.Keeper.Handler.{
  HandlerError, local, may_still_confirm, is_market_paused_error, is_budget_exceeded,
  execute_handler, call_with, submit_call, key_scval, signed_call, cache_after_error, submitted,
}
use so4_oracle.State.{in_flight_expiry}
use so4_oracle.Keeper.Run.{Run, CycleSummary, keys, call}
use so4_oracle.Keeper.Item.{
  claim_key, process_order, for_each, Kind, deposit_kind, count_deposit, process_item,
}
use so4_oracle.Keeper.Item.View.{view}
use so4_oracle.Keeper.Item.Machine.{Step, OrderEnding}
use so4_oracle.Keeper.Item.Steps.{ItemStep, process_order-Step, process_item-Step}
use so4_oracle.Keeper.Item.Invariant.{IsBounded, orders-IsBounded}
use so4_oracle.Keeper.Item.Outcomes.{order_call, claimed, process_order-paused, no_resubmission}
use so4_oracle.Keeper.Item.Abandon.{IsBroken, repeat, broken_order_listed}
use so4_oracle.Submit.{
  SubmitError, poll_timeout, transaction_failed, submit_and_poll, send_transaction_xdr,
  poll_until_confirmed, poll_rounds, read_poll, parse_send_response, parse_get_transaction_response,
  accept_status, parse_response,
}
use so4_oracle.Submit
use so4_oracle.Rpc.{rpc_post}
use so4_oracle.Tests.Fixtures.{confirming, silent, refusing, over_budget, paused, cfg, start}

abbrev in_flight : Map ℕ
in_flight = ("ab", 0) ∷ []

abbrev timed_out : HandlerError
timed_out = submitted silent cfg "execute_order" (poll_timeout "execute_order")

abbrev refused : HandlerError
refused = submitted refusing cfg "execute_order" (transaction_failed [])

abbrev market_paused : HandlerError
market_paused = submitted paused cfg "execute_order" (transaction_failed ("MarketPaused" ∷ []))

abbrev too_much : HandlerError
too_much =
    submitted over_budget cfg "execute_order" (transaction_failed ("Budget, ExceededLimit" ∷ []))

confirmed_call :
    (order_call confirming cfg "ab" (claimed confirming cfg in_flight start)).0
    ≡ ok "confirmed on ledger 7"
unfolding call execute_handler key_scval call_with signed_call submit_call submit_and_poll
    send_transaction_xdr strkey_to_sc_address account_strkey_to_muxed build_invoke_tx
    retry_with_backoff retry_rounds rpc_post parse_send_response accept_status poll_until_confirmed
    poll_rounds read_poll parse_get_transaction_response so4_oracle.Prelude.Text.len_bytes concat
    so4_oracle.Prelude.Text.show_nat
confirmed_call = refl

free : contains_key "ab" (keys start).frozen_order_blacklist ≡ false
unfolding contains_key lookup
free = refl

claim : claim_key 0 "ab" (keys start).in_flight_keys ≡ some in_flight
unfolding claim_key lookup insert
claim = refl

silent_call : (order_call silent cfg "ab" (claimed silent cfg in_flight start)).0 ≡ err timed_out
unfolding call execute_handler key_scval call_with signed_call submit_call submit_and_poll
    send_transaction_xdr strkey_to_sc_address account_strkey_to_muxed build_invoke_tx
    retry_with_backoff retry_rounds rpc_post parse_send_response accept_status poll_until_confirmed
    poll_rounds read_poll parse_get_transaction_response so4_oracle.Prelude.Text.len_bytes concat
    so4_oracle.Prelude.Text.show_nat
silent_call = refl

refused_call : (order_call refusing cfg "ab" (claimed refusing cfg in_flight start)).0 ≡ err refused
unfolding call execute_handler key_scval call_with signed_call submit_call submit_and_poll
    send_transaction_xdr strkey_to_sc_address account_strkey_to_muxed build_invoke_tx
    retry_with_backoff retry_rounds rpc_post parse_send_response accept_status poll_until_confirmed
    poll_rounds read_poll parse_get_transaction_response so4_oracle.Prelude.Text.len_bytes concat
    so4_oracle.Prelude.Text.show_nat
refused_call = refl

paused_call :
    (order_call paused cfg "ab" (claimed paused cfg in_flight start)).0 ≡ err market_paused
unfolding call execute_handler key_scval call_with signed_call submit_call submit_and_poll
    send_transaction_xdr strkey_to_sc_address account_strkey_to_muxed build_invoke_tx
    retry_with_backoff retry_rounds rpc_post parse_send_response accept_status poll_until_confirmed
    poll_rounds read_poll parse_get_transaction_response so4_oracle.Prelude.Text.len_bytes concat
    so4_oracle.Prelude.Text.show_nat
paused_call = refl

timed_out-unsettled : may_still_confirm timed_out ≡ true
unfolding may_still_confirm Submit.may_still_confirm
timed_out-unsettled = refl

refused-definite : may_still_confirm refused ≡ false
unfolding may_still_confirm Submit.may_still_confirm
refused-definite = refl

market_paused-definite : may_still_confirm market_paused ≡ false
unfolding may_still_confirm Submit.may_still_confirm
market_paused-definite = refl

refused-not_paused : is_market_paused_error refused ≡ false
unfolding is_market_paused_error contains concat Submit.display
refused-not_paused = refl

market_paused-paused : is_market_paused_error market_paused ≡ true
unfolding is_market_paused_error contains concat Submit.display
market_paused-paused = refl

refused-cheap : is_budget_exceeded refusing cfg refused ≡ false
unfolding is_budget_exceeded Submit.diagnostic_events split concat Submit.display
    so4_oracle.Prelude.Text.len_bytes trim so4_oracle.Prelude.Text.all_chars
    so4_oracle.Prelude.Text.is_ascii_alphanumeric
refused-cheap = refl

process_order-paused_example :
    let r = process_order paused cfg "ab" start in
    (view "ab" (keys r) ≡ record (view "ab" (keys start)) { claim = none })
    × (r.summary ≡ start.summary)
process_order-paused_example =
    process_order-paused paused cfg "ab" start in_flight free claim market_paused paused_call
      market_paused-definite market_paused-paused

abbrev later : Run ℕ
later =
    for_each silent cfg (process_order silent cfg) ("no hex" ∷ [])
      (process_order silent cfg "ab" start)

in_time : silent.now later.world - silent.now start.world ≤ in_flight_expiry
unfolding call execute_handler key_scval call_with signed_call submit_call submit_and_poll
    send_transaction_xdr strkey_to_sc_address account_strkey_to_muxed build_invoke_tx
    retry_with_backoff retry_rounds rpc_post parse_send_response accept_status poll_until_confirmed
    poll_rounds read_poll parse_get_transaction_response so4_oracle.Prelude.Text.len_bytes concat
    so4_oracle.Prelude.Text.show_nat cache_after_error
    so4_oracle.Keeper.Handler.is_bad_sequence_error contains Submit.display for_each process_order
    so4_oracle.Keeper.Item.with_claim claim_key contains_key lookup insert may_still_confirm
    is_market_paused_error is_budget_exceeded so4_oracle.Keeper.Item.settle_order
    Submit.may_still_confirm so4_oracle.Keeper.Item.item_timed_out
    so4_oracle.Keeper.Run.record_execution so4_oracle.Keeper.Run.record_error
    so4_oracle.Keeper.Item.order_failed so4_oracle.Keeper.Item.record_failure
    so4_oracle.Keeper.Item.guard_failures so4_oracle.Keeper.Item.execution_failed
    so4_oracle.Keeper.Item.bump split trim so4_oracle.Prelude.Text.all_chars
    so4_oracle.Prelude.Text.is_ascii_alphanumeric
in_time = leb→le later.world in_flight_expiry refl

no_resubmission_example : process_order silent cfg "ab" later ≡ later
no_resubmission_example =
    no_resubmission silent cfg "ab" start in_flight timed_out ("no hex" ∷ []) free claim silent_call
      timed_out-unsettled (refl, tt) in_time

fresh :
    view "no hex" (keys start)
    ≡ record { claim = none; freezes = none; fails = none; listed = none }
unfolding lookup
fresh = refl

wrong_key :
    (c : Run ℕ)
    → (order_call confirming cfg "no hex" c).0 ≡ err (local "invalid key hex: odd length")
unfolding call execute_handler key_scval concat
wrong_key c = refl

no_hex-IsBroken : IsBroken confirming cfg "no hex"
unfolding may_still_confirm is_budget_exceeded is_market_paused_error contains split
    so4_oracle.Prelude.Text.len_bytes trim so4_oracle.Prelude.Text.all_chars
    so4_oracle.Prelude.Text.is_ascii_alphanumeric
no_hex-IsBroken c = (local "invalid key hex: odd length", wrong_key c, refl, refl, refl)

broken_order_listed_example :
    contains_key "no hex"
      (keys (
        for_each confirming cfg
          (process_order confirming cfg)
          (repeat 5 "no hex")
          start)).frozen_order_blacklist
    ≡ true
broken_order_listed_example =
    broken_order_listed confirming cfg "no hex" 5 start no_hex-IsBroken fresh

pub start-IsBounded : IsBounded (keys start)
unfolding lookup
start-IsBounded k = (tt, tt)

orders-IsBounded_example :
    IsBounded (keys (for_each refusing cfg (process_order refusing cfg) (repeat 6 "ab") start))
orders-IsBounded_example = orders-IsBounded refusing cfg (repeat 6 "ab") start start-IsBounded

process_order-Step_example :
    let (result, c) =
      call over_budget cfg cfg.order_handler_contract_id "execute_order" "ab" start in
    let (freeze, _) = call over_budget cfg cfg.order_handler_contract_id "freeze_order" "ab" c in
    Step 0
      (view "ab" (keys start))
      (OrderEnding over_budget cfg 0 result freeze (view "ab" (keys start)))
      (view "ab" (keys (process_order over_budget cfg "ab" start)))
    × (view "cd" (keys (process_order over_budget cfg "ab" start)) ≡ view "cd" (keys start))
process_order-Step_example = process_order-Step over_budget cfg "ab" "cd" start refl

process_item-Step_example :
    let after =
      process_item silent cfg
        (deposit_kind silent cfg)
        (count_deposit silent cfg)
        false
        "ab"
        start in
    ItemStep silent cfg false (deposit_kind silent cfg) "ab" start (view "ab" (keys after))
    × (view "cd" (keys after) ≡ view "cd" (keys start))
process_item-Step_example =
    process_item-Step silent cfg (deposit_kind silent cfg) (count_deposit silent cfg) false "ab"
      "cd" start refl
