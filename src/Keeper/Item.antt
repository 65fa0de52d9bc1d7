-- ===== src/Keeper/Item.antt =====
-- keeper_loop.rs, the loops of `execute_keeper_cycle` over pending keys: one order, one deposit,
-- one withdrawal.
pub mod Tables
pub mod View
pub mod Moves
pub mod Invariant
pub mod Machine
pub mod Steps
pub mod Outcomes
pub mod Abandon
use so4_oracle.Prelude.{
  ℕ, ◌+◌, ◌-◌, Bool, true, false, not, ◌&&◌, Option, none, some, List, [], ◌∷◌, String, ltb, leb,
  is_empty, if◌then◌else◌,
}
use so4_oracle.Prelude.Map.{lookup, insert, remove, contains_key, Map}
use so4_oracle.Prelude.Result.{Result, ok, err}
use so4_oracle.Prelude.Text.{concat}
use so4_oracle.State.{
  KeyTables, in_flight_expiry, max_consecutive_freeze_failures, max_consecutive_execution_failures,
}
use so4_oracle.Keeper.Handler.{
  Chain, KeeperConfig, HandlerError, may_still_confirm, tx_hash, is_market_paused_error,
  is_budget_exceeded,
}
use so4_oracle.Keeper.Run.{
  Run, CycleSummary, keys, with_keys, count_error, record_error, record_execution, call,
}

-- The in-flight check of an item: `none` is `continue`, and otherwise the key is entered with the
-- present time, an expired entry first taken out.
unfoldable pub claim_key : ℕ → String → Map ℕ → Option (Map ℕ)
claim_key now key in_flight = elim (lookup key in_flight) [
  | none ↦ some (insert key now in_flight)
  | some inserted_at ↦
      if ltb in_flight_expiry (now - inserted_at)
      then some (insert key now (remove key in_flight))
      else none
]

abbrev count_of : Option ℕ → ℕ
count_of none = 0
count_of (some n) = n

-- `*counts.entry(key).or_insert(0) += 1`, and the count that results.
unfoldable pub bump : String → Map ℕ → ℕ × Map ℕ
bump key counts = let n = count_of (lookup key counts) + 1 in (n, insert key n counts)

abbrev pub release : String → KeyTables → KeyTables
release key t = record t { in_flight_keys = remove key t.in_flight_keys }

-- What a success clears: the claim and both counts of an order, the claim and the execution count
-- of a deposit or a withdrawal.
unfoldable pub order_succeeded : String → KeyTables → KeyTables
order_succeeded key t = record t {
  in_flight_keys = remove key t.in_flight_keys;
  freeze_failure_counts = remove key t.freeze_failure_counts;
  execution_failure_counts = remove key t.execution_failure_counts;
}

unfoldable pub item_succeeded : String → KeyTables → KeyTables
item_succeeded key t = record t {
  in_flight_keys = remove key t.in_flight_keys;
  execution_failure_counts = remove key t.execution_failure_counts;
}

-- An order that was frozen for its budget drops both counts.
unfoldable pub order_frozen : String → KeyTables → KeyTables
order_frozen key t = record t {
  freeze_failure_counts = remove key t.freeze_failure_counts;
  execution_failure_counts = remove key t.execution_failure_counts;
}

-- A freeze that failed is counted, and the third in a row puts the key on the blacklist.
unfoldable pub freeze_failed : String → KeyTables → KeyTables
freeze_failed key t =
    let (consecutive, counts) = bump key t.freeze_failure_counts in
    record t {
      freeze_failure_counts = counts;
      frozen_order_blacklist =
          if leb max_consecutive_freeze_failures consecutive
          then insert key consecutive t.frozen_order_blacklist
          else t.frozen_order_blacklist;
    }

unfoldable pub execution_failed : String → KeyTables → ℕ × KeyTables
execution_failed key t =
    let (consecutive, counts) = bump key t.execution_failure_counts in
    (consecutive, record t { execution_failure_counts = counts })

unfoldable pub abandoned : String → ℕ → KeyTables → KeyTables
abandoned key consecutive t = record t {
  frozen_order_blacklist = insert key consecutive t.frozen_order_blacklist;
  execution_failure_counts = remove key t.execution_failure_counts;
}

-- The names that the three loops differ in.
pub record Kind : Type 0 where
  pub contract_id : String
  pub execute : String
  pub freeze : String

module _ {W : Type 0} (chain : Chain W) (cfg : KeeperConfig) where
  abbrev pub order_kind : Kind
  order_kind = record {
    contract_id = cfg.order_handler_contract_id;
    execute = "execute_order";
    freeze = "freeze_order";
  }

  abbrev pub deposit_kind : Kind
  deposit_kind = record {
    contract_id = cfg.deposit_handler_contract_id;
    execute = "execute_deposit";
    freeze = "freeze_deposit";
  }

  abbrev pub withdrawal_kind : Kind
  withdrawal_kind = record {
    contract_id = cfg.withdrawal_handler_contract_id;
    execute = "execute_withdrawal";
    freeze = "freeze_withdrawal";
  }

  abbrev operation_of : Kind → String → String
  operation_of kind key = concat (kind.execute ∷ ":" ∷ key ∷ [])

  -- The branch of `may_still_confirm`: the key stays in flight.
  unfoldable pub item_timed_out : Kind → String → HandlerError → Run W → Run W
  item_timed_out kind key e r =
      record_execution chain cfg kind.execute key (tx_hash e) false (some e.message)
        (record_error chain cfg (operation_of kind key) e.message (tx_hash e) (count_error r))

  -- The budget branch: the order is frozen, and a failure of that is counted and passed on.
  unfoldable pub freeze_for_budget : String → Run W → Option HandlerError × Run W
  freeze_for_budget key r =
      let (result, r') = call chain cfg cfg.order_handler_contract_id "freeze_order" key r in
      elim result [
        | ok _ ↦ (none, with_keys (order_frozen key (keys r')) r')
        | err e ↦ (
          some e,
          record_error chain cfg "freeze_order" e.message none
              (with_keys (freeze_failed key (keys r')) r'),
        )
      ]

  -- The consecutive-failure guard: at the fifth failure the item is frozen, as far as that works,
  -- and its key is put on the blacklist, unless it is there already.
  unfoldable pub abandon : Kind → String → ℕ → Run W → Run W
  abandon kind key consecutive r =
      let (result, r') = call chain cfg kind.contract_id kind.freeze key r in
      let told : Run W = elim result [
        | ok _ ↦ r'
        | err e ↦ record_error chain cfg kind.freeze e.message none r'
      ] in
      with_keys (abandoned key consecutive (keys told)) told

  unfoldable pub guard_failures : Kind → String → Run W → Run W
  guard_failures kind key r =
      let (consecutive, t) = execution_failed key (keys r) in
      let counted = with_keys t r in
      if leb max_consecutive_execution_failures consecutive
        && not (contains_key key t.frozen_order_blacklist)
      then abandon kind key consecutive counted
      else counted

  abbrev failure_text : HandlerError → Option HandlerError → String
  failure_text e none = e.message
  failure_text e (some f) = concat (e.message ∷ " | freeze_error: " ∷ f.message ∷ [])

  -- The records at the end of the failure branch.
  unfoldable pub record_failure : Kind → String → HandlerError → Option HandlerError → Run W → Run W
  record_failure kind key e freeze_error r =
      record_execution chain cfg kind.execute key none false (some (failure_text e freeze_error))
        (record_error chain cfg (operation_of kind key) e.message none r)

  -- The branch of a definite failure. A paused market only releases the key.
  unfoldable pub order_failed : String → HandlerError → Run W → Run W
  order_failed key e r =
      let released = with_keys (release key (keys r)) r in
      if is_market_paused_error e
      then released
      else (let counted = count_error released in
          let (freeze_error, r') =
            if is_budget_exceeded chain cfg e
            then freeze_for_budget key counted
            else (none, counted) in
          record_failure order_kind key e freeze_error (guard_failures order_kind key r'))

  unfoldable pub item_failed : Kind → String → HandlerError → Run W → Run W
  item_failed kind key e r =
      let released = with_keys (release key (keys r)) r in
      if is_market_paused_error e
      then released
      else record_failure kind key e none (guard_failures kind key (count_error released))

  abbrev count_order : CycleSummary → CycleSummary
  count_order s = record s { orders_executed = s.orders_executed + 1 }

  abbrev pub count_deposit : CycleSummary → CycleSummary
  count_deposit s = record s { deposits_executed = s.deposits_executed + 1 }

  abbrev pub count_withdrawal : CycleSummary → CycleSummary
  count_withdrawal s = record s { withdrawals_executed = s.withdrawals_executed + 1 }

  -- The two checks in front of an item: a key of the blacklist is an error, and a key in flight is
  -- passed over; for any other the key is claimed and `body` runs.
  unfoldable pub with_claim : String → (Run W → Run W) → Run W → Run W
  with_claim key body r =
      if contains_key key (keys r).frozen_order_blacklist
      then count_error r
      else elim (claim_key (chain.now r.world) key (keys r).in_flight_keys) [
        | none ↦ r
        | some in_flight ↦ body (with_keys (record (keys r) { in_flight_keys = in_flight }) r)
      ]

  -- The three arms of the `match` on an order's result.
  unfoldable pub settle_order : String → Result HandlerError String × Run W → Run W
  settle_order key (ok hash, r) =
      let done = record (with_keys (order_succeeded key (keys r)) r) {
        summary = count_order r.summary;
      } in
      record_execution chain cfg "execute_order" key (some hash) true none done
  settle_order key (err e, r) =
      if may_still_confirm e then item_timed_out order_kind key e r else order_failed key e r

  unfoldable pub process_order : String → Run W → Run W
  process_order key r =
      with_claim key
        (λ claimed.
          settle_order key
            (call chain cfg cfg.order_handler_contract_id "execute_order" key claimed))
        r

  unfoldable pub settle_item :
      Kind → (CycleSummary → CycleSummary) → String → Result HandlerError String × Run W → Run W
  settle_item kind count key (ok hash, r) =
      let done = record (with_keys (item_succeeded key (keys r)) r) { summary = count r.summary } in
      record_execution chain cfg kind.execute key (some hash) true none done
  settle_item kind count key (err e, r) =
      if may_still_confirm e then item_timed_out kind key e r else item_failed kind key e r

  -- The loops over deposits and withdrawals, which skip every key while no price is fresh.
  unfoldable pub process_item :
      Kind → (CycleSummary → CycleSummary) → (no_fresh_prices : Bool) → String → Run W → Run W
  process_item kind count no_fresh_prices key r =
      if no_fresh_prices
      then r
      else with_claim key
          (λ claimed.
            settle_item kind count key (call chain cfg kind.contract_id kind.execute key claimed))
          r

  unfoldable pub process_deposit : Bool → String → Run W → Run W
  process_deposit no_fresh_prices key r =
      process_item deposit_kind count_deposit no_fresh_prices key r

  unfoldable pub process_withdrawal : Bool → String → Run W → Run W
  process_withdrawal no_fresh_prices key r =
      process_item withdrawal_kind count_withdrawal no_fresh_prices key r

  -- `for key in &keys`
  unfoldable pub for_each : (String → Run W → Run W) → List String → Run W → Run W
  for_each step [] r = r
  for_each step (key ∷ rest) r = for_each step rest (step key r)
