-- ===== src/Keeper/Item/Tables.antt =====
-- What one item does to the key tables: its effect is a function of the outcome of its calls, and
-- touches only its own key.
use so4_oracle.Prelude.{
  ℕ, ◌≡◌, refl, ap, ◌∙◌, inl, inr, not, ◌&&◌, Option, none, String, arith, Bool-cases, leb,
  if◌then◌else◌,
}
use so4_oracle.Prelude.Map.{contains_key}
use so4_oracle.Prelude.Result.{Result, ok, err}
use so4_oracle.State.{KeyTables, max_consecutive_execution_failures}
use so4_oracle.Keeper.Handler.{
  Chain, KeeperConfig, HandlerError, is_market_paused_error, is_budget_exceeded,
}
use so4_oracle.Keeper.Run.{Run, keys, with_keys, record_error, record_execution, call, count_error}
use so4_oracle.Keeper.Item.{
  Kind, release, order_frozen, freeze_failed, execution_failed, abandoned, item_timed_out,
  freeze_for_budget, abandon, guard_failures, record_failure, order_failed, item_failed, order_kind,
}

-- `guard_failures`, on the tables alone.
abbrev pub guarded : String → KeyTables → KeyTables
guarded key t =
    let (consecutive, t') = execution_failed key t in
    if leb max_consecutive_execution_failures consecutive
      && not (contains_key key t'.frozen_order_blacklist)
    then abandoned key consecutive t'
    else t'

module _ {W : Type 0} (chain : Chain W) (cfg : KeeperConfig) where
  keys-abandon :
      (kind : Kind) (key : String) (n : ℕ) (r : Run W)
      → keys (abandon chain cfg kind key n r) ≡ abandoned key n (keys r)
  unfolding abandon call record_error
  keys-abandon kind key n r = ground arith

  keys-guard_failures :
      (kind : Kind) (key : String) (r : Run W)
      → keys (guard_failures chain cfg kind key r) ≡ guarded key (keys r)
  unfolding guard_failures
  keys-guard_failures kind key r =
      let (n, t) = execution_failed key (keys r) in
      elim (Bool-cases (
        leb max_consecutive_execution_failures n
        && not (contains_key key t.frozen_order_blacklist))) [
          | inl p ↦ rw (p, guard_failures) (keys-abandon kind key n (with_keys t r))
          | inr p ↦ rw (p, guard_failures)
        ]

  keys-record_failure :
      (kind : Kind) (key : String) (e : HandlerError) (f : Option HandlerError) (r : Run W)
      → keys (record_failure chain cfg kind key e f r) ≡ keys r
  unfolding record_failure record_execution record_error
  keys-record_failure kind key e f r = refl

  pub keys-item_failed :
      (kind : Kind) (key : String) (e : HandlerError) (r : Run W)
      → keys (item_failed chain cfg kind key e r) ≡ (
          if is_market_paused_error e
          then release key (keys r)
          else guarded key (release key (keys r)))
  unfolding item_failed
  keys-item_failed kind key e r = elim (Bool-cases (is_market_paused_error e)) [
    | inl p ↦ rw p
    | inr p ↦ rw p (
        keys-record_failure kind key e none _
        ∙ keys-guard_failures kind key (count_error (with_keys (release key (keys r)) r)))
  ]

  -- What the freeze of an order that exceeded its budget leaves.
  abbrev pub budgeted : String → Result HandlerError String → KeyTables → KeyTables
  budgeted key (ok hash) t = order_frozen key t
  budgeted key (err e) t = freeze_failed key t

  keys-freeze_for_budget :
      (key : String) (r : Run W)
      → keys (freeze_for_budget chain cfg key r).1
        ≡ budgeted key
            (call chain cfg cfg.order_handler_contract_id "freeze_order" key r).0
            (keys r)
  unfolding freeze_for_budget call record_error
  keys-freeze_for_budget key r = ground arith

  abbrev pub freeze_result : String → Run W → Result HandlerError String
  freeze_result key r =
      (call chain cfg cfg.order_handler_contract_id "freeze_order" key
        (count_error (with_keys (release key (keys r)) r))).0

  pub keys-order_failed :
      (key : String) (e : HandlerError) (r : Run W)
      → keys (order_failed chain cfg key e r) ≡ (
          if is_market_paused_error e
          then release key (keys r)
          else (if is_budget_exceeded chain cfg e
              then guarded key (budgeted key (freeze_result key r) (release key (keys r)))
              else guarded key (release key (keys r))))
  unfolding order_failed
  keys-order_failed key e r =
      let counted = count_error (with_keys (release key (keys r)) r) in
      elim (Bool-cases (is_market_paused_error e)) [
        | inl p ↦ rw p
        | inr p ↦ elim (Bool-cases (is_budget_exceeded chain cfg e)) [
          | inl b ↦
              rw (p, b)
                (keys-record_failure (order_kind chain cfg) key e _ _
                  ∙ keys-guard_failures (order_kind chain cfg) key _
                  ∙ ap (guarded key) (keys-freeze_for_budget key counted))
          | inr b ↦
              rw (p, b)
                (keys-record_failure (order_kind chain cfg) key e none _
                  ∙ keys-guard_failures (order_kind chain cfg) key counted)
        ]
      ]

  pub keys-item_timed_out :
      (kind : Kind) (key : String) (e : HandlerError) (r : Run W)
      → keys (item_timed_out chain cfg kind key e r) ≡ keys r
  unfolding item_timed_out record_execution record_error
  keys-item_timed_out kind key e r = refl
