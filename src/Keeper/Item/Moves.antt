-- ===== src/Keeper/Item/Moves.antt =====
-- The changes of the key tables that one item can make, whatever the network answers.
use so4_oracle.Prelude.{
  ℕ, ◌≡◌, refl, ◌∙◌, inl, inr, Bool, true, false, some, String, Bool-cases, Option-cases,
}
use so4_oracle.Prelude.Map.{Map, contains_key}
use so4_oracle.Prelude.Result.{Result, ok, err, Result-cases}
use so4_oracle.State.{KeyTables}
use so4_oracle.Keeper.Handler.{
  Chain, KeeperConfig, HandlerError, may_still_confirm, is_market_paused_error, is_budget_exceeded,
}
use so4_oracle.Keeper.Run.{Run, CycleSummary, keys, record_execution, call}
use so4_oracle.Keeper.Item.{
  Kind, claim_key, release, order_succeeded, item_succeeded, order_frozen, freeze_failed,
  with_claim, settle_order, order_failed, item_failed, process_order, settle_item, process_item,
  order_kind,
}
use so4_oracle.Keeper.Item.Tables.{
  guarded, budgeted, freeze_result, keys-order_failed, keys-item_failed, keys-item_timed_out,
}

-- From the tables `t` in which the key has just been claimed.
pub data Ran (key : String) (t u : KeyTables) : Type 0 where
  order_done : u ≡ order_succeeded key t → Ran key t u
  item_done : u ≡ item_succeeded key t → Ran key t u
  timed_out : u ≡ t → Ran key t u
  paused : u ≡ release key t → Ran key t u
  failed : u ≡ guarded key (release key t) → Ran key t u
  failed_frozen : u ≡ guarded key (order_frozen key (release key t)) → Ran key t u
  failed_unfrozen : u ≡ guarded key (freeze_failed key (release key t)) → Ran key t u

-- An item is passed over with the tables as they are, or it runs: then its key was on no blacklist,
-- and was not in flight within the expiry.
pub data Move (key : String) (now : ℕ) (t u : KeyTables) : Type 0 where
  passed : u ≡ t → Move key now t u
  ran :
      (m : Map ℕ)
      → contains_key key t.frozen_order_blacklist ≡ false
      → claim_key now key t.in_flight_keys ≡ some m
      → Ran key (record t { in_flight_keys = m }) u
      → Move key now t u

module _ {W : Type 0} (chain : Chain W) (cfg : KeeperConfig) where
  with_claim-Move :
      (key : String) (body : Run W → Run W) (r : Run W)
      → ((c : Run W) → Ran key (keys c) (keys (body c)))
      → Move key (chain.now r.world) (keys r) (keys (with_claim chain cfg key body r))
  unfolding with_claim
  with_claim-Move key body r h =
      elim (Bool-cases (contains_key key (keys r).frozen_order_blacklist)) [
        | inl p ↦ rw p (passed refl)
        | inr p ↦ elim (Option-cases (claim_key (chain.now r.world) key (keys r).in_flight_keys)) [
          | inl c ↦ rw (p, c, with_claim) (passed refl)
          | inr (m, c) ↦ rw (p, c, with_claim) (ran m p c (h _))
        ]
      ]

  order_failed-Ran :
      (key : String) (e : HandlerError) (r : Run W)
      → Ran key (keys r) (keys (order_failed chain cfg key e r))
  order_failed-Ran key e r =
      let q = keys-order_failed chain cfg key e r in
      elim (Bool-cases (is_market_paused_error e)) [
        | inl p ↦ paused (q ∙ rw p)
        | inr p ↦ elim (Bool-cases (is_budget_exceeded chain cfg e)) [
          | inr b ↦ failed (q ∙ rw (p, b))
          | inl b ↦ elim (Result-cases (freeze_result chain cfg key r)) [
            | inl (h, f) ↦ failed_frozen (q ∙ rw (p, b, f, budgeted))
            | inr (x, f) ↦ failed_unfrozen (q ∙ rw (p, b, f, budgeted))
          ]
        ]
      ]

  item_failed-Ran :
      (kind : Kind) (key : String) (e : HandlerError) (r : Run W)
      → Ran key (keys r) (keys (item_failed chain cfg kind key e r))
  item_failed-Ran kind key e r =
      let q = keys-item_failed chain cfg kind key e r in
      elim (Bool-cases (is_market_paused_error e)) [
        | inl p ↦ paused (q ∙ rw p)
        | inr p ↦ failed (q ∙ rw p)
      ]

  settle_order-Ran :
      (key : String) (result : Result HandlerError String) (r : Run W)
      → Ran key (keys r) (keys (settle_order chain cfg key (result, r)))
  unfolding settle_order record_execution
  settle_order-Ran key (ok hash) r = order_done refl
  settle_order-Ran key (err e) r = elim (Bool-cases (may_still_confirm e)) [
    | inl c ↦ rw c (timed_out (keys-item_timed_out chain cfg (order_kind chain cfg) key e r))
    | inr c ↦ rw c (order_failed-Ran key e r)
  ]

  settle_item-Ran :
      (kind : Kind) (count : CycleSummary → CycleSummary) (key : String)
      (result : Result HandlerError String) (r : Run W)
      → Ran key (keys r) (keys (settle_item chain cfg kind count key (result, r)))
  unfolding settle_item record_execution
  settle_item-Ran kind count key (ok hash) r = item_done refl
  settle_item-Ran kind count key (err e) r = elim (Bool-cases (may_still_confirm e)) [
    | inl c ↦ rw c (timed_out (keys-item_timed_out chain cfg kind key e r))
    | inr c ↦ rw c (item_failed-Ran kind key e r)
  ]

  -- Whatever the network answers, processing an order makes one of these changes.
  pub process_order-Move :
      (key : String) (r : Run W)
      → Move key (chain.now r.world) (keys r) (keys (process_order chain cfg key r))
  unfolding process_order call
  process_order-Move key r = with_claim-Move key _ r λ c. settle_order-Ran key _ _

  -- The same of a deposit or a withdrawal, also when no price is fresh.
  pub process_item-Move :
      (kind : Kind) (count : CycleSummary → CycleSummary) (stale : Bool) (key : String) (r : Run W)
      → Move key (chain.now r.world) (keys r) (keys (process_item chain cfg kind count stale key r))
  unfolding process_item call
  process_item-Move kind count true key r = passed refl
  process_item-Move kind count false key r =
      with_claim-Move key _ r λ c. settle_item-Ran kind count key _ _
