-- ===== src/Keeper/Item/Steps.antt =====
-- keeper_loop.rs, the loops over pending keys: each item makes one step of the abstract machine of its
-- key.
use so4_oracle.Prelude.{
  ℕ, ◌≡◌, refl, ap, ◌∙◌, inl, inr, Bool, true, false, none, some, String, str_eq, Bool-cases,
}
use so4_oracle.Prelude.Result.{Result, ok, err, Result-cases}
use so4_oracle.Keeper.Handler.{
  Chain, KeeperConfig, HandlerError, may_still_confirm, is_market_paused_error, is_budget_exceeded,
}
use so4_oracle.Keeper.Run.{Run, CycleSummary, keys, record_execution, call}
use so4_oracle.Keeper.Item.{
  Kind, release, settle_order, order_failed, process_order, settle_item, process_item, order_kind,
}
use so4_oracle.Keeper.Item.Tables.{
  budgeted, freeze_result, keys-order_failed, keys-item_failed, keys-item_timed_out,
}
use so4_oracle.Keeper.Item.Moves.{process_order-Move, process_item-Move}
use so4_oracle.Keeper.Item.Invariant.{Move-other}
use so4_oracle.Keeper.Item.View.{
  View, view, guarded_view, freeze_failed_view, view-claim, view-release, view-order_succeeded,
  view-item_succeeded, view-order_frozen, view-freeze_failed, view-guarded,
}
use so4_oracle.Keeper.Item.Machine.{
  Step, OrderEnding, ItemEnding, executed, unsettled, paused, refused, frozen, not_frozen,
  with_claim-Step,
}

module _ {W : Type 0} (chain : Chain W) (cfg : KeeperConfig) where
  module _ (now : ℕ) (key : String) (v : View) where
    abbrev IsClaimed : Run W → Type 0
    IsClaimed c = view key (keys c) ≡ record v { claim = some now }

    view-released :
        (c : Run W) → IsClaimed c → view key (release key (keys c)) ≡ record v { claim = none }
    view-released c q = view-release key (keys c) ∙ ap {A = View} (λ w. record w { claim = none }) q

    order_failed-Ending :
        (e : HandlerError) (c : Run W)
        → IsClaimed c
        → may_still_confirm e ≡ false
        → OrderEnding chain cfg now
            (err e)
            (freeze_result chain cfg key c)
            v
            (view key (keys (order_failed chain cfg key e c)))
    order_failed-Ending e c q m =
        let failed = keys-order_failed chain cfg key e c in
        let free = view-released c q in
        elim (Bool-cases (is_market_paused_error e)) [
          | inl p ↦ paused e refl m p (ap (view key) (failed ∙ rw p refl) ∙ free)
          | inr p ↦ elim (Bool-cases (is_budget_exceeded chain cfg e)) [
            | inr b ↦ refused e refl m p b (
                ap (view key) (failed ∙ rw (p, b) refl) ∙ view-guarded key _ ∙ ap guarded_view free)
            | inl b ↦ elim (Result-cases (freeze_result chain cfg key c)) [
              | inl (hash, f) ↦ frozen e hash refl m p b f (
                  ap (view key) (failed ∙ rw (p, b, f, budgeted) refl)
                  ∙ view-guarded key _
                  ∙ ap guarded_view (view-order_frozen key (release key (keys c)))
                  ∙ ap (λ w. guarded_view (record w { freezes = none; fails = none })) free)
              | inr (x, f) ↦ not_frozen e x refl m p b f (
                  ap (view key) (failed ∙ rw (p, b, f, budgeted) refl)
                  ∙ view-guarded key _
                  ∙ ap guarded_view (view-freeze_failed key (release key (keys c)))
                  ∙ ap (λ w. guarded_view (freeze_failed_view w)) free)
            ]
          ]
        ]

    settle_order-Ending :
        (result : Result HandlerError String) (c : Run W)
        → IsClaimed c
        → OrderEnding chain cfg now result
            (freeze_result chain cfg key c)
            v
            (view key (keys (settle_order chain cfg key (result, c))))
    unfolding settle_order record_execution
    settle_order-Ending (ok hash) c q = executed hash refl (
        view-order_succeeded key (keys c)
        ∙ ap {A = View} (λ w. record w { claim = none; freezes = none; fails = none }) q)
    settle_order-Ending (err e) c q = elim (Bool-cases (may_still_confirm e)) [
      | inl m ↦ rw m (
          unsettled e refl m
            (ap (view key) (keys-item_timed_out chain cfg (order_kind chain cfg) key e c) ∙ q))
      | inr m ↦ rw m (order_failed-Ending e c q m)
    ]

    settle_item-Ending :
        (kind : Kind) (count : CycleSummary → CycleSummary) (result : Result HandlerError String)
        (c : Run W)
        → IsClaimed c
        → ItemEnding chain cfg now result v
            (view key (keys (settle_item chain cfg kind count key (result, c))))
    unfolding settle_item record_execution
    settle_item-Ending kind count (ok hash) c q = executed hash refl (
        view-item_succeeded key (keys c)
        ∙ ap {A = View} (λ w. record w { claim = none; fails = none }) q)
    settle_item-Ending kind count (err e) c q = elim (Bool-cases (may_still_confirm e)) [
      | inl m ↦
          rw m (unsettled e refl m (ap (view key) (keys-item_timed_out chain cfg kind key e c) ∙ q))
      | inr m ↦
          let failed = keys-item_failed chain cfg kind key e c in
          elim (Bool-cases (is_market_paused_error e)) [
            | inl p ↦
                rw m (paused e refl m p (ap (view key) (failed ∙ rw p refl) ∙ view-released c q))
            | inr p ↦ rw m (
                refused e refl m p (
                  ap (view key) (failed ∙ rw p refl)
                  ∙ view-guarded key _
                  ∙ ap guarded_view (view-released c q)))
          ]
    ]

  -- Whatever the network answers, processing an order makes one step of its key, and changes nothing of
  -- any other key in the four key tables. On the blacklist, or claimed in the last 300 seconds: nothing
  -- changes. Otherwise, by the result of the call for the order: a success clears the claim and both
  -- counts; an outcome that may still confirm leaves the key claimed at the present time; a paused
  -- market only releases it; where the budget is exceeded and the freeze of the order then succeeds, it
  -- is released with one failure on record, and where the freeze fails, that is counted too, and the
  -- third in a row blacklists the key; any other failure releases it and counts one failure. At the
  -- fifth failure in a row the key goes on the blacklist and its count is dropped,
  -- unless the failed freeze has just put it there.
  pub process_order-Step :
      (key other : String) (r : Run W)
      → str_eq key other ≡ false
      → let r' = process_order chain cfg key r in
        let (result, c) = call chain cfg cfg.order_handler_contract_id "execute_order" key r in
        let (freeze, _) = call chain cfg cfg.order_handler_contract_id "freeze_order" key c in
        Step
          (chain.now r.world)
          (view key (keys r))
          (OrderEnding chain cfg (chain.now r.world) result freeze (view key (keys r)))
          (view key (keys r'))
        × (view other (keys r') ≡ view other (keys r))
  unfolding process_order call
  process_order-Step key other r apart = (
    with_claim-Step chain cfg key _ r _ λ m c.
        settle_order-Ending (chain.now r.world) key (view key (keys r)) _ _
          (view-claim key (keys r) (chain.now r.world) m c),
    Move-other other key _ _ _ apart (process_order-Move chain cfg key r),
  )

  -- The step of a deposit or a withdrawal, which is only made where a price is fresh.
  abbrev pub ItemStep : (no_fresh_prices : Bool) → Kind → String → Run W → View → Type 0
  ItemStep true kind key r w = w ≡ view key (keys r)
  ItemStep false kind key r w =
      let (result, _) = call chain cfg kind.contract_id kind.execute key r in
      Step (chain.now r.world) (view key (keys r))
        (ItemEnding chain cfg (chain.now r.world) result (view key (keys r))) w

  -- Whatever the network answers, processing a deposit or a withdrawal makes one step of its key, and
  -- changes nothing of any other key in the four key tables. While no price is fresh, on the blacklist,
  -- or claimed in the last 300 seconds: nothing changes. Otherwise, by the result of its call: a success
  -- clears the claim and the count of failures; an outcome that may still confirm leaves the key claimed
  -- at the present time; a paused market only releases it; any other failure releases it and counts one
  -- failure. At the fifth failure in a row the key goes on the blacklist, and its count is dropped.
  pub process_item-Step :
      (kind : Kind) (count : CycleSummary → CycleSummary) (stale : Bool) (key other : String)
      (r : Run W)
      → str_eq key other ≡ false
      → let r' = process_item chain cfg kind count stale key r in
        ItemStep stale kind key r (view key (keys r'))
        × (view other (keys r') ≡ view other (keys r))
  unfolding process_item call
  process_item-Step kind count true key other r apart = (refl, refl)
  process_item-Step kind count false key other r apart = (
    with_claim-Step chain cfg key _ r _ λ m c.
        settle_item-Ending (chain.now r.world) key (view key (keys r)) kind count _ _
          (view-claim key (keys r) (chain.now r.world) m c),
    Move-other other key _ _ _ apart (process_item-Move chain cfg kind count false key r),
  )
