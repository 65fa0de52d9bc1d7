-- ===== src/Keeper/Item/Outcomes.antt =====
-- What processing one order comes to, for each answer of the network.
use so4_oracle.Prelude.{
  ℕ, ◌+◌, ◌-◌, ◌≤◌, ◌≡◌, ◌∙◌, true, false, none, some, List, All, ap, String, arith, str_eq,
  if◌then◌else◌,
}
use so4_oracle.Prelude.Map.{Map, contains_key}
use so4_oracle.Prelude.Result.{Result, err}
use so4_oracle.State.{in_flight_expiry}
use so4_oracle.Keeper.Handler.{
  Chain, KeeperConfig, HandlerError, may_still_confirm, is_market_paused_error, is_budget_exceeded,
}
use so4_oracle.Keeper.Run.{Run, keys, with_keys, call, record_execution, record_error}
use so4_oracle.Keeper.Item.{
  claim_key, release, process_order, settle_order, with_claim, for_each, order_failed,
  item_timed_out, order_kind,
}
use so4_oracle.Keeper.Item.Tables.{keys-order_failed}
use so4_oracle.Keeper.Item.View.{View, view, guarded_view, view-claim, view-release, view-guarded}
use so4_oracle.Keeper.Item.Invariant.{orders-other}

module _ {W : Type 0} (chain : Chain W) (cfg : KeeperConfig) where
  -- The run with the key claimed, on which the order's call is made.
  abbrev pub claimed : Map ℕ → Run W → Run W
  claimed m r = with_keys (record (keys r) { in_flight_keys = m }) r

  abbrev pub order_call : String → Run W → Result HandlerError String × Run W
  order_call key c = call chain cfg cfg.order_handler_contract_id "execute_order" key c

  settle_order-err :
      (key : String) (e : HandlerError) (p : Result HandlerError String × Run W)
      → p.0 ≡ err e
      → settle_order chain cfg key p ≡ (
          if may_still_confirm e
          then item_timed_out chain cfg (order_kind chain cfg) key e p.1
          else order_failed chain cfg key e p.1)
  unfolding settle_order
  settle_order-err key e (x, c) h = ap (λ y. settle_order chain cfg key (y, c)) h

  module _ (key : String) (r : Run W) (m : Map ℕ)
      (free : contains_key key (keys r).frozen_order_blacklist ≡ false)
      (claim : claim_key (chain.now r.world) key (keys r).in_flight_keys ≡ some m) where
    settles :
        process_order chain cfg key r ≡ settle_order chain cfg key (order_call key (claimed m r))
    unfolding process_order with_claim
    settles = rw (free, claim, with_claim)

    view-call :
        view key (keys (order_call key (claimed m r)).1)
        ≡ record (view key (keys r)) { claim = some (chain.now r.world) }
    unfolding call
    view-call = view-claim key (keys r) (chain.now r.world) m claim

    -- For an order that is not on the blacklist and can be claimed: an outcome that may still confirm
    -- leaves its key in flight since the present moment, counts one error in the summary, and changes
    -- neither the key's failure counts nor the blacklist's entry for it.
    pub process_order-timed_out :
        (e : HandlerError)
        → (order_call key (claimed m r)).0 ≡ err e
        → may_still_confirm e ≡ true
        → let r' = process_order chain cfg key r in
          (view key (keys r') ≡ record (view key (keys r)) { claim = some (chain.now r.world) })
          × (r'.summary ≡ record r.summary { errors = r.summary.errors + 1 })
    unfolding item_timed_out record_execution record_error call
    process_order-timed_out e h c =
        let q : process_order chain cfg key r
            ≡ item_timed_out chain cfg (order_kind chain cfg) key e
                (order_call key (claimed m r)).1 =
          settles ∙ settle_order-err key e (order_call key (claimed m r)) h ∙ rw c in
        (ap (λ x. view key (keys x)) q ∙ view-call, ap (λ x. x.summary) q)

    module _ (e : HandlerError) (h : (order_call key (claimed m r)).0 ≡ err e)
        (definite : may_still_confirm e ≡ false) where
      fails_by :
          process_order chain cfg key r
          ≡ order_failed chain cfg key e (order_call key (claimed m r)).1
      fails_by = settles ∙ settle_order-err key e (order_call key (claimed m r)) h ∙ rw definite

      view-released :
          view key (release key (keys (order_call key (claimed m r)).1))
          ≡ record (view key (keys r)) { claim = none }
      view-released =
          view-release key (keys (order_call key (claimed m r)).1)
          ∙ ap {A = View} (λ v. record v { claim = none }) view-call

      -- For an order that is not on the blacklist and can be claimed, where its call fails for good
      -- because the market is paused: the key is released, and its failure counts, its entry on the
      -- blacklist and the summary stay as they were.
      pub process_order-paused :
          is_market_paused_error e ≡ true
          → let r' = process_order chain cfg key r in
            (view key (keys r') ≡ record (view key (keys r)) { claim = none })
            × (r'.summary ≡ r.summary)
      unfolding order_failed call
      process_order-paused p = (
        ap (λ x. view key (keys x)) fails_by
            ∙ ap (view key)
                (keys-order_failed chain cfg key e (order_call key (claimed m r)).1 ∙ rw p)
            ∙ view-released,
        ap (λ x. x.summary) fails_by ∙ rw p,
      )

      -- For an order that is not on the blacklist and can be claimed, where its call fails for good
      -- and neither a pause nor the budget is the reason: the key is released and one failure is
      -- counted, and at the fifth the key goes on the blacklist and its count is dropped.
      pub process_order-failed :
          is_market_paused_error e ≡ false
          → is_budget_exceeded chain cfg e ≡ false
          → view key (keys (process_order chain cfg key r))
            ≡ guarded_view (record (view key (keys r)) { claim = none })
      process_order-failed p b =
          ap (λ x. view key (keys x)) fails_by
          ∙ ap (view key)
              (keys-order_failed chain cfg key e (order_call key (claimed m r)).1 ∙ rw (p, b))
          ∙ view-guarded key _
          ∙ ap guarded_view view-released

  -- The run behind a list of orders.
  abbrev pub behind : List String → Run W → Run W
  behind orders r = for_each chain cfg (process_order chain cfg) orders r

  -- An order that may still confirm is not submitted again: after any list of other orders, while its
  -- claim has not expired, processing it changes nothing, the world included.
  pub no_resubmission :
      (key : String) (r : Run W) (m : Map ℕ) (e : HandlerError) (others : List String)
      → contains_key key (keys r).frozen_order_blacklist ≡ false
      → claim_key (chain.now r.world) key (keys r).in_flight_keys ≡ some m
      → (order_call key (claimed m r)).0 ≡ err e
      → may_still_confirm e ≡ true
      → All (λ other. str_eq other key ≡ false) others
      → chain.now (behind others (process_order chain cfg key r)).world - chain.now r.world
        ≤ in_flight_expiry
      → process_order chain cfg key (behind others (process_order chain cfg key r))
        ≡ behind others (process_order chain cfg key r)
  unfolding process_order with_claim claim_key contains_key
  no_resubmission key r m e others free claim h c apart soon =
      let later =
        for_each chain cfg (process_order chain cfg) others (process_order chain cfg key r) in
      let seen : view key (keys later)
          ≡ record (view key (keys r)) { claim = some (chain.now r.world) } =
        orders-other chain cfg key others (process_order chain cfg key r) apart
        ∙ (process_order-timed_out key r m free claim e h c).0 in
      ground (arith, ap (λ v. v.claim) seen, ap (λ v. v.listed) seen)
