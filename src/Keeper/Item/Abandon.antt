-- ===== src/Keeper/Item/Abandon.antt =====
-- A broken order is abandoned after five failures, and not before.
use so4_oracle.Prelude.{
  ℕ, zero, suc, ◌+◌, ◌<◌, ◌≡◌, ◌∙◌, ap, true, false, Option, none, some, List, [], ◌∷◌, String,
  arith, leb, Bool-cases, inl, inr,
}
use so4_oracle.Prelude.Map.{lookup, insert, contains_key}
use so4_oracle.Prelude.Result.{err}
use so4_oracle.Keeper.Handler.{
  Chain, KeeperConfig, HandlerError, may_still_confirm, is_market_paused_error, is_budget_exceeded,
}
use so4_oracle.Keeper.Run.{Run, keys, count_error}
use so4_oracle.Keeper.Item.{claim_key, process_order, with_claim, for_each}
use so4_oracle.Keeper.Item.View.{View, view, is_some, guarded_view}
use so4_oracle.Keeper.Item.Outcomes.{order_call, process_order-failed}

abbrev pub repeat : ℕ → String → List String
repeat zero key = []
repeat (suc n) key = key ∷ repeat n key

module _ {W : Type 0} (chain : Chain W) (cfg : KeeperConfig) (key : String) where
  -- Every call for the order fails for good, for a reason that is neither a pause nor the budget.
  abbrev pub IsBroken : Type 0
  IsBroken =
      (c : Run W)
      → (e : HandlerError) × ((order_call chain cfg key c).0 ≡ err e)
        × (may_still_confirm e ≡ false)
        × (is_market_paused_error e ≡ false)
        × (is_budget_exceeded chain cfg e ≡ false)

  abbrev fails_of : ℕ → Option ℕ
  fails_of zero = none
  fails_of (suc n) = some (suc n)

  -- The tables after `n` failures, below the limit.
  abbrev Failed : ℕ → Run W → Type 0
  Failed n r =
      let v = view key (keys r) in (v.claim ≡ none) × (v.fails ≡ fails_of n) × (v.listed ≡ none)

  one_more :
      (k : ℕ) (v : View)
      → v.fails ≡ fails_of k
      → v.listed ≡ none
      → leb 5 (suc k) ≡ false
      → let w = guarded_view (record v { claim = none }) in
        (w.claim ≡ none) × (w.fails ≡ fails_of (suc k)) × (w.listed ≡ none)
  one_more zero v f l q = ground arith
  one_more (suc k) v f l q = ground arith

  limit :
      (k : ℕ) (v : View)
      → v.fails ≡ fails_of k
      → v.listed ≡ none
      → leb 5 (suc k) ≡ true
      → is_some (guarded_view (record v { claim = none })).listed ≡ true
  limit zero v f l q = ground arith
  limit (suc k) v f l q = ground arith

  process-view :
      (r : Run W)
      → IsBroken
      → (view key (keys r)).claim ≡ none
      → (view key (keys r)).listed ≡ none
      → view key (keys (process_order chain cfg key r))
        ≡ guarded_view (record (view key (keys r)) { claim = none })
  unfolding claim_key contains_key
  process-view r broken c l =
      let m = insert key (chain.now r.world) (keys r).in_flight_keys in
      let (e, h, d, p, b) =
        broken
          (record r { app = record r.app { keys = record (keys r) { in_flight_keys = m } } }) in
      process_order-failed chain cfg key r m (ground arith) (ground arith) e h d p b

  process_listed :
      (r : Run W)
      → is_some (view key (keys r)).listed ≡ true
      → process_order chain cfg key r ≡ count_error r
  unfolding process_order with_claim contains_key
  process_listed r l = ground arith

  listed_stays :
      (n : ℕ) (r : Run W)
      → is_some (view key (keys r)).listed ≡ true
      → is_some
          (view key (keys (for_each chain cfg (process_order chain cfg) (repeat n key) r))).listed
        ≡ true
  unfolding for_each
  listed_stays zero r l = l
  listed_stays (suc n) r l =
      ap
        (λ x.
          is_some
            (view key
              (keys (for_each chain cfg (process_order chain cfg) (repeat n key) x))).listed)
        (process_listed r l)
      ∙ listed_stays n (count_error r) l

  repeat_from :
      (n k : ℕ) (r : Run W)
      → IsBroken
      → k < 5
      → Failed k r
      → is_some
          (view key (keys (for_each chain cfg (process_order chain cfg) (repeat n key) r))).listed
        ≡ leb 5 (n + k)
  unfolding for_each
  repeat_from zero k r broken small (c, f, l) = ground arith
  repeat_from (suc n) k r broken small (c, f, l) =
      let r' = process_order chain cfg key r in
      let v' = process-view r broken c l in
      elim (Bool-cases (leb 5 (suc k))) [
        | inl last ↦
            listed_stays n r' (ap (λ v. is_some v.listed) v' ∙ limit k (view key (keys r)) f l last)
            ∙ ground arith
        | inr more ↦
            repeat_from n (suc k) r' broken (ground arith) (
              ap (λ v. v.claim) v' ∙ (one_more k (view key (keys r)) f l more).0,
              ap (λ v. v.fails) v' ∙ (one_more k (view key (keys r)) f l more).1,
              ap (λ v. v.listed) v' ∙ (one_more k (view key (keys r)) f l more).2,
            )
            ∙ ground arith
      ]

  -- An order that is new to the tables and fails for good at every call is on the blacklist after
  -- it was processed `n` times exactly if `n` is at least five.
  pub broken_order_listed :
      (n : ℕ) (r : Run W)
      → IsBroken
      → view key (keys r) ≡ record { claim = none; freezes = none; fails = none; listed = none }
      → contains_key key
          (keys
            (for_each chain cfg (process_order chain cfg) (repeat n key) r)).frozen_order_blacklist
        ≡ leb 5 n
  unfolding contains_key
  broken_order_listed n r broken v =
      listed_iff (lookup key _)
      ∙ repeat_from n 0 r broken (omega arith)
          (ap (λ v. v.claim) v, ap (λ v. v.fails) v, ap (λ v. v.listed) v)
      ∙ ground arith
    where
      listed_iff : (o : Option ℕ) → elim o [ none ↦ false | some v ↦ true ] ≡ is_some o
      listed_iff o = ground arith
