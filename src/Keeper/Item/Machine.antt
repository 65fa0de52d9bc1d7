-- ===== src/Keeper/Item/Machine.antt =====
-- The life of a work key as an abstract machine over what the key tables say of it: the steps that one
-- item can make, given by the outcomes of its calls and by numbers alone.
use so4_oracle.Prelude.{
  ℕ, ◌-◌, ◌≤◌, ◌<◌, ◌≡◌, refl, ap, ◌⊎◌, inl, inr, true, false, none, some, String, arith, subst,
  sym, Option-cases,
}
use so4_oracle.Prelude.Map.{Map, lookup, contains_key}
use so4_oracle.Prelude.Result.{Result, ok, err}
use so4_oracle.Keeper.Handler.{
  Chain, KeeperConfig, HandlerError, may_still_confirm, is_market_paused_error, is_budget_exceeded,
}
use so4_oracle.Keeper.Run.{Run, keys, with_keys, count_error}
use so4_oracle.Keeper.Item.{claim_key, with_claim}
use so4_oracle.Keeper.Item.View.{View, view, guarded_view, freeze_failed_view}

-- An item is passed over with its key as it is, where the key is on the blacklist or was claimed in
-- the last 300 seconds; any other item is processed, and its key ends as `Ending` says.
pub data Step (now : ℕ) (v : View) (Ending : View → Type 0) (w : View) : Type 0 where
  listed : (failures : ℕ) → v.listed ≡ some failures → w ≡ v → Step now v Ending w
  in_flight :
      (at : ℕ) → v.claim ≡ some at → now - at ≤ 300_000_000_000 → w ≡ v → Step now v Ending w
  processed :
      v.listed ≡ none
      → (v.claim ≡ none) ⊎ ((at : ℕ) × (v.claim ≡ some at) × (300_000_000_000 < now - at))
      → Ending w
      → Step now v Ending w

claim_key-busy :
    (now : ℕ) (key : String) (m : Map ℕ)
    → claim_key now key m ≡ none
    → (at : ℕ) × (lookup key m ≡ some at) × (now - at ≤ 300_000_000_000)
unfolding claim_key
claim_key-busy now key m c = elim (Option-cases (lookup key m)) [
  | inl l ↦ absurd (ground arith)
  | inr (at, l) ↦ (at, l, ground arith)
]

claim_key-free :
    (now : ℕ) (key : String) (m m' : Map ℕ)
    → claim_key now key m ≡ some m'
    → (lookup key m ≡ none) ⊎ ((at : ℕ) × (lookup key m ≡ some at) × (300_000_000_000 < now - at))
unfolding claim_key
claim_key-free now key m m' c = elim (Option-cases (lookup key m)) [
  | inl l ↦ inl l
  | inr (at, l) ↦ inr (at, l, ground arith)
]

module _ {W : Type 0} (chain : Chain W) (cfg : KeeperConfig) where
  -- The ends of an order, by the result of its call and that of the freeze that may follow.
  pub data OrderEnding (now : ℕ) (result freeze : Result HandlerError String) (v w : View)
      : Type 0 where
    executed :
        (hash : String)
        → result ≡ ok hash
        → w ≡ record v { claim = none; freezes = none; fails = none }
        → OrderEnding now result freeze v w
    unsettled :
        (e : HandlerError)
        → result ≡ err e
        → may_still_confirm e ≡ true
        → w ≡ record v { claim = some now }
        → OrderEnding now result freeze v w
    paused :
        (e : HandlerError)
        → result ≡ err e
        → may_still_confirm e ≡ false
        → is_market_paused_error e ≡ true
        → w ≡ record v { claim = none }
        → OrderEnding now result freeze v w
    refused :
        (e : HandlerError)
        → result ≡ err e
        → may_still_confirm e ≡ false
        → is_market_paused_error e ≡ false
        → is_budget_exceeded chain cfg e ≡ false
        → w ≡ guarded_view (record v { claim = none })
        → OrderEnding now result freeze v w
    frozen :
        (e : HandlerError) (hash : String)
        → result ≡ err e
        → may_still_confirm e ≡ false
        → is_market_paused_error e ≡ false
        → is_budget_exceeded chain cfg e ≡ true
        → freeze ≡ ok hash
        → w ≡ record v { claim = none; freezes = none; fails = some 1 }
        → OrderEnding now result freeze v w
    not_frozen :
        (e x : HandlerError)
        → result ≡ err e
        → may_still_confirm e ≡ false
        → is_market_paused_error e ≡ false
        → is_budget_exceeded chain cfg e ≡ true
        → freeze ≡ err x
        → w ≡ guarded_view (freeze_failed_view (record v { claim = none }))
        → OrderEnding now result freeze v w

  -- The ends of a deposit or a withdrawal, by the result of its call.
  pub data ItemEnding (now : ℕ) (result : Result HandlerError String) (v w : View) : Type 0 where
    executed :
        (hash : String)
        → result ≡ ok hash
        → w ≡ record v { claim = none; fails = none }
        → ItemEnding now result v w
    unsettled :
        (e : HandlerError)
        → result ≡ err e
        → may_still_confirm e ≡ true
        → w ≡ record v { claim = some now }
        → ItemEnding now result v w
    paused :
        (e : HandlerError)
        → result ≡ err e
        → may_still_confirm e ≡ false
        → is_market_paused_error e ≡ true
        → w ≡ record v { claim = none }
        → ItemEnding now result v w
    refused :
        (e : HandlerError)
        → result ≡ err e
        → may_still_confirm e ≡ false
        → is_market_paused_error e ≡ false
        → w ≡ guarded_view (record v { claim = none })
        → ItemEnding now result v w

  with_claim-listed :
      (key : String) (body : Run W → Run W) (r : Run W) (n : ℕ)
      → lookup key (keys r).frozen_order_blacklist ≡ some n
      → with_claim chain cfg key body r ≡ count_error r
  unfolding with_claim contains_key
  with_claim-listed key body r n l = rw (with_claim, contains_key, l) refl

  with_claim-in_flight :
      (key : String) (body : Run W → Run W) (r : Run W)
      → lookup key (keys r).frozen_order_blacklist ≡ none
      → claim_key (chain.now r.world) key (keys r).in_flight_keys ≡ none
      → with_claim chain cfg key body r ≡ r
  unfolding with_claim contains_key
  with_claim-in_flight key body r l c = rw (with_claim, contains_key, l, c) refl

  with_claim-processed :
      (key : String) (body : Run W → Run W) (r : Run W) (m : Map ℕ)
      → lookup key (keys r).frozen_order_blacklist ≡ none
      → claim_key (chain.now r.world) key (keys r).in_flight_keys ≡ some m
      → with_claim chain cfg key body r
        ≡ body (with_keys (record (keys r) { in_flight_keys = m }) r)
  unfolding with_claim contains_key
  with_claim-processed key body r m l c = rw (with_claim, contains_key, l, c) refl

  pub with_claim-Step :
      (key : String) (body : Run W → Run W) (r : Run W) (Ending : View → Type 0)
      → ((m : Map ℕ)
          → claim_key (chain.now r.world) key (keys r).in_flight_keys ≡ some m
          → Ending (view key (keys (body (with_keys (record (keys r) { in_flight_keys = m }) r)))))
      → Step
          (chain.now r.world)
          (view key (keys r))
          Ending
          (view key (keys (with_claim chain cfg key body r)))
  with_claim-Step key body r Ending h =
      let now = chain.now r.world in
      let seen : Run W → View = λ x. view key (keys x) in
      elim (Option-cases (lookup key (keys r).frozen_order_blacklist)) [
        | inr (n, l) ↦ listed n l (ap seen {y = count_error r} (with_claim-listed key body r n l))
        | inl free ↦ elim (Option-cases (claim_key now key (keys r).in_flight_keys)) [
          | inl c ↦
              let busy = claim_key-busy now key (keys r).in_flight_keys c in
              in_flight busy.0 busy.1 busy.2 (ap seen (with_claim-in_flight key body r free c))
          | inr (m, c) ↦
              processed free (claim_key-free now key (keys r).in_flight_keys m c)
                (subst Ending (ap seen (sym (with_claim-processed key body r m free c))) (h m c))
        ]
      ]
