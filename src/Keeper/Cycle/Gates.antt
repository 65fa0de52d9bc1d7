-- ===== src/Keeper/Cycle/Gates.antt =====
-- keeper_loop.rs, `execute_keeper_cycle`: what a cycle leaves alone that must not submit.
use so4_oracle.Prelude.{
  ℕ, ◌==◌, ◌≡◌, refl, ◌∙◌, Bool-cases, Bool, true, false, ◌||◌, none, some, Option-cases, inl, inr,
  List, [], ◌∷◌, String, is_empty, arith, transfer,
}
use so4_oracle.Prelude.Result.{Result, ok, Result-cases}
use so4_oracle.Prelude.Map.{Map}
use so4_oracle.State.{CachedPrice, Loop}
use so4_oracle.Keeper.Handler.{Chain, KeeperConfig}
use so4_oracle.Keeper.Run.{Run, CycleSummary, skipped}
use so4_oracle.Keeper.Item.{process_item, process_deposit, process_withdrawal, for_each}
use so4_oracle.Keeper.Pending.Fetch.{ReaderConfig, fetch_keys, get_pending_keys, simulate}
use so4_oracle.Keeper.Simulate.{Reader, parse_u32_from_result}
use so4_oracle.Keeper.Cycle.{
  Setup, PendingKeys, swept_keys, sweep, check_balance, fresh_now, pending, all_pending,
  show_pending, run_items, work, gated, has_no_keys, execute_keeper_cycle,
}

-- The key tables and the price cache are as they were.
abbrev pub Kept : {W : Type 0} → Loop W → Loop W → Type 0
Kept s s' = (s'.app.keys ≡ s.app.keys) × (s'.app.price_cache ≡ s.app.price_cache)

Kept-trans : {W : Type 0} (a b c : Loop W) → Kept a b → Kept b c → Kept a c
Kept-trans a b c p q = (q.0 ∙ p.0, q.1 ∙ p.1)

module _ {W : Type 0} (chain : Chain W) (cfg : KeeperConfig) (reader : Reader)
    (rc : ReaderConfig) where
  fetch_keys-Kept :
      (method : String) (count : ℕ) (s : Loop W) (r : Result String (List String) × Loop W)
      → fetch_keys chain cfg reader rc method count s ≡ some r
      → Kept s r.1
  unfolding fetch_keys
  fetch_keys-Kept method count s r e = ground arith

  get_pending_keys-Kept :
      (count_method keys_method : String) (s : Loop W) (r : Result String (List String) × Loop W)
      → get_pending_keys chain cfg reader rc count_method keys_method s ≡ some r
      → Kept s r.1
  unfolding get_pending_keys
  get_pending_keys-Kept count_method keys_method s r e =
      let reply =
        simulate chain cfg reader rc count_method (rc.data_store_contract_id ∷ []) s.world in
      let s' : Loop W = record s { world = reply.1 } in
      elim (Option-cases reply.0) [
        | inl q ↦ absurd (ground arith)
        | inr (x, q) ↦ elim (Result-cases x) [
          | inr (m, u) ↦ transfer (λ p. Kept s p.1) (rw (q, u, get_pending_keys) at e) (refl, refl)
          | inl (result, u) ↦ elim (Result-cases (parse_u32_from_result reader result)) [
            | inr (m, v) ↦
                transfer (λ p. Kept s p.1) (rw (q, u, v, get_pending_keys) at e) (refl, refl)
            | inl (count, v) ↦ elim (Bool-cases (count == 0)) [
              | inl z ↦
                  transfer (λ p. Kept s p.1) (rw (q, u, v, z, get_pending_keys) at e) (refl, refl)
              | inr z ↦
                  fetch_keys-Kept keys_method count s' r (rw (q, u, v, z, get_pending_keys) at e)
            ]
          ]
        ]
      ]

module _ {W F : Type 0} (setup : Setup W F) where
  pending-Kept :
      (count_method keys_method : String) (s : Loop W) (r : List String × Loop W)
      → pending setup count_method keys_method s ≡ some r
      → Kept s r.1
  unfolding pending
  pending-Kept count_method keys_method s r e =
      let found =
        get_pending_keys setup.chain setup.cfg setup.reader setup.reader_config count_method
          keys_method s in
      elim (Option-cases found) [
        | inl q ↦ absurd (ground arith)
        | inr (x, q) ↦
            transfer (λ p. Kept s p.1) (rw (q, pending) at e)
              (get_pending_keys-Kept setup.chain setup.cfg setup.reader setup.reader_config
                count_method keys_method s x q)
      ]

  pub all_pending-Kept :
      (s : Loop W) (r : PendingKeys × Loop W) → all_pending setup s ≡ some r → Kept s r.1
  unfolding all_pending
  all_pending-Kept s r e =
      elim (Option-cases (pending setup "get_order_count" "get_order_keys" s)) [
        | inl q ↦ absurd (ground arith)
        | inr (x, q) ↦
            elim (Option-cases (pending setup "get_deposit_count" "get_deposit_keys" x.1)) [
              | inl u ↦ absurd (ground arith)
              | inr (y, u) ↦
                  elim (Option-cases
                    (pending setup "get_withdrawal_count" "get_withdrawal_keys" y.1)) [
                      | inl v ↦ absurd (ground arith)
                      | inr (z, v) ↦
                          let first = pending-Kept _ _ s x q in
                          let second = pending-Kept _ _ x.1 y u in
                          let third = pending-Kept _ _ y.1 z v in
                          transfer (λ p. Kept s p.1) (rw (q, u, v, all_pending) at e)
                            (Kept-trans s x.1 z.1 first (Kept-trans x.1 y.1 z.1 second third))
                    ]
            ]
      ]

  for_each-idle :
      (step : String → Run W → Run W)
      → ((key : String) (r : Run W) → step key r ≡ r)
      → (keys : List String) (r : Run W) → for_each setup.chain setup.cfg step keys r ≡ r
  unfolding for_each
  for_each-idle step h [] r = refl
  for_each-idle step h (key ∷ keys) r = for_each-idle step h keys (step key r) ∙ h key r

  -- With no fresh price the loops over deposits and withdrawals pass every key over.
  run_items-stale : (p : PendingKeys) (r : Run W) → run_items setup true p r ≡ r
  unfolding run_items process_deposit process_withdrawal process_item
  run_items-stale p r =
      let deposits = process_deposit setup.chain setup.cfg true in
      let withdrawals = process_withdrawal setup.chain setup.cfg true in
      for_each-idle withdrawals (λ key s. refl) p.withdrawals _
      ∙ for_each-idle deposits (λ key s. refl) p.deposits r

  -- What a cycle finds out before it reads any key.
  abbrev pub low_at : Loop W → Bool
  low_at s = (check_balance setup (sweep setup s)).0

  abbrev pub fresh_at : Loop W → Map CachedPrice
  fresh_at s = fresh_now setup (check_balance setup (sweep setup s)).1

  -- The result of a cycle that did nothing, from a state.
  abbrev Idle : Bool → Map CachedPrice → Loop W → Result String CycleSummary × Loop W → Type 0
  Idle low fresh s r =
      (r.0 ≡ ok (skipped (is_empty fresh) low))
      × (r.1.app.keys ≡ s.app.keys)
      × (r.1.app.price_cache ≡ s.app.price_cache)

  gated-Idle :
      (low : Bool) (fresh : Map CachedPrice) (p : PendingKeys) (s : Loop W)
      → (low || is_empty fresh) ≡ true
      → Idle low fresh s (gated setup low fresh p s)
  unfolding gated work
  gated-Idle low fresh p s h = elim (Bool-cases (has_no_keys setup p || low)) [
    | inl closed ↦ rw (closed, gated) (refl, refl, refl)
    | inr through ↦
        let funded : low ≡ false = ground arith in
        let stale : is_empty fresh ≡ true = ground arith in
        let r : Run W = record {
          app = s.app;
          summary = skipped true false;
          sequence_cache = none;
          world = s.world;
        } in
        rw (through, stale, funded, gated, work, run_items-stale p r) (refl, refl, refl)
  ]

  -- In a cycle that ends without a panic, where the balance is known to be too low or no cached price
  -- of a configured token is fresh: the cycle reports no execution and no error, whatever keys wait and
  -- whatever the network answers; of the key tables only the sweep of expired claims is seen, and the
  -- price cache stays as it was.
  pub execute_keeper_cycle-idle :
      (s : Loop W) (r : Result String CycleSummary × Loop W)
      → (low_at s || is_empty (fresh_at s)) ≡ true
      → execute_keeper_cycle setup s ≡ some r
      → (r.0 ≡ ok (skipped (is_empty (fresh_at s)) (low_at s)))
        × (r.1.app.keys ≡ swept_keys setup s)
        × (r.1.app.price_cache ≡ s.app.price_cache)
  unfolding execute_keeper_cycle show_pending check_balance sweep
  execute_keeper_cycle-idle s r h e =
      let s1 = (check_balance setup (sweep setup s)).1 in
      elim (Option-cases (all_pending setup s1)) [
        | inl q ↦ absurd (ground arith)
        | inr (p, q) ↦
            let kept = all_pending-Kept s1 p q in
            let idle = gated-Idle (low_at s) (fresh_at s) p.0 (show_pending setup p.0 p.1) h in
            let same =
              transfer (Idle (low_at s) (fresh_at s) (show_pending setup p.0 p.1))
                (rw (q, execute_keeper_cycle) at e) idle in
            (same.0, same.1 ∙ kept.0, same.2 ∙ kept.1)
      ]
