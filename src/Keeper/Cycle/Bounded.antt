-- ===== src/Keeper/Cycle/Bounded.antt =====
-- keeper_loop.rs, `execute_keeper_cycle`: the counters of the key tables over a whole cycle.
use so4_oracle.Prelude.{
  ◌≡◌, sym, subst, Bool-cases, Bool, true, false, ◌||◌, some, Option-cases, inl, inr, String,
  is_empty, arith, transfer, if◌then◌else◌,
}
use so4_oracle.Prelude.Result.{Result, ok, err}
use so4_oracle.Prelude.Map.{Map}
use so4_oracle.State.{CachedPrice, Loop}
use so4_oracle.Keeper.Run.{Run, CycleSummary, keys}
use so4_oracle.Keeper.Item.{
  process_deposit, process_withdrawal, deposit_kind, withdrawal_kind, count_deposit,
  count_withdrawal,
}
use so4_oracle.Keeper.Item.Invariant.{IsBounded, orders-IsBounded, items-IsBounded}
use so4_oracle.Keeper.Cycle.{
  Setup, PendingKeys, swept_keys, sweep, check_balance, fresh_now, all_pending, show_pending,
  publish, run_items, after_publish, start_run, work, gated, execute_keeper_cycle, has_no_keys,
}
use so4_oracle.Keeper.Cycle.Gates.{all_pending-Kept}

module _ {W F : Type 0} (setup : Setup W F) where
  swept_keys-IsBounded : (s : Loop W) → IsBounded s.app.keys → IsBounded (swept_keys setup s)
  unfolding swept_keys
  swept_keys-IsBounded s b = b

  publish-keys : (fresh : Map CachedPrice) (r : Run W) → keys (publish setup fresh r).1 ≡ keys r
  unfolding publish
  publish-keys fresh r = ground arith

  run_items-IsBounded :
      (stale : Bool) (p : PendingKeys) (r : Run W)
      → IsBounded (keys r)
      → IsBounded (keys (run_items setup stale p r))
  unfolding run_items process_deposit process_withdrawal
  run_items-IsBounded stale p r b =
      let chain = setup.chain in
      let cfg = setup.cfg in
      items-IsBounded chain cfg (withdrawal_kind chain cfg) (count_withdrawal chain cfg) stale
        p.withdrawals _
        (items-IsBounded chain cfg (deposit_kind chain cfg) (count_deposit chain cfg) stale
          p.deposits r b)

  abbrev Ends : Result String CycleSummary × Loop W → Type 0
  Ends r = IsBounded r.1.app.keys

  after_publish-Ends :
      (p : PendingKeys) (x : Result String (Unit {0}) × Run W)
      → IsBounded (keys x.1)
      → Ends (after_publish setup p x)
  unfolding after_publish
  after_publish-Ends p (err e, r) b = b
  after_publish-Ends p (ok u, r) b =
      run_items-IsBounded false p _ (orders-IsBounded setup.chain setup.cfg p.orders r b)

  Ends-if :
      (b : Bool) (x y : Result String CycleSummary × Loop W)
      → Ends x
      → Ends y
      → Ends (if b then x else y)
  Ends-if true x y hx hy = hx
  Ends-if false x y hx hy = hy

  work-Ends :
      (fresh : Map CachedPrice) (p : PendingKeys) (s : Loop W)
      → IsBounded s.app.keys
      → Ends (work setup fresh p s)
  unfolding work
  work-Ends fresh p s b =
      let r = start_run setup (is_empty fresh) s in
      Ends-if (is_empty fresh) _ _ (run_items-IsBounded true p r b) (
        after_publish-Ends p (publish setup fresh r)
          (subst IsBounded (sym (publish-keys fresh r)) b))

  gated-Ends :
      (low : Bool) (fresh : Map CachedPrice) (p : PendingKeys) (s : Loop W)
      → IsBounded s.app.keys
      → Ends (gated setup low fresh p s)
  unfolding gated
  gated-Ends low fresh p s b = elim (Bool-cases (has_no_keys setup p || low)) [
    | inl closed ↦ rw (closed, gated) b
    | inr through ↦ rw (through, gated) (work-Ends fresh p s b)
  ]

  -- If no key off the blacklist has five execution failures or three freeze failures on record, that is
  -- so again after every whole cycle of the keeper that ends without a panic: the sweep, the reads, the
  -- write of the prices and the three loops, whatever the network answers.
  pub execute_keeper_cycle-IsBounded :
      (s : Loop W) (r : Result String CycleSummary × Loop W)
      → IsBounded s.app.keys
      → execute_keeper_cycle setup s ≡ some r
      → IsBounded r.1.app.keys
  unfolding execute_keeper_cycle check_balance sweep show_pending
  execute_keeper_cycle-IsBounded s r b e =
      let checked = check_balance setup (sweep setup s) in
      elim (Option-cases (all_pending setup checked.1)) [
        | inl q ↦ absurd (ground arith)
        | inr (p, q) ↦
            let kept = all_pending-Kept setup checked.1 p q in
            let before : IsBounded p.1.app.keys =
              subst IsBounded (sym kept.0) (swept_keys-IsBounded s b) in
            transfer Ends (rw (q, execute_keeper_cycle) at e) (
              gated-Ends checked.0 (fresh_now setup checked.1) p.0 (show_pending setup p.0 p.1)
                before)
      ]
