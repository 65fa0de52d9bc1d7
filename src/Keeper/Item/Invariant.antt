-- ===== src/Keeper/Item/Invariant.antt =====
-- The counters stay below their limits for every key that is not on the blacklist, and an item
-- leaves every other key alone.
use so4_oracle.Prelude.{
  ℕ, ◌<◌, ◌≡◌, refl, ◌∙◌, ◌⊎◌, inl, inr, Bool, true, false, Option, none, some, List, [], ◌∷◌, All,
  ap, subst, sym, String, arith, str_eq, str_eq_iff, Bool-cases,
}
use so4_oracle.State.{KeyTables}
use so4_oracle.Keeper.Handler.{Chain, KeeperConfig}
use so4_oracle.Keeper.Run.{Run, CycleSummary, keys}
use so4_oracle.Keeper.Item.{Kind, release, process_order, process_item, for_each}
use so4_oracle.Keeper.Item.Moves.{
  Ran, order_done, item_done, timed_out, paused, failed, failed_frozen, failed_unfrozen, Move,
  passed, ran, process_order-Move, process_item-Move,
}
use so4_oracle.Keeper.Item.View.{
  View, view, is_some, guarded_view, freeze_failed_view, view-claim, view-release,
  view-order_succeeded, view-item_succeeded, view-order_frozen, view-freeze_failed, view-guarded,
  view-claim_other, view-release_other, view-order_succeeded_other, view-item_succeeded_other,
  view-order_frozen_other, view-freeze_failed_other, view-guarded_other,
}

-- A count below its limit, or a key on the blacklist.
abbrev pub Within : ℕ → Option ℕ → Bool → Type 0
Within limit none listed = Unit
Within limit (some n) listed = (n < limit) ⊎ (listed ≡ true)

abbrev pub KeyIsBounded : View → Type 0
KeyIsBounded v = Within 5 v.fails (is_some v.listed) × Within 3 v.freezes (is_some v.listed)

abbrev pub IsBounded : KeyTables → Type 0
IsBounded t = (k : String) → KeyIsBounded (view k t)

carry : {v w : View} → v ≡ w → KeyIsBounded w → KeyIsBounded v
carry e b = subst KeyIsBounded (sym e) b

guarded_view-IsBounded : (v : View) → KeyIsBounded v → KeyIsBounded (guarded_view v)
guarded_view-IsBounded v b = ground arith

freeze_failed_view-IsBounded : (v : View) → KeyIsBounded v → KeyIsBounded (freeze_failed_view v)
freeze_failed_view-IsBounded v b = ground arith

Ran-IsBounded :
    (key : String) (t u : KeyTables)
    → Ran key t u
    → KeyIsBounded (view key t)
    → KeyIsBounded (view key u)
Ran-IsBounded key t u (order_done q) b =
    carry (ap (view key) q ∙ view-order_succeeded key t) (ground arith)
Ran-IsBounded key t u (item_done q) b =
    carry (ap (view key) q ∙ view-item_succeeded key t) (ground arith)
Ran-IsBounded key t u (timed_out q) b = carry (ap (view key) q) b
Ran-IsBounded key t u (paused q) b = carry (ap (view key) q ∙ view-release key t) b
Ran-IsBounded key t u (failed q) b =
    carry (ap (view key) q ∙ view-guarded key _ ∙ ap guarded_view (view-release key t))
      (guarded_view-IsBounded _ b)
Ran-IsBounded key t u (failed_frozen q) b =
    let r = release key t in
    carry
      (ap (view key) q
        ∙ view-guarded key _
        ∙ ap guarded_view (view-order_frozen key r)
        ∙ ap (λ v. guarded_view (record v { freezes = none; fails = none })) (view-release key t))
      (ground arith)
Ran-IsBounded key t u (failed_unfrozen q) b =
    let r = release key t in
    carry
      (ap (view key) q
        ∙ view-guarded key _
        ∙ ap guarded_view (view-freeze_failed key r)
        ∙ ap (λ v. guarded_view (freeze_failed_view v)) (view-release key t))
      (guarded_view-IsBounded _
        (freeze_failed_view-IsBounded (record (view key t) { claim = none }) b))

Ran-other :
    (k key : String) (t u : KeyTables) → str_eq key k ≡ false → Ran key t u → view k u ≡ view k t
Ran-other k key t u ne (order_done q) = ap (view k) q ∙ view-order_succeeded_other k key ne t
Ran-other k key t u ne (item_done q) = ap (view k) q ∙ view-item_succeeded_other k key ne t
Ran-other k key t u ne (timed_out q) = ap (view k) q
Ran-other k key t u ne (paused q) = ap (view k) q ∙ view-release_other k key ne t
Ran-other k key t u ne (failed q) =
    ap (view k) q ∙ view-guarded_other k key ne _ ∙ view-release_other k key ne t
Ran-other k key t u ne (failed_frozen q) =
    ap (view k) q
    ∙ view-guarded_other k key ne _
    ∙ view-order_frozen_other k key ne _
    ∙ view-release_other k key ne t
Ran-other k key t u ne (failed_unfrozen q) =
    ap (view k) q
    ∙ view-guarded_other k key ne _
    ∙ view-freeze_failed_other k key ne _
    ∙ view-release_other k key ne t

pub Move-other :
    (k key : String) (now : ℕ) (t u : KeyTables)
    → str_eq key k ≡ false
    → Move key now t u
    → view k u ≡ view k t
Move-other k key now t u ne (passed q) = ap (view k) q
Move-other k key now t u ne (ran m p c r) =
    Ran-other k key (record t { in_flight_keys = m }) u ne r ∙ view-claim_other k key ne t now m c

Move-IsBounded :
    (key : String) (now : ℕ) (t u : KeyTables) → Move key now t u → IsBounded t → IsBounded u
Move-IsBounded key now t u (passed q) b k = carry (ap (view k) q) (b k)
Move-IsBounded key now t u (ran m p c r) b k = elim (Bool-cases (str_eq key k)) [
  | inl same ↦
      subst (λ i. KeyIsBounded (view i u)) ((str_eq_iff key k).0 same)
        (Ran-IsBounded key (record t { in_flight_keys = m }) u r
          (carry (view-claim key t now m c) (b key)))
  | inr ne ↦ carry (Move-other k key now t u ne (ran m p c r)) (b k)
]

module _ {W : Type 0} (chain : Chain W) (cfg : KeeperConfig) where
  -- If no key off the blacklist has five execution failures or three freeze failures on record, that
  -- stays so over a whole list of orders, whatever the network answers.
  pub orders-IsBounded :
      (orders : List String) (r : Run W)
      → IsBounded (keys r)
      → IsBounded (keys (for_each chain cfg (process_order chain cfg) orders r))
  unfolding for_each
  orders-IsBounded [] r b = b
  orders-IsBounded (key ∷ rest) r b =
      orders-IsBounded rest (process_order chain cfg key r)
        (Move-IsBounded key _ _ _ (process_order-Move chain cfg key r) b)

  -- If no key off the blacklist has five execution failures or three freeze failures on record, that
  -- stays so over a whole list of deposits or withdrawals, whatever the network answers.
  pub items-IsBounded :
      (kind : Kind) (count : CycleSummary → CycleSummary) (stale : Bool) (items : List String)
      (r : Run W)
      → IsBounded (keys r)
      → IsBounded (keys (for_each chain cfg (process_item chain cfg kind count stale) items r))
  unfolding for_each
  items-IsBounded kind count stale [] r b = b
  items-IsBounded kind count stale (key ∷ rest) r b =
      items-IsBounded kind count stale rest (process_item chain cfg kind count stale key r)
        (Move-IsBounded key _ _ _ (process_item-Move chain cfg kind count stale key r) b)

  -- Processing a list of orders that does not name a key changes nothing of what the four key tables
  -- say of that key.
  pub orders-other :
      (k : String) (orders : List String) (r : Run W)
      → All (λ key. str_eq key k ≡ false) orders
      → view k (keys (for_each chain cfg (process_order chain cfg) orders r)) ≡ view k (keys r)
  unfolding for_each
  orders-other k [] r h = refl
  orders-other k (key ∷ rest) r h =
      orders-other k rest (process_order chain cfg key r) h.1
      ∙ Move-other k key _ _ _ h.0 (process_order-Move chain cfg key r)
