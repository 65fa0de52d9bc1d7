-- ===== src/Keeper/Item/View.antt =====
-- What the key tables say of one key, and what each table operation does to that.
use so4_oracle.Prelude.{
  ℕ, ◌+◌, ◌≡◌, Bool, true, false, not, ◌&&◌, Option, none, some, String, arith, leb, str_eq,
  str_eq_refl, if◌then◌else◌,
}
use so4_oracle.Prelude.Map.{Map, lookup, insert, remove, contains_key, lookup-insert, lookup-remove}
use so4_oracle.State.{KeyTables}
use so4_oracle.Keeper.Item.{
  claim_key, bump, release, order_succeeded, item_succeeded, order_frozen, freeze_failed,
  execution_failed, abandoned,
}
use so4_oracle.Keeper.Item.Tables.{guarded}

pub record View : Type 0 where
  pub claim : Option ℕ
  pub freezes : Option ℕ
  pub fails : Option ℕ
  pub listed : Option ℕ

abbrev pub view : String → KeyTables → View
view k t = record {
  claim = lookup k t.in_flight_keys;
  freezes = lookup k t.freeze_failure_counts;
  fails = lookup k t.execution_failure_counts;
  listed = lookup k t.frozen_order_blacklist;
}

abbrev pub is_some {ℓ} : {A : Type ℓ} → Option A → Bool
is_some none = false
is_some (some a) = true

abbrev pub next : Option ℕ → ℕ
next none = 1
next (some n) = n + 1

abbrev pub freeze_failed_view : View → View
freeze_failed_view v = record v {
  freezes = some (next v.freezes);
  listed = if leb 3 (next v.freezes) then some (next v.freezes) else v.listed;
}

abbrev pub guarded_view : View → View
guarded_view v =
    if leb 5 (next v.fails) && not (is_some v.listed)
    then record v { fails = none; listed = some (next v.fails) }
    else record v { fails = some (next v.fails) }

-- The own key of the operation.
module _ (key : String) (t : KeyTables) where
  pub view-claim :
      (now : ℕ) (m : Map ℕ)
      → claim_key now key t.in_flight_keys ≡ some m
      → view key (record t { in_flight_keys = m }) ≡ record (view key t) { claim = some now }
  unfolding claim_key
  view-claim now m h = ground (
    arith,
    str_eq_refl key,
    lookup-insert key key now t.in_flight_keys,
    lookup-insert key key now (remove key t.in_flight_keys),
  )

  pub view-release : view key (release key t) ≡ record (view key t) { claim = none }
  view-release = ground (arith, str_eq_refl key, lookup-remove key key t.in_flight_keys)

  pub view-order_succeeded :
      view key (order_succeeded key t)
      ≡ record (view key t) { claim = none; freezes = none; fails = none }
  unfolding order_succeeded
  view-order_succeeded = ground (
    arith,
    str_eq_refl key,
    lookup-remove key key t.in_flight_keys,
    lookup-remove key key t.freeze_failure_counts,
    lookup-remove key key t.execution_failure_counts,
  )

  pub view-item_succeeded :
      view key (item_succeeded key t) ≡ record (view key t) { claim = none; fails = none }
  unfolding item_succeeded
  view-item_succeeded = ground (
    arith,
    str_eq_refl key,
    lookup-remove key key t.in_flight_keys,
    lookup-remove key key t.execution_failure_counts,
  )

  pub view-order_frozen :
      view key (order_frozen key t) ≡ record (view key t) { freezes = none; fails = none }
  unfolding order_frozen
  view-order_frozen = ground (
    arith,
    str_eq_refl key,
    lookup-remove key key t.freeze_failure_counts,
    lookup-remove key key t.execution_failure_counts,
  )

  pub view-freeze_failed : view key (freeze_failed key t) ≡ freeze_failed_view (view key t)
  unfolding freeze_failed bump
  view-freeze_failed =
      let n = next (lookup key t.freeze_failure_counts) in
      ground (
        arith,
        str_eq_refl key,
        lookup-insert key key n t.freeze_failure_counts,
        lookup-insert key key n t.frozen_order_blacklist,
      )

  pub view-guarded : view key (guarded key t) ≡ guarded_view (view key t)
  unfolding execution_failed abandoned bump contains_key
  view-guarded =
      let n = next (lookup key t.execution_failure_counts) in
      ground (
        arith,
        str_eq_refl key,
        lookup-insert key key n t.execution_failure_counts,
        lookup-remove key key (insert key n t.execution_failure_counts),
        lookup-insert key key n t.frozen_order_blacklist,
      )

-- Any other key.
module _ (k key : String) (other : str_eq key k ≡ false) (t : KeyTables) where
  pub view-claim_other :
      (now : ℕ) (m : Map ℕ)
      → claim_key now key t.in_flight_keys ≡ some m
      → view k (record t { in_flight_keys = m }) ≡ view k t
  unfolding claim_key
  view-claim_other now m h = ground (
    arith,
    lookup-insert k key now t.in_flight_keys,
    lookup-insert k key now (remove key t.in_flight_keys),
    lookup-remove k key t.in_flight_keys,
  )

  pub view-release_other : view k (release key t) ≡ view k t
  view-release_other = ground (arith, lookup-remove k key t.in_flight_keys)

  pub view-order_succeeded_other : view k (order_succeeded key t) ≡ view k t
  unfolding order_succeeded
  view-order_succeeded_other = ground (
    arith,
    lookup-remove k key t.in_flight_keys,
    lookup-remove k key t.freeze_failure_counts,
    lookup-remove k key t.execution_failure_counts,
  )

  pub view-item_succeeded_other : view k (item_succeeded key t) ≡ view k t
  unfolding item_succeeded
  view-item_succeeded_other =
      ground (
        arith,
        lookup-remove k key t.in_flight_keys,
        lookup-remove k key t.execution_failure_counts,
      )

  pub view-order_frozen_other : view k (order_frozen key t) ≡ view k t
  unfolding order_frozen
  view-order_frozen_other = ground (
    arith,
    lookup-remove k key t.freeze_failure_counts,
    lookup-remove k key t.execution_failure_counts,
  )

  pub view-freeze_failed_other : view k (freeze_failed key t) ≡ view k t
  unfolding freeze_failed bump
  view-freeze_failed_other =
      let n = next (lookup key t.freeze_failure_counts) in
      ground (
        arith,
        lookup-insert k key n t.freeze_failure_counts,
        lookup-insert k key n t.frozen_order_blacklist,
      )

  pub view-guarded_other : view k (guarded key t) ≡ view k t
  unfolding execution_failed abandoned bump contains_key
  view-guarded_other =
      let n = next (lookup key t.execution_failure_counts) in
      ground (
        arith,
        lookup-insert k key n t.execution_failure_counts,
        lookup-remove k key (insert key n t.execution_failure_counts),
        lookup-insert k key n t.frozen_order_blacklist,
      )
