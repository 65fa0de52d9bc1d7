-- ===== src/Keeper/Cycle.antt =====
-- keeper_loop.rs, `execute_keeper_cycle`: one cycle of the keeper, from its gates to its loops.
-- The three lists of keys are fetched one after another.
pub mod Gates
pub mod Bounded
pub mod Timed
pub mod Rounds
pub mod Sustained
use so4_oracle.Prelude.{
  ℕ, ◌+◌, ◌/◌, ◌%◌, ◌^◌, Bool, true, false, not, ◌&&◌, ◌||◌, Option, none, some, List, [], ◌∷◌,
  String, str_eq, is_empty, length, if◌then◌else◌,
}
use so4_oracle.Prelude.Int.{ℤ}
use so4_oracle.Prelude.Map.{Map, insert}
use so4_oracle.Prelude.Result.{Result, ok, err}
use so4_oracle.Float.{Float}
use so4_oracle.Metrics.{record_keeper_cycle, record_submit_failure}
use so4_oracle.Rpc.{RpcError, balance_below_minimum}
use so4_oracle.State.{AppState, KeyTables, CachedPrice, PriceCache, Loop}
use so4_oracle.Prices.Median.{Checked}
use so4_oracle.Sources.Token.{TokenConfig, lookup_key}
use so4_oracle.PriceLoop.Cycle.{is_stale}
use so4_oracle.Keeper.Handler.{Chain, KeeperConfig, HandlerError}
use so4_oracle.Keeper.Run.{Run, CycleSummary, skipped, record_error}
use so4_oracle.Keeper.Item.{process_order, process_deposit, process_withdrawal, for_each}
use so4_oracle.Keeper.Threshold.{
  is_heartbeat_due, filter_prices_by_threshold, update_submitted_prices,
}
use so4_oracle.Keeper.Pending.{sweep_expired_in_flight_keys}
use so4_oracle.Keeper.Pending.Fetch.{ReaderConfig, Outcome, get_pending_keys}
use so4_oracle.Keeper.Simulate.{Reader}
use so4_oracle.Keeper.Publish.{set_prices_on_chain}
use so4_oracle.Keeper.Balance.{Horizon, KeeperBalanceConfig, check_keeper_balance}

-- POST_SET_PRICES_SETTLE_MS
abbrev pub post_set_prices_settle_ms : ℕ
post_set_prices_settle_ms = 5_000

-- What a cycle is set up with: the configuration, and what it calls outside the repository.
pub record Setup (W F : Type 0) : Type 0 where
  pub chain : Chain W
  pub cfg : KeeperConfig
  pub reader : Reader
  pub reader_config : ReaderConfig
  pub floats : Float F
  pub horizon : Horizon W F
  pub balance_config : KeeperBalanceConfig F
  pub tokens : List TokenConfig
  pub to_lowercase : String → String

pub record PendingKeys : Type 0 where
  pub orders : List String
  pub deposits : List String
  pub withdrawals : List String

abbrev find_token : (String → String) → String → List TokenConfig → Option TokenConfig
find_token to_lowercase key [] = none
find_token to_lowercase key (t ∷ rest) =
    if str_eq (lookup_key to_lowercase t) key then some t else find_token to_lowercase key rest

-- `tokens.iter().map(|t| (t.lookup_key(), t.submit_threshold_bps)).collect()`
unfoldable pub thresholds_of : (String → String) → List TokenConfig → Map ℕ → Map ℕ
thresholds_of to_lowercase [] m = m
thresholds_of to_lowercase (t ∷ rest) m =
    thresholds_of to_lowercase rest (insert (lookup_key to_lowercase t) t.submit_threshold_bps m)

abbrev pub is_balance_low : Result RpcError ℤ → Bool
is_balance_low (err (balance_below_minimum stroops balance minimum)) = true
is_balance_low _ = false

-- `result.unwrap_or_else(|e| Vec::new())`
abbrev or_no_keys : Result String (List String) → List String
or_no_keys (ok keys) = keys
or_no_keys (err e) = []

module _ {W F : Type 0} (setup : Setup W F) where
  open setup use {chain, cfg, tokens, to_lowercase}

  abbrev with_app : AppState → Loop W → Loop W
  with_app app s = record s { app = app }

  unfoldable pub swept_keys : Loop W → KeyTables
  swept_keys s = record s.app.keys {
    in_flight_keys = sweep_expired_in_flight_keys (chain.now s.world) s.app.keys.in_flight_keys;
  }

  unfoldable pub sweep : Loop W → Loop W
  sweep s = with_app (record s.app { keys = swept_keys s }) s

  -- Only a balance that is known to be too low counts.
  unfoldable pub check_balance : Loop W → Bool × Loop W
  check_balance s =
      let ((result, below_min), w) =
        check_keeper_balance setup.floats setup.horizon setup.balance_config
          s.app.keeper_balance_below_min s.world in
      (
        is_balance_low result,
        record { app = record s.app { keeper_balance_below_min = below_min }; world = w },
      )

  -- The cached prices of configured tokens that are not stale.
  unfoldable pub fresh_prices : (now : ℕ) → Map CachedPrice → Map CachedPrice
  fresh_prices now [] = []
  fresh_prices now ((key, price) ∷ rest) =
      let later = fresh_prices now rest in
      elim (find_token to_lowercase key tokens) [
        | none ↦ later
        | some t ↦ if is_stale price t.stale_after_seconds now then later else (key, price) ∷ later
      ]

  abbrev clock_secs : W → ℕ
  clock_secs w = chain.wall w / 10 ^ 9

  abbrev fresh_now : Loop W → Map CachedPrice
  fresh_now s = fresh_prices (clock_secs s.world) s.app.price_cache.prices

  -- Keys that cannot be read are no keys.
  unfoldable pub pending :
      (count_method keys_method : String) → Loop W → Checked (List String × Loop W)
  pending count_method keys_method s =
      elim (get_pending_keys chain cfg setup.reader setup.reader_config count_method keys_method
        s) [ none ↦ none | some (keys, s') ↦ some (or_no_keys keys, s') ]

  unfoldable pub all_pending : Loop W → Checked (PendingKeys × Loop W)
  all_pending s = elim (pending "get_order_count" "get_order_keys" s) [
    | none ↦ none
    | some (orders, s1) ↦ elim (pending "get_deposit_count" "get_deposit_keys" s1) [
      | none ↦ none
      | some (deposits, s2) ↦ elim (pending "get_withdrawal_count" "get_withdrawal_keys" s2) [
        | none ↦ none
        | some (withdrawals, s3) ↦
            some (record { orders = orders; deposits = deposits; withdrawals = withdrawals }, s3)
      ]
    ]
  ]

  unfoldable pub show_pending : PendingKeys → Loop W → Loop W
  show_pending p s =
      with_app
        (record s.app {
          keeper_status = record s.app.keeper_status {
            pending_orders = length p.orders;
            pending_deposits = length p.deposits;
            pending_withdrawals = length p.withdrawals;
          };
        })
        s

  abbrev has_no_keys : PendingKeys → Bool
  has_no_keys p = is_empty p.orders && is_empty p.deposits && is_empty p.withdrawals

  abbrev with_cache : PriceCache → Run W → Run W
  with_cache cache r = record r { app = record r.app { price_cache = cache } }

  -- Behind the transaction: what was written is remembered, and the prices settle.
  abbrev published : Map CachedPrice → (now : ℕ) → Bool → Run W → Run W
  published prices now is_heartbeat r =
      record (with_cache (update_submitted_prices prices now is_heartbeat r.app.price_cache) r) {
        world = chain.node.sleep post_set_prices_settle_ms r.world;
      }

  -- The write of the prices: nothing is due, or the transaction succeeds, or the cycle fails.
  unfoldable pub publish : Map CachedPrice → Run W → Result String (Unit {0}) × Run W
  publish fresh r =
      let now = clock_secs r.world in
      let is_heartbeat = is_heartbeat_due r.app.price_cache now in
      let due =
        filter_prices_by_threshold (thresholds_of to_lowercase tokens []) r.app.price_cache fresh
          is_heartbeat in
      let prices = if is_heartbeat then fresh else due in
      if is_empty due && not is_heartbeat
      then (ok tt, r)
      else let (result, w) = set_prices_on_chain chain cfg prices r.world in
        let r' = record r { world = w } in
        elim result [
          | err e ↦ (err e.message, r')
          | ok hash ↦ (ok tt, published prices now is_heartbeat r')
        ]

  -- The loops over deposits and withdrawals, and the end of the cycle.
  unfoldable pub run_items : Bool → PendingKeys → Run W → Run W
  run_items prices_stale p r =
      for_each chain cfg (process_withdrawal chain cfg prices_stale) p.withdrawals
        (for_each chain cfg (process_deposit chain cfg prices_stale) p.deposits r)

  abbrev loop_of : Run W → Loop W
  loop_of r = record { app = r.app; world = r.world }

  abbrev finished : Run W → Result String CycleSummary × Loop W
  finished r = (ok r.summary, loop_of r)

  -- A failed write ends the cycle; otherwise the orders come first.
  unfoldable pub after_publish :
      PendingKeys → Result String (Unit {0}) × Run W → Result String CycleSummary × Loop W
  after_publish p (err e, r) = (err e, loop_of r)
  after_publish p (ok _, r) =
      finished (run_items false p (for_each chain cfg (process_order chain cfg) p.orders r))

  -- The local variables at the start of the submissions.
  abbrev pub start_run : Bool → Loop W → Run W
  start_run prices_stale s = record {
    app = s.app;
    summary = skipped prices_stale false;
    sequence_cache = none;
    world = s.world;
  }

  -- With work to do and a balance that is not low.
  unfoldable pub work : Map CachedPrice → PendingKeys → Loop W → Result String CycleSummary × Loop W
  work fresh p s =
      let r = start_run (is_empty fresh) s in
      if is_empty fresh then finished (run_items true p r) else after_publish p (publish fresh r)

  -- The gates behind the keys.
  unfoldable pub gated :
      (keeper_balance_low : Bool)
      → Map CachedPrice
      → PendingKeys
      → Loop W
      → Result String CycleSummary × Loop W
  gated keeper_balance_low fresh p s =
      if has_no_keys p || keeper_balance_low
      then (ok (skipped (is_empty fresh) keeper_balance_low), s)
      else work fresh p s

  unfoldable pub execute_keeper_cycle : Loop W → Checked (Result String CycleSummary × Loop W)
  execute_keeper_cycle s =
      let (keeper_balance_low, s1) = check_balance (sweep s) in
      let fresh = fresh_now s1 in
      elim (all_pending s1) [
        | none ↦ none
        | some (p, s2) ↦ some (gated keeper_balance_low fresh p (show_pending p s2))
      ]
