-- ===== src/Keeper/Threshold.antt =====
-- keeper_loop.rs: which of the cached prices a cycle writes on-chain, and what it remembers of them.
-- The `BTreeMap` of prices is taken in the order of its entries.
pub mod Moves
use so4_oracle.Prelude.{
  ℕ, ◌-◌, ◌*◌, ◌/◌, ◌^◌, ◌==◌, leb, Bool, true, false, Option, none, some, List, [], ◌∷◌, String,
  if◌then◌else◌, unwrap_or,
}
use so4_oracle.Prelude.Int.{ℤ, pos, ◌-ℤ◌, ◌*ℤ◌, abs, checked, ltb_ℤ}
use so4_oracle.Prelude.Map.{Map, lookup, insert}
use so4_oracle.State.{CachedPrice, PriceCache}

-- PRICE_HEARTBEAT_INTERVAL_SECS, BPS_DENOMINATOR
abbrev pub price_heartbeat_interval_secs : ℕ
price_heartbeat_interval_secs = 30

abbrev pub bps_denominator : ℤ
bps_denominator = pos 10_000

-- `checked_abs`
abbrev checked_abs : ℤ → Option ℤ
checked_abs a = checked (pos (abs a))

abbrev exceeds_bound : Option ℤ → Option ℤ → Bool
exceeds_bound none bound = true
exceeds_bound (some scaled_change) none = true
exceeds_bound (some scaled_change) (some bound) = ltb_ℤ bound scaled_change

abbrev change_of : ℤ → ℤ → Option ℤ
change_of last median = elim (checked (median -ℤ last)) [ none ↦ none | some d ↦ checked_abs d ]

abbrev bound_of : ℤ → ℕ → Option ℤ
bound_of last threshold_bps = elim (checked_abs last) [
  | none ↦ none
  | some a ↦ checked (a *ℤ pos threshold_bps)
]

-- An overflow in any step says that the move is to be submitted.
unfoldable pub move_exceeds_bps : ℤ → ℤ → ℕ → Bool
move_exceeds_bps last median threshold_bps = elim (change_of last median) [
  | none ↦ true
  | some change ↦
      if abs change == 0
      then false
      else exceeds_bound (checked (change *ℤ bps_denominator)) (bound_of last threshold_bps)
]

-- `now` is in seconds.
unfoldable pub is_heartbeat_due : PriceCache → ℕ → Bool
is_heartbeat_due cache now = elim cache.last_full_submission [
  | none ↦ true
  | some last ↦ leb price_heartbeat_interval_secs (now - last / 10 ^ 9)
]

-- The closure of the `filter`, without the heartbeat.
abbrev pub is_due : Option ℤ → ℕ → ℤ → Bool
is_due none threshold median = true
is_due (some last) threshold median =
    if threshold == 0 then true else move_exceeds_bps last median threshold

abbrev pub last_median : PriceCache → String → Option ℤ
last_median cache key = elim cache.last_submitted_medians [ none ↦ none | some m ↦ lookup key m ]

-- `token_thresholds` gives the threshold of a token by its key.
unfoldable pub filter_prices_by_threshold :
    Map ℕ → PriceCache → Map CachedPrice → (is_heartbeat : Bool) → Map CachedPrice
filter_prices_by_threshold token_thresholds cache [] is_heartbeat = []
filter_prices_by_threshold token_thresholds cache ((key, price) ∷ prices) is_heartbeat =
    let rest = filter_prices_by_threshold token_thresholds cache prices is_heartbeat in
    let threshold = unwrap_or (lookup key token_thresholds) 0 in
    if is_heartbeat
    then (key, price) ∷ rest
    else if is_due (last_median cache key) threshold price.median
    then (key, price) ∷ rest
    else rest

-- `for (s, p) in prices { submitted.insert(s.clone(), p.median); }`
unfoldable pub record_medians : Map CachedPrice → Map ℤ → Map ℤ
record_medians [] medians = medians
record_medians ((key, price) ∷ prices) medians =
    record_medians prices (insert key price.median medians)

unfoldable pub update_submitted_prices :
    Map CachedPrice → (now : ℕ) → (is_heartbeat : Bool) → PriceCache → PriceCache
update_submitted_prices prices now is_heartbeat cache =
    if is_heartbeat
    then record cache {
      last_full_submission = some (now * 10 ^ 9);
      last_submitted_medians = some (record_medians prices []);
    }
    else record cache {
      last_submitted_medians =
          some (record_medians prices (unwrap_or cache.last_submitted_medians []));
    }
