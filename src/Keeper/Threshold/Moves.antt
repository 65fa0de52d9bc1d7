-- ===== src/Keeper/Threshold/Moves.antt =====
-- The threshold holds back no move beyond it, and a price that was just written is not written again.
use so4_oracle.Prelude.{
  ℕ, ◌*◌, ◌^◌, ◌≤◌, ◌<◌, ◌≡◌, ◌≢◌, refl, ◌∙◌, Bool, true, false, none, some, [], ◌∷◌, String, ltb,
  arith, unwrap_or, str_eq, str_eq_refl, str_eq_iff, Bool-cases, inl, inr, All, All-map,
}
use so4_oracle.Prelude.Int.{ℤ, pos, ◌-ℤ◌, abs, checked, fits_i128, pos_times}
use so4_oracle.Prelude.Map.{Map, lookup, insert, Unique, lookup-insert}
use so4_oracle.State.{CachedPrice, PriceCache}
use so4_oracle.Keeper.Threshold.{
  move_exceeds_bps, filter_prices_by_threshold, update_submitted_prices, record_medians,
  last_median,
}

abs-pos : (n : ℕ) → abs (pos n) ≡ n
unfolding abs
abs-pos n = ground arith

-- A move that is not submitted is within the threshold: the change, in basis points of the last
-- price, is at most `threshold_bps`.
pub move_exceeds_bps-within :
    (last median : ℤ) (threshold_bps : ℕ)
    → move_exceeds_bps last median threshold_bps ≡ false
    → abs (median -ℤ last) * 10_000 ≤ abs last * threshold_bps
unfolding move_exceeds_bps checked
move_exceeds_bps-within last median t h = ground (
  arith,
  abs-pos (abs (median -ℤ last)),
  pos_times (abs (median -ℤ last)) 10_000,
  pos_times (abs last) t,
)

-- A price that has not moved is held back.
same_price : (p : ℤ) (t : ℕ) → move_exceeds_bps p p t ≡ false
unfolding move_exceeds_bps checked fits_i128 ◌-ℤ◌ abs
same_price p t = ground arith

fits_of_abs : (a : ℤ) → abs a < 2 ^ 127 → fits_i128 a ≡ true
unfolding abs fits_i128
fits_of_abs a h = ground arith

fits_pos : (n : ℕ) → n < 2 ^ 127 → fits_i128 (pos n) ≡ true
unfolding fits_i128
fits_pos n h = ground arith

-- Where no product leaves the `i128` range, a move is submitted exactly if it is beyond the threshold.
pub move_exceeds_bps-exact :
    (last median : ℤ) (threshold_bps : ℕ)
    → abs (median -ℤ last) * 10_000 < 2 ^ 127
    → abs last < 2 ^ 127
    → abs last * threshold_bps < 2 ^ 127
    → move_exceeds_bps last median threshold_bps
      ≡ ltb (abs last * threshold_bps) (abs (median -ℤ last) * 10_000)
unfolding move_exceeds_bps checked
move_exceeds_bps-exact last median t a b c = ground (
  arith,
  fits_of_abs (median -ℤ last) (omega arith),
  fits_pos (abs (median -ℤ last)) (omega arith),
  fits_pos (abs last) b,
  fits_pos (abs last * t) c,
  fits_pos (abs (median -ℤ last) * 10_000) a,
  abs-pos (abs (median -ℤ last)),
  pos_times (abs (median -ℤ last)) 10_000,
  pos_times (abs last) t,
)

-- What the record of submitted medians says of a key once the prices are entered.
lookup-record_medians :
    (prices : Map CachedPrice) (medians : Map ℤ) (key : String)
    → Unique prices
    → lookup key (record_medians prices medians)
      ≡ elim (lookup key prices) [ none ↦ lookup key medians | some p ↦ some p.median ]
unfolding record_medians lookup
lookup-record_medians [] medians key u = refl
lookup-record_medians ((k, p) ∷ prices) medians key u = ground (
  arith,
  lookup-record_medians prices (insert k p.median medians) key u.1,
  lookup-insert key k p.median medians,
  str_eq_iff k key,
  str_eq_iff key k,
  u.0,
)

abbrev Recorded : PriceCache → Map CachedPrice → Type 0
Recorded cache = All λ e. last_median cache e.0 ≡ some e.1.median

abbrev pub Throttled : Map ℕ → Map CachedPrice → Type 0
Throttled token_thresholds = All λ e. unwrap_or (lookup e.0 token_thresholds) 0 ≢ 0

nothing_due :
    (token_thresholds : Map ℕ) (cache : PriceCache) (prices : Map CachedPrice)
    → Throttled token_thresholds prices
    → Recorded cache prices
    → filter_prices_by_threshold token_thresholds cache prices false ≡ []
unfolding filter_prices_by_threshold
nothing_due th cache [] t r = refl
nothing_due th cache ((key, price) ∷ prices) t r =
    rw (nothing_due th cache prices t.1 r.1, r.0)
      (ground (arith, t.0, same_price price.median (unwrap_or (lookup key th) 0)))

own_entries :
    (prices : Map CachedPrice) → Unique prices → All (λ e. lookup e.0 prices ≡ some e.1) prices
unfolding lookup
own_entries [] u = tt
own_entries ((k, p) ∷ prices) u = (
  rw (str_eq_refl k) refl,
  All-map
      (λ e h. elim (Bool-cases (str_eq k e.0)) [
        | inl same ↦ absurd (ground (arith, h, u.0, str_eq_iff k e.0))
        | inr other ↦ rw (other, h) refl
      ])
      prices (own_entries prices u.1),
)

update_submitted_prices-Recorded :
    (prices : Map CachedPrice) (now : ℕ) (is_heartbeat : Bool) (cache : PriceCache)
    → Unique prices
    → Recorded (update_submitted_prices prices now is_heartbeat cache) prices
unfolding update_submitted_prices
update_submitted_prices-Recorded prices now true cache u =
    All-map (λ e h. lookup-record_medians prices [] e.0 u ∙ rw h refl) prices (own_entries prices u)
update_submitted_prices-Recorded prices now false cache u =
    All-map
      (λ e h.
        lookup-record_medians prices (unwrap_or cache.last_submitted_medians []) e.0 u ∙ rw h refl)
      prices (own_entries prices u)

-- Where each token stands once and has a threshold above zero: the prices that were just written are
-- all held back while they do not move and no heartbeat is due.
pub filter_prices_by_threshold-update_submitted_prices :
    (token_thresholds : Map ℕ) (prices : Map CachedPrice) (now : ℕ) (is_heartbeat : Bool)
    (cache : PriceCache)
    → Unique prices
    → Throttled token_thresholds prices
    → filter_prices_by_threshold token_thresholds
        (update_submitted_prices prices now is_heartbeat cache)
        prices
        false
      ≡ []
filter_prices_by_threshold-update_submitted_prices th prices now is_heartbeat cache u t =
    nothing_due th (update_submitted_prices prices now is_heartbeat cache) prices t
      (update_submitted_prices-Recorded prices now is_heartbeat cache u)
