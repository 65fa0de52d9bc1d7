-- ===== src/Prices/Median.antt =====
-- prices.rs: the median, the percentile and the band around the median.
pub mod Band
use so4_oracle.Prelude.{
  ℕ, suc, ◌+◌, ◌-◌, ◌*◌, ◌/◌, ◌%◌, ◌≤◌, ◌<◌, ◌≡◌, Bool, true, false, ◌||◌, Option, none, some, List,
  [], ◌∷◌, length, get_elem?, is_empty, ltb, leb, ◌==◌, if◌then◌else◌, arith, unwrap_or,
}
use mathlib.Core.Option.{map as option_map}
use so4_oracle.Prelude.Int.{
  ℤ, pos, negsuc, ◌+ℤ◌, ◌-ℤ◌, ◌*ℤ◌, ◌/ℤ◌, checked, saturate, leb_ℤ, pos_part,
}
use so4_oracle.Float.{Float, of_ℕ}
use so4_oracle.Prices.Sort.{sort}

abbrev pub Checked {ℓ} : Type ℓ → Type ℓ
Checked A = Option A

infixl 5 ◌>>=◌
abbrev pub ◌>>=◌ {ℓ κ} : {A : Type ℓ} {B : Type κ} → Checked A → (A → Checked B) → Checked B
none >>= f = none
some a >>= f = f a

-- `(sorted[n / 2 - 1] + sorted[n / 2]) / 2`, or `sorted[n / 2]`.
unfoldable pub middle : List ℤ → Checked ℤ
middle sorted =
    let n = length sorted in
    let even = (do
      a ← get_elem? sorted (n / 2 - 1)
      b ← get_elem? sorted (n / 2)
      total ← checked (a +ℤ b)
      some (total /ℤ 2)) in
    if n % 2 == 0 then even else get_elem? sorted (n / 2)

unfoldable pub compute_median_allow_single : List ℤ → Checked (Option ℤ)
unfolding middle
compute_median_allow_single prices =
    if is_empty prices then some none else (do m ← middle (sort prices); some (some m))

unfoldable pub compute_median : List ℤ → Checked (Option ℤ)
compute_median prices =
    if ltb (length prices) 2 then some none else compute_median_allow_single prices

pub record PriceProps : Type 0 where
  pub min_price : ℤ
  pub max_price : ℤ

-- `.max(0)`
abbrev pub at_least_zero : ℤ → ℤ
at_least_zero (pos n) = pos n
at_least_zero (negsuc n) = pos 0

-- `mid.saturating_mul(spread_bps as i128) / 10_000`
unfoldable pub spread_of : ℤ → ℕ → ℤ
spread_of mid spread_bps = saturate (mid *ℤ pos spread_bps) /ℤ 10_000

unfoldable pub widen : ℤ → ℤ → ℤ → PriceProps
widen low high spread = record {
  min_price = at_least_zero (saturate (low -ℤ spread));
  max_price = saturate (high +ℤ spread);
}

module _ {F : Type 0} (f : Float F) where
  open f use {of_int, to_int, add, sub, mul, div, floor, ceil, half}

  -- The index between two entries, interpolated and rounded to the nearest integer.
  interpolate : List ℤ → ℕ → Checked ℤ
  interpolate sorted p =
      let n = of_ℕ f (length sorted) in
      let idx = mul (div (of_ℕ f p) (of_ℕ f 100)) (sub n (of_ℕ f 1)) in
      let lo = pos_part (to_int (floor idx)) in
      let hi = pos_part (to_int (ceil idx)) in
      let between = (do
        lo_price ← get_elem? sorted lo
        hi_price ← get_elem? sorted hi
        let frac = sub idx (of_ℕ f lo)
        let lo_val = of_int lo_price
        let hi_val = of_int hi_price
        some (to_int (floor (add (add lo_val (mul frac (sub hi_val lo_val))) half)))) in
      if lo == hi then get_elem? sorted lo else between

  unfoldable pub percentile : List ℤ → ℕ → Checked ℤ
  unfolding interpolate
  percentile sorted p =
      if length sorted == 1 || p == 0
      then get_elem? sorted 0
      else if leb 100 p
      then get_elem? sorted (length sorted - 1)
      else interpolate sorted p

  -- MIN_SOURCES_FOR_PERCENTILE is 3. The median of a sorted list that is not empty is there.
  unfoldable pub compute_confidence_interval_with_spread : List ℤ → ℕ → Checked (Option PriceProps)
  compute_confidence_interval_with_spread prices spread_bps =
      let sorted = sort prices in
      let by_percentiles = (do
        low ← percentile sorted 10
        high ← percentile sorted 90
        mid ← compute_median_allow_single sorted
        some (some (widen low high (spread_of (unwrap_or mid low) spread_bps)))) in
      let by_median = (do
        mid ← compute_median_allow_single sorted
        some (option_map (λ m. widen m m (spread_of m spread_bps)) mid)) in
      if is_empty prices
      then some none
      else if leb 3 (length sorted)
      then by_percentiles
      else by_median

  unfoldable pub compute_confidence_interval : List ℤ → Checked (Option PriceProps)
  compute_confidence_interval prices = compute_confidence_interval_with_spread prices 100
