-- ===== src/Prices/Median/Band.antt =====
-- prices.rs, `compute_confidence_interval_with_spread`: the band and the median.
use so4_oracle.Prelude.{
  ℕ, ◌^◌, ◌<◌, ◌≡◌, false, ◌*◌, ◌/◌, ◌-◌, some, List, [], ◌∷◌, length, arith, ltb, leb, is_empty,
  inl, inr, Bool-cases, transfer, refl,
}
use so4_oracle.Prelude.Int.{pos_times, ℤ, pos, ◌≤ℤ◌, saturate, ◌-ℤ◌, ◌+ℤ◌, ◌/ℤ◌}
use mathlib.Core.Option.{some-injective}
use so4_oracle.Float.{Float}
use so4_oracle.Prices.Sort.{sort, sort-Ascending, sort-Ascending_id, length-sort}
use so4_oracle.Prices.Median.{
  PriceProps, compute_median_allow_single, compute_confidence_interval_with_spread, widen,
  spread_of,
}

abbrev pub Encloses : PriceProps → ℤ → Type 0
Encloses props m = (pos 0 ≤ℤ props.min_price) × (props.min_price ≤ℤ m) × (m ≤ℤ props.max_price)

is_empty-length : (ps qs : List ℤ) → length ps ≡ length qs → is_empty ps ≡ is_empty qs
is_empty-length [] [] h = refl
is_empty-length [] (q ∷ qs) h = ground arith
is_empty-length (p ∷ ps) [] h = ground arith
is_empty-length (p ∷ ps) (q ∷ qs) h = refl

-- The median of the sorted prices is the median.
median-sort : (ps : List ℤ) → compute_median_allow_single (sort ps) ≡ compute_median_allow_single ps
unfolding compute_median_allow_single
median-sort ps =
    let same : is_empty (sort ps) ≡ is_empty ps = is_empty-length (sort ps) ps (length-sort ps) in
    rw (sort-Ascending_id (sort ps) (sort-Ascending ps), same) refl

saturate-pos : (n : ℕ) → (k : ℕ) × (saturate (pos n) ≡ pos k)
unfolding saturate
saturate-pos n = elim (Bool-cases (ltb n (2 ^ 127))) [
  | inl b ↦ (n, rw b refl)
  | inr b ↦ (2 ^ 127 - 1, rw b refl)
]

spread-pos : (m spread_bps : ℕ) → (k : ℕ) × (spread_of (pos m) spread_bps ≡ pos k)
unfolding ◌/ℤ◌ spread_of
spread-pos m spread_bps =
    let (k, e) = saturate-pos (m * spread_bps) in (k / 10_000, rw (pos_times m spread_bps, e) refl)

around : (m k : ℕ) → m < 2 ^ 127 → Encloses (widen (pos m) (pos m) (pos k)) (pos m)
unfolding widen saturate ◌-ℤ◌ ◌+ℤ◌
around m k h = (ground arith, ground arith, ground arith)

widen-Encloses :
    (m spread_bps : ℕ)
    → m < 2 ^ 127
    → Encloses (widen (pos m) (pos m) (spread_of (pos m) spread_bps)) (pos m)
widen-Encloses m spread_bps h = let (k, e) = spread-pos m spread_bps in rw e (around m k h)

module _ {F : Type 0} (f : Float F) where
  -- With one or two sources whose median is not negative, the interval starts at or above zero and
  -- has the median between its ends.
  pub compute_confidence_interval_with_spread-Encloses :
      (prices : List ℤ) (spread_bps m : ℕ) (props : PriceProps)
      → length prices < 3
      → m < 2 ^ 127
      → compute_median_allow_single prices ≡ some (some (pos m))
      → compute_confidence_interval_with_spread f prices spread_bps ≡ some (some props)
      → Encloses props (pos m)
  unfolding compute_confidence_interval_with_spread
  compute_confidence_interval_with_spread-Encloses ps spread_bps m props l h e c =
      elim (Bool-cases (is_empty ps)) [
        | inl b ↦ ground arith
        | inr b ↦
            let few : leb 3 (length (sort ps)) ≡ false = ground (arith, length-sort ps) in
            transfer (λ p. Encloses p (pos m))
              (some-injective _ _ (rw (b, few, median-sort ps, e) at c))
              (widen-Encloses m spread_bps h)
      ]
