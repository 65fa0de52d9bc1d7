-- ===== src/Prices/Aggregate/Quorum.antt =====
-- prices.rs, `aggregate_prices`: what a price that is published rests on.
use so4_oracle.Prelude.{
  ℕ, ◌≤◌, ◌==◌, ◌≡◌, Option, none, some, List, [], ◌∷◌, map, String, length, arith, inl, inr,
  Option-cases, sym, subst, refl, ap, ◌∙◌, is_empty, Bool-cases, unwrap_or, transfer,
}
use so4_oracle.Prelude.Int.{ℤ}
use so4_oracle.Prelude.Result.{Result, ok, err}
use so4_oracle.Float.{Float}
use so4_oracle.Prices.{cluster_tolerance_bps}
use so4_oracle.Prices.Sort.{sort_entries}
use so4_oracle.Prices.Median.{
  Checked, compute_median_allow_single, compute_confidence_interval_with_spread,
}
use so4_oracle.Prices.Cluster.{
  ClusterResult, Entry, find_largest_consistent_cluster, largest_window, window,
}
use so4_oracle.Prices.Outliers.{OutlierFilterResult, filter_outliers}
use so4_oracle.Prices.Outliers.Partition.{filter_outliers-Accounts}
use so4_oracle.Prices.Aggregate.{
  Fallible, ◌>>=◌, lift, require, guard, at_least, earliest, select_sources, aggregate_prices,
  AggregatedPrice,
}
use so4_oracle.Prices.Aggregate.Given.{IsAmong, find_largest_consistent_cluster-IsAmong}
use mathlib.Core.List.{zip}
use mathlib.Core.Option.{some-injective}

bind-ok :
    {A B : Type 0} (m : Fallible A) (g : A → Fallible B) (b : B)
    → (m >>= g) ≡ some (ok b)
    → (a : A) × (m ≡ some (ok a)) × (g a ≡ some (ok b))
bind-ok none g b e = ground arith
bind-ok (some (err x)) g b e = ground arith
bind-ok (some (ok a)) g b e = (a, refl, e)

lift-ok : {A : Type 0} (c : Checked A) (a : A) → lift c ≡ some (ok a) → c ≡ some a
lift-ok none a e = ground arith
lift-ok (some b) a e = ground arith

require-ok :
    {A : Type 0} (c : Checked (Option A)) (x : String) (a : A)
    → require c x ≡ some (ok a)
    → c ≡ some (some a)
require-ok none x a e = ground arith
require-ok (some none) x a e = ground arith
require-ok (some (some b)) x a e = ground arith

-- What holds of the value computed holds of the value returned.
transfer_ok :
    {A : Type 0} (P : A → Type 0) {a b : A} (e : ◌≡◌ {A = Fallible A} (some (ok a)) (some (ok b)))
    → P a
    → P b
transfer_ok P {a} {b} e = subst P (ok_injective a b (some-injective _ _ e))
  where
    ok_injective : {A : Type 0} (x y : A) (e : ◌≡◌ {A = Result String A} (ok x) (ok y)) → x ≡ y
    ok_injective x y e = ground arith

at_least-ok :
    (ps : List ℤ) (n : ℕ) (what : String) (u : Unit {0})
    → at_least ps n what ≡ some (ok u)
    → n ≤ length ps
at_least-ok ps n what u e = ground arith

same_length : (es : List Entry) → length (map (λ e. e.0) es) ≡ length (map (λ e. e.1) es)
same_length [] = refl
same_length (e ∷ es) = omega (arith, same_length es)

module _ {F : Type 0} (f : Float F) where
  length-cluster :
      (tolerance : ℕ) (ps : List ℤ) (ss : List String) (c : ClusterResult)
      → find_largest_consistent_cluster f tolerance ps ss ≡ some (some c)
      → length c.filtered_prices ≡ length c.sources
  unfolding find_largest_consistent_cluster
  length-cluster tolerance ps ss c e =
      let sorted = sort_entries (zip ps ss) in
      elim (Bool-cases (is_empty ps)) [
        | inl b ↦ ground arith
        | inr b ↦ elim (Option-cases (largest_window f tolerance sorted)) [
          | inl q ↦ ground arith
          | inr (w, q) ↦
              transfer (λ x. length x.filtered_prices ≡ length x.sources)
                (some-injective _ _ (rw (b, q) at e)) (same_length (window sorted w))
        ]
      ]

  select_sources-Quorum :
      (ps : List ℤ) (ss : List String) (n max : ℕ) (s : ClusterResult × OutlierFilterResult F)
      → select_sources f ps ss n max ≡ some (ok s)
      → (n ≤ length s.1.filtered_prices)
        × (length s.1.filtered_prices ≡ length s.1.filtered_sources)
        × IsAmong s.1.filtered_sources s.1.filtered_prices ss ps
  unfolding select_sources
  select_sources-Quorum ps ss n max s e =
      let tolerance = cluster_tolerance_bps max in
      let found = find_largest_consistent_cluster f tolerance ps ss in
      let s1 = bind-ok (require found "no consistent price cluster found") _ s e in
      let c = s1.0 in
      let s2 =
        bind-ok (at_least c.filtered_prices n "insufficient sources in consistent cluster") _ s
          s1.2 in
      let s3 = bind-ok (lift (filter_outliers f c.filtered_prices c.sources max)) _ s s2.2 in
      let k = s3.0 in
      let s4 =
        bind-ok (at_least k.filtered_prices n "insufficient sources after outlier filtering") _ s
          s3.2 in
      let lengths = length-cluster tolerance ps ss c (require-ok _ _ c s1.1) in
      let given =
        find_largest_consistent_cluster-IsAmong f tolerance ps ss c (require-ok _ _ c s1.1) in
      let kept =
        filter_outliers-Accounts f c.filtered_prices c.sources max k lengths (lift-ok _ k s3.1) in
      transfer_ok
        (λ r.
          (n ≤ length r.1.filtered_prices)
          × (length r.1.filtered_prices ≡ length r.1.filtered_sources)
          × IsAmong r.1.filtered_sources r.1.filtered_prices ss ps)
        s4.2
        (at_least-ok k.filtered_prices n _ _ s4.1, kept.0, λ t. omega (arith, kept.1 t, given t))

  -- The prices behind a published price.
  abbrev pub Rests :
      (prices : List ℤ) (sources : List String) (min_sources max_deviation_bps : ℕ)
      → AggregatedPrice F
      → List ℤ
      → Type 0
  Rests prices sources min_sources max_deviation_bps a used =
      IsAmong a.sources_used used sources prices
      × (min_sources ≤ length used)
      × (length used ≡ length a.sources_used)
      × (compute_median_allow_single used ≡ some (some a.median))
      × (compute_confidence_interval_with_spread f used max_deviation_bps
          ≡ some (some (record { min_price = a.min_price; max_price = a.max_price })))

  -- A price that aggregation returns rests on given prices of at least `min_sources` of the sources,
  -- one for each source it names, and is the median of those prices with the interval computed from
  -- them. Each price that is used was given by the source that it is used for, and no oftener: any
  -- test of a source and its price picks at most as many of the used ones as of the given ones.
  pub aggregate_prices-Rests :
      (prices : List ℤ) (sources : List String) (times : List ℕ) (min_sources max_deviation_bps : ℕ)
      (a : AggregatedPrice F)
      → aggregate_prices f prices sources times min_sources max_deviation_bps ≡ some (ok a)
      → (used : List ℤ) × Rests prices sources min_sources max_deviation_bps a used
  unfolding aggregate_prices select_sources
  aggregate_prices-Rests ps ss ts n max a e =
      let s1 =
        bind-ok (guard (length ps == length ss) "prices and sources length mismatch") _ a e in
      let s2 =
        bind-ok (guard (length ps == length ts) "observation_times and sources length mismatch") _ a
          s1.2 in
      let s3 = bind-ok (at_least ps n "insufficient sources") _ a s2.2 in
      let s4 = bind-ok (select_sources f ps ss n max) _ a s3.2 in
      let used = s4.0.1.filtered_prices in
      let s5 =
        bind-ok (require (compute_median_allow_single used) "cannot aggregate empty price list") _ a
          s4.2 in
      let interval = compute_confidence_interval_with_spread f used max in
      let s6 = bind-ok (require interval "cannot compute confidence interval") _ a s5.2 in
      let props = s6.0 in
      let s7 = bind-ok (lift (compute_median_allow_single used)) _ a s6.2 in
      let s8 =
        bind-ok (require (earliest ss ts s4.0.1.filtered_sources) "no observation times available")
          _ a s7.2 in
      let quorum = select_sources-Quorum ps ss n max s4.0 s4.1 in
      let found = require-ok _ _ s5.0 s5.1 in
      let again = transfer (λ o. o ≡ some s5.0) (sym found ∙ lift-ok _ s7.0 s7.1) refl in
      let same : unwrap_or s7.0 props.min_price ≡ s5.0 = rw again refl in
      (
        used,
        transfer_ok (λ p. Rests ps ss n max p used) s8.2
            (
              quorum.2,
              quorum.0,
              quorum.1,
              found ∙ ap (λ m. some (some m)) (sym same),
              require-ok _ _ props s6.1,
            ),
      )
