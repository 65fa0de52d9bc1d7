-- ===== src/Prices/Aggregate.antt =====
-- prices.rs, `aggregate_prices`: the price of a token from the prices of its sources.
pub mod Given
pub mod Quorum
use so4_oracle.Prelude.{
  ℕ, zero, suc, ◌==◌, not, min, Bool, true, false, Option, none, some, List, [], ◌∷◌, ◌++◌, map,
  String, length, ltb, str_eq, get_elem?, if◌then◌else◌, unwrap_or,
}
use so4_oracle.Prelude.Text.{concat, show_nat}
use so4_oracle.Prelude.Result.{Result, ok, err}
use so4_oracle.Prelude.Int.{ℤ}
use so4_oracle.Float.{Float}
use so4_oracle.Prices.{cluster_tolerance_bps, deviation_bps}
use so4_oracle.Prices.Median.{
  Checked, PriceProps, compute_median_allow_single, compute_confidence_interval_with_spread,
}
use so4_oracle.Prices.Cluster.{ClusterResult, find_largest_consistent_cluster}
use so4_oracle.Prices.Outliers.{OutlierFilterResult, filter_outliers}

pub record RejectedSource (F : Type 0) : Type 0 where
  pub source : String
  pub price : ℤ
  pub deviation_bps : F

pub record AggregatedPrice (F : Type 0) : Type 0 where
  pub min_price : ℤ
  pub max_price : ℤ
  pub median : ℤ
  pub sources_used : List String
  pub rejected_sources : List (RejectedSource F)
  pub min_observation_time : ℕ

-- A panic, an error or a result.
abbrev pub Fallible : Type 0 → Type 0
Fallible A = Checked (Result String A)

infixl 5 ◌>>=◌ ◌>>◌
abbrev pub ◌>>=◌ : {A B : Type 0} → Fallible A → (A → Fallible B) → Fallible B
none >>= f = none
some (err e) >>= f = some (err e)
some (ok a) >>= f = f a

abbrev pub ◌>>◌ : {B : Type 0} → Fallible (Unit {0}) → Fallible B → Fallible B
m >> k = m >>= λ _. k

-- `if !b { return Err(e) }`
abbrev pub guard : Bool → String → Fallible (Unit {0})
guard true e = some (ok tt)
guard false e = some (err e)

-- A step that may panic, and one whose missing value is an error (`ok_or_else(..)?`).
abbrev pub lift : {A : Type 0} → Checked A → Fallible A
lift none = none
lift (some a) = some (ok a)

abbrev pub require : {A : Type 0} → Checked (Option A) → String → Fallible A
require none e = none
require (some none) e = some (err e)
require (some (some a)) e = some (ok a)

abbrev pub at_least : List ℤ → ℕ → String → Fallible (Unit {0})
at_least prices min_sources what =
    guard (not (ltb (length prices) min_sources))
      (concat (what ∷ ": got " ∷ show_nat (length prices) ∷ ", need " ∷ show_nat min_sources ∷ []))

abbrev member : String → List String → Bool
member s [] = false
member s (t ∷ ts) = if str_eq t s then true else member s ts

-- `sources.iter().position(|s| s == source).map(|i| observation_times[i])`
abbrev time_of : String → List String → List ℕ → Option (Checked ℕ)
time_of s [] times = none
time_of s (t ∷ ts) [] = if str_eq t s then some none else time_of s ts []
time_of s (t ∷ ts) (n ∷ ns) = if str_eq t s then some (some n) else time_of s ts ns

-- The `filter_map` and `min` over the sources used.
abbrev earliest : List String → List ℕ → List String → Checked (Option ℕ)
earliest sources times [] = some none
earliest sources times (s ∷ ss) =
    let rest = earliest sources times ss in
    elim (time_of s sources times) [ none ↦ rest | some none ↦ none | some (some n) ↦ later n rest ]
  where
    later : ℕ → Checked (Option ℕ) → Checked (Option ℕ)
    later n none = none
    later n (some none) = some (some n)
    later n (some (some m)) = some (some (min n m))

module _ {F : Type 0} (f : Float F) where
  -- The prices and sources of the input whose source is not in the cluster.
  abbrev outside : ℤ → List String → List ℤ → List String → List (RejectedSource F)
  outside median used [] sources = []
  outside median used (p ∷ ps) [] = []
  outside median used (p ∷ ps) (s ∷ ss) =
      let rest = outside median used ps ss in
      if member s used
      then rest
      else record { source = s; price = p; deviation_bps = deviation_bps f p median } ∷ rest

  abbrev rejected_source : String × ℤ × F → RejectedSource F
  rejected_source (s, p, d) = record { source = s; price = p; deviation_bps = d }

  -- What is left once the cluster and the outlier filter have run.
  unfoldable pub select_sources :
      List ℤ → List String → ℕ → ℕ → Fallible (ClusterResult × OutlierFilterResult F)
  select_sources prices sources min_sources max_deviation_bps = do
    cluster ←
        require
          (find_largest_consistent_cluster f (cluster_tolerance_bps max_deviation_bps) prices
            sources)
          "no consistent price cluster found"
    at_least cluster.filtered_prices min_sources "insufficient sources in consistent cluster"
    kept ← lift (filter_outliers f cluster.filtered_prices cluster.sources max_deviation_bps)
    at_least kept.filtered_prices min_sources "insufficient sources after outlier filtering"
    some (ok (cluster, kept))

  unfoldable pub aggregate_prices :
      List ℤ → List String → List ℕ → ℕ → ℕ → Fallible (AggregatedPrice F)
  unfolding select_sources
  aggregate_prices prices sources observation_times min_sources max_deviation_bps = do
    guard (length prices == length sources) "prices and sources length mismatch"
    guard (length prices == length observation_times)
        "observation_times and sources length mismatch"
    at_least prices min_sources "insufficient sources"
    selected ← select_sources prices sources min_sources max_deviation_bps
    let cluster = selected.0
    let kept = selected.1
    mid ←
        require (compute_median_allow_single kept.filtered_prices)
          "cannot aggregate empty price list"
    props ←
        require (compute_confidence_interval_with_spread f kept.filtered_prices max_deviation_bps)
          "cannot compute confidence interval"
    median ← lift (compute_median_allow_single kept.filtered_prices)
    time ←
        require (earliest sources observation_times kept.filtered_sources)
          "no observation times available"
    some (
        ok (record {
          min_price = props.min_price;
          max_price = props.max_price;
          median = unwrap_or median props.min_price;
          sources_used = kept.filtered_sources;
          rejected_sources =
              outside mid cluster.sources prices sources ++ map rejected_source kept.rejected;
          min_observation_time = time;
        }))
