-- ===== src/Tests/PriceBands.antt =====
-- The theorems on prices, with whole numbers in the place of floats.
use so4_oracle.Prelude.{ℕ, ◌*◌, ◌/◌, ◌≡◌, refl, some, List, [], ◌∷◌, String, arith, ◌==◌}
use so4_oracle.Prelude.Int.{
  ℤ, pos, abs, pos_part, checked, saturate, fits_i128, ◌+ℤ◌, ◌-ℤ◌, ◌*ℤ◌, ◌/ℤ◌, ltb_ℤ, leb_ℤ,
}
use so4_oracle.Prelude.Result.{ok}
use so4_oracle.Float.{Float}
use so4_oracle.Prices.{deviation_bps, cluster_tolerance_bps}
use so4_oracle.Prices.Sort.{sort, sort_by, sort_entries, insert}
use so4_oracle.Prices.Median.{
  PriceProps, compute_median_allow_single, compute_confidence_interval_with_spread, middle, widen,
  spread_of,
}
use so4_oracle.Prices.Median.Band.{Encloses, compute_confidence_interval_with_spread-Encloses}
use so4_oracle.Prices.Cluster.{
  find_largest_consistent_cluster, largest_window, slide_all, slide, narrow,
}
use so4_oracle.Prices.Outliers.{
  OutlierFilterResult, filter_outliers, filter_pair, measure, partition, is_outlier,
}
use so4_oracle.Prices.Outliers.Partition.{Accounts, filter_outliers-Accounts}
use so4_oracle.Prices.Aggregate.{AggregatedPrice, aggregate_prices, select_sources}
use so4_oracle.Prices.Aggregate.Quorum.{Rests, aggregate_prices-Rests}

-- A fraction is its product with 10^6, rounded down; negative values are cut to 0 in a quotient.
abbrev pub scale : ℕ
scale = 1_000_000

abbrev pub fixed : Float ℤ
fixed = record {
  of_int = λ a. a *ℤ pos scale;
  to_int = λ a. a /ℤ scale;
  add = λ a b. a +ℤ b;
  sub = λ a b. a -ℤ b;
  mul = λ a b. (a *ℤ b) /ℤ scale;
  div = λ a b. pos (pos_part a * scale / pos_part b);
  abs = λ a. pos (abs a);
  sqrt = λ a. a;
  floor = λ a. (a /ℤ scale) *ℤ pos scale;
  ceil = λ a. ((a +ℤ pos 999_999) /ℤ scale) *ℤ pos scale;
  half = pos 500_000;
  infinity = pos 1_000_000_000_000_000_000;
  lt = ltb_ℤ;
  le = leb_ℤ;
  eq = λ a b. abs (a -ℤ b) == 0;
}

abbrev three_prices : List ℤ
three_prices = pos 1_000 ∷ pos 1_010 ∷ pos 1_500 ∷ []

abbrev three_sources : List String
three_sources = "binance" ∷ "coinbase" ∷ "pyth" ∷ []

abbrev filtered : OutlierFilterResult ℤ
filtered = record {
  filtered_prices = pos 1_000 ∷ pos 1_010 ∷ [];
  filtered_sources = "binance" ∷ "coinbase" ∷ [];
  rejected = ("pyth", pos 1_500, pos 4_851_480_000) ∷ [];
}

filters : filter_outliers fixed three_prices three_sources 500 ≡ some filtered
unfolding filter_outliers measure partition is_outlier sort sort_by insert middle checked
    deviation_bps fits_i128 ◌-ℤ◌ abs ◌+ℤ◌ ◌*ℤ◌ ◌/ℤ◌
filters = refl

filter_outliers-Accounts_example : Accounts three_prices three_sources filtered
filter_outliers-Accounts_example =
    filter_outliers-Accounts fixed three_prices three_sources 500 filtered refl filters

abbrev band : PriceProps
band = record { min_price = pos 955; max_price = pos 1_055 }

median_1005 : compute_median_allow_single (pos 1_000 ∷ pos 1_010 ∷ []) ≡ some (some (pos 1_005))
unfolding compute_median_allow_single sort checked fits_i128 ◌+ℤ◌ ◌/ℤ◌
median_1005 = refl

band_found :
    compute_confidence_interval_with_spread fixed (pos 1_000 ∷ pos 1_010 ∷ []) 500
    ≡ some (some band)
unfolding compute_confidence_interval_with_spread sort compute_median_allow_single checked fits_i128
    ◌+ℤ◌ widen saturate ◌-ℤ◌ ◌/ℤ◌ spread_of ◌*ℤ◌
band_found = refl

compute_confidence_interval_with_spread-Encloses_example : Encloses band (pos 1_005)
compute_confidence_interval_with_spread-Encloses_example =
    compute_confidence_interval_with_spread-Encloses fixed (pos 1_000 ∷ pos 1_010 ∷ []) 500 1_005
      band (omega arith) (omega arith) median_1005 band_found

abbrev published : AggregatedPrice ℤ
published = record {
  min_price = pos 955;
  max_price = pos 1_055;
  median = pos 1_005;
  sources_used = "binance" ∷ "coinbase" ∷ [];
  rejected_sources =
      record { source = "pyth"; price = pos 1_500; deviation_bps = pos 4_925_370_000 } ∷ [];
  min_observation_time = 18;
}

publishes :
    aggregate_prices fixed three_prices three_sources (20 ∷ 18 ∷ 19 ∷ []) 2 500
    ≡ some (ok published)
unfolding aggregate_prices find_largest_consistent_cluster largest_window slide_all sort_entries
    mathlib.Core.List.zip slide narrow ◌*ℤ◌ cluster_tolerance_bps deviation_bps ◌/ℤ◌ abs ◌-ℤ◌
    checked fits_i128 filter_outliers filter_pair mathlib.Core.List.zip_with saturate ◌+ℤ◌
    select_sources compute_confidence_interval_with_spread compute_median_allow_single middle
    spread_of widen sort sort_by insert
publishes = refl

aggregate_prices-Rests_example :
    (used : List ℤ) × Rests fixed three_prices three_sources 2 500 published used
aggregate_prices-Rests_example =
    aggregate_prices-Rests fixed three_prices three_sources (20 ∷ 18 ∷ 19 ∷ []) 2 500 published
      publishes
