-- ===== src/Prices/Outliers.antt =====
-- prices.rs, `filter_outliers`: the sources of a cluster that stay, and those that are rejected.
pub mod Partition
use so4_oracle.Prelude.{
  ℕ, ◌==◌, Bool, true, false, Option, none, some, List, [], ◌∷◌, map, String, length, is_empty, ltb,
  if◌then◌else◌,
}
use so4_oracle.Prelude.Int.{ℤ, pos, ◌+ℤ◌, ◌-ℤ◌, abs, checked, ltb_ℤ}
use so4_oracle.Float.{Float, of_ℕ}
use so4_oracle.Prices.{deviation_bps}
use so4_oracle.Prices.Sort.{sort}
use so4_oracle.Prices.Median.{Checked, ◌>>=◌, middle}

-- A rejected source is its name, its price and its deviation.
pub record OutlierFilterResult (F : Type 0) : Type 0 where
  pub filtered_prices : List ℤ
  pub filtered_sources : List String
  pub rejected : List (String × ℤ × F)

-- `(p - median).abs()`
abbrev deviation : ℤ → ℤ → Checked ℤ
deviation median p = do d ← checked (p -ℤ median); checked (pos (abs d))

abbrev map_checked : {A B : Type 0} → (A → Checked B) → List A → Checked (List B)
map_checked g [] = some []
map_checked g (x ∷ xs) = do y ← g x; ys ← map_checked g xs; some (y ∷ ys)

abbrev sum_checked : ℤ → List ℤ → Checked ℤ
sum_checked total [] = some total
sum_checked total (p ∷ ps) = checked (total +ℤ p) >>= λ t. sum_checked t ps

module _ {F : Type 0} (f : Float F) where
  open f use {of_int, add, sub, mul, div, sqrt, lt, le, eq}

  abbrev sum_floats : F → List F → F
  sum_floats total [] = total
  sum_floats total (x ∷ xs) = sum_floats (add total x) xs

  abbrev pub keep_all : List ℤ → List String → OutlierFilterResult F
  keep_all prices sources = record {
    filtered_prices = prices;
    filtered_sources = sources;
    rejected = [];
  }

  -- Exactly two sources: the one closer to the average stays when they disagree.
  unfoldable pub filter_pair : ℤ → ℤ → List String → Checked (OutlierFilterResult F)
  filter_pair price_0 price_1 sources =
      let p0 = of_int price_0 in
      let p1 = of_int price_1 in
      let avg = div (add p0 p1) (of_ℕ f 2) in
      let both : OutlierFilterResult F = keep_all (price_0 ∷ price_1 ∷ []) sources in
      let dev_bps = mul (div (f.abs (sub p0 p1)) (f.abs avg)) (of_ℕ f 10_000) in
      let dev0 = f.abs (sub p0 avg) in
      let dev1 = f.abs (sub p1 avg) in
      if eq avg (of_ℕ f 0)
      then some both
      else if le dev_bps (of_ℕ f 1_000)
      then some both
      else choose_one price_0 price_1 dev_bps (le dev0 dev1) sources
    where
      choose_one : ℤ → ℤ → F → Bool → List String → Checked (OutlierFilterResult F)
      choose_one q0 q1 dev_bps first (s0 ∷ s1 ∷ rest) =
          if first
          then some (record {
            filtered_prices = q0 ∷ [];
            filtered_sources = s0 ∷ [];
            rejected = (s1, q1, dev_bps) ∷ [];
          })
          else some (record {
            filtered_prices = q1 ∷ [];
            filtered_sources = s1 ∷ [];
            rejected = (s0, q0, dev_bps) ∷ [];
          })
      choose_one q0 q1 dev_bps first sources = none

  -- What the loop measures each price against.
  pub record Measure : Type 0 where
    pub median : ℤ
    pub mad : ℤ
    pub stddev : F
    pub max_dev : F

  unfoldable pub is_outlier : Measure → ℤ → Bool
  is_outlier m p =
      let dev_bps = deviation_bps f p m.median in
      let dev = f.abs (sub (of_int p) (of_int m.median)) in
      if lt m.max_dev dev_bps
      then true
      else if ltb_ℤ (pos 0) m.mad
      then lt (mul (of_ℕ f 6) (of_int m.mad)) dev
      else if lt (of_ℕ f 0) m.stddev
      then lt (mul (of_ℕ f 3) m.stddev) dev
      else false

  unfoldable pub measure : List ℤ → ℕ → Checked Measure
  measure prices max_deviation_bps = do
    m ← middle (sort prices)
    deviations ← map_checked (deviation m) prices
    d ← middle (sort deviations)
    sum ← sum_checked (pos 0) prices
    let n = of_ℕ f (length prices)
    let mean = div (of_int sum) n
    let square : ℤ → F = λ p. mul (sub (of_int p) mean) (sub (of_int p) mean)
    let variance = div (sum_floats (of_ℕ f 0) (map square prices)) n
    some
        (record { median = m; mad = d; stddev = sqrt variance; max_dev = of_ℕ f max_deviation_bps })

  -- The loop over the prices, `sources[i]` read for each of them.
  unfoldable pub partition : Measure → List ℤ → List String → Checked (OutlierFilterResult F)
  partition m [] sources = some (keep_all [] [])
  partition m (p ∷ ps) [] = none
  partition m (p ∷ ps) (s ∷ ss) = partition m ps ss >>= λ r. some (
      if is_outlier m p
      then record r { rejected = (s, p, deviation_bps f p m.median) ∷ r.rejected }
      else record r {
        filtered_prices = p ∷ r.filtered_prices;
        filtered_sources = s ∷ r.filtered_sources;
      })

  unfoldable pub filter_outliers : List ℤ → List String → ℕ → Checked (OutlierFilterResult F)
  filter_outliers [] sources max_deviation_bps = some (keep_all [] [])
  filter_outliers (p0 ∷ p1 ∷ []) sources max_deviation_bps = filter_pair p0 p1 sources
  filter_outliers prices sources max_deviation_bps =
      measure prices max_deviation_bps >>= λ m. partition m prices sources
