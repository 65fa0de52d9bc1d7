-- ===== src/Prices/Cluster.antt =====
-- prices.rs, `find_largest_consistent_cluster`: a window that slides over the sorted prices.
pub mod Order
pub mod Window
use so4_oracle.Prelude.{
  ℕ, ◌+◌, ◌-◌, Bool, ◌&&◌, ◌||◌, Option, none, some, List, [], ◌∷◌, map, String, take, drop,
  get_elem?, is_empty, ltb, ◌==◌, if◌then◌else◌,
}
use mathlib.Core.List.{zip}
use so4_oracle.Prelude.Int.{ℤ, ◌-ℤ◌, checked, ltb_ℤ}
use so4_oracle.Float.{Float, of_ℕ}
use so4_oracle.Prices.{deviation_bps}
use so4_oracle.Prices.Sort.{sort_entries}
use so4_oracle.Prices.Median.{Checked, ◌>>=◌}

pub record ClusterResult : Type 0 where
  pub filtered_prices : List ℤ
  pub sources : List String

abbrev pub Entry : Type 0
Entry = ℤ × String

abbrev pub price_at : List Entry → ℕ → Checked ℤ
price_at sorted i = do entry ← get_elem? sorted i; some entry.0

-- `a - b` of `usize`, which panics below zero.
abbrev pub sub_usize : ℕ → ℕ → Checked ℕ
sub_usize a b = if ltb a b then none else some (a - b)

-- The slice `sorted[start..end]`.
abbrev pub window : List Entry → ℕ × ℕ → List Entry
window sorted (start, end) = take (end - start) (drop start sorted)

module _ {F : Type 0} (f : Float F) (tolerance_bps : ℕ) where
  -- The deviation of the highest price of a window from its lowest is within the tolerance.
  abbrev pub is_near : ℤ → ℤ → Bool
  is_near hi lo =
      if f.lt (of_ℕ f tolerance_bps) (deviation_bps f hi lo) then Bool.false else Bool.true

  -- `while deviation_bps(hi, sorted[start].0) > tolerance { start += 1; }`, on the entries from
  -- `start`; behind the last one the index is out of bounds.
  unfoldable pub narrow : ℤ → ℕ → List Entry → Checked ℕ
  narrow hi start [] = none
  narrow hi start ((lo, source) ∷ rest) =
      let further = narrow hi (start + 1) rest in if is_near hi lo then some start else further

  -- One round of `for end in 1..=sorted.len()`, from the window and the best one so far.
  unfoldable pub slide : List Entry → ℤ → ℕ → ℕ → ℕ × ℕ → Checked (ℕ × ℕ × ℕ)
  slide sorted hi end start (best_start, best_end) = do
    start' ← narrow hi start (drop start sorted)
    len ← sub_usize end start'
    lo ← price_at sorted start'
    spread ← checked (hi -ℤ lo)
    best_hi ← price_at sorted (best_end - 1)
    best_lo ← price_at sorted best_start
    best_spread ← checked (best_hi -ℤ best_lo)
    let best_len = best_end - best_start
    let better = ltb best_len len || (len == best_len && ltb_ℤ spread best_spread)
    some (if better then (start', start', end) else (start', best_start, best_end))

  unfoldable pub slide_all : List Entry → List Entry → ℕ → ℕ → ℕ × ℕ → Checked (ℕ × ℕ)
  slide_all sorted [] end start best = some best
  slide_all sorted ((hi, source) ∷ rest) end start best =
      slide sorted hi (end + 1) start best >>= λ w. slide_all sorted rest (end + 1) w.0 (w.1, w.2)

  unfoldable pub largest_window : List Entry → Checked (ℕ × ℕ)
  largest_window sorted = slide_all sorted sorted 0 0 (0, 1)

  unfoldable pub find_largest_consistent_cluster :
      List ℤ → List String → Checked (Option ClusterResult)
  find_largest_consistent_cluster prices sources =
      let sorted = sort_entries (zip prices sources) in
      let found = (do
        best ← largest_window sorted
        let entries = window sorted best
        some (
            some (record {
              filtered_prices = map (λ e. e.0) entries;
              sources = map (λ e. e.1) entries;
            }))) in
      if is_empty prices then some none else found
