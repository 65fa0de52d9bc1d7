-- ===== src/Prices/Aggregate/Given.antt =====
-- prices.rs: the sources and prices of the largest cluster are among those that were given.
use mathlib.Core.List.{zip}
use mathlib.Core.Option.{some-injective}
use so4_oracle.Prelude.{
  ℕ, zero, suc, ◌+◌, ◌-◌, ◌≤◌, ◌≡◌, refl, Bool, some, List, [], ◌∷◌, map, String, arith, take, drop,
  inl, inr, Bool-cases, Option-cases, is_empty, transfer,
}
use so4_oracle.Prelude.Int.{ℤ}
use so4_oracle.Float.{Float}
use so4_oracle.Prices.Sort.{insert, sort_by, sort_entries, entry_le}
use so4_oracle.Prices.Cluster.{
  ClusterResult, Entry, find_largest_consistent_cluster, largest_window, window,
}
use so4_oracle.Prices.Outliers.Partition.{count, one_if}

-- No source is used with a price more often than it was given with that price: any test picks at most
-- as many of the used ones as of the given ones.
abbrev pub IsAmong :
    (used_sources : List String) (used : List ℤ) (sources : List String) (prices : List ℤ) → Type 0
IsAmong used_sources used sources prices =
    (t : String → ℤ → Bool) → count t used_sources used ≤ count t sources prices

module _ (t : String → ℤ → Bool) where
  count_entries : List Entry → ℕ
  count_entries [] = 0
  count_entries ((p, s) ∷ es) = one_if (t s p) + count_entries es

  count-map : (es : List Entry) → count t (map (λ e. e.1) es) (map (λ e. e.0) es) ≡ count_entries es
  unfolding count_entries
  count-map [] = refl
  count-map (e ∷ es) = omega (arith, count-map es)

  count-zip : (ps : List ℤ) (ss : List String) → count_entries (zip ps ss) ≡ count t ss ps
  unfolding count_entries zip
  count-zip [] [] = refl
  count-zip [] (s ∷ ss) = refl
  count-zip (p ∷ ps) [] = refl
  count-zip (p ∷ ps) (s ∷ ss) = omega (arith, count-zip ps ss)

  count-take : (n : ℕ) (es : List Entry) → count_entries (take n es) ≤ count_entries es
  unfolding count_entries
  count-take zero es = omega arith
  count-take (suc n) [] = omega arith
  count-take (suc n) (e ∷ es) = omega (arith, count-take n es)

  count-drop : (n : ℕ) (es : List Entry) → count_entries (drop n es) ≤ count_entries es
  unfolding count_entries
  count-drop zero es = omega arith
  count-drop (suc n) [] = omega arith
  count-drop (suc n) (e ∷ es) = omega (arith, count-drop n es)

  count-insert :
      (e : Entry) (es : List Entry) → count_entries (insert entry_le e es) ≡ count_entries (e ∷ es)
  unfolding count_entries insert
  count-insert e [] = refl
  count-insert e (x ∷ es) = elim (Bool-cases (entry_le e x)) [
    | inl q ↦ rw (q, insert) refl
    | inr q ↦ rw (q, insert) (omega (arith, count-insert e es))
  ]

  count-sort_by : (es : List Entry) → count_entries (sort_by entry_le es) ≡ count_entries es
  unfolding count_entries sort_by
  count-sort_by [] = refl
  count-sort_by (e ∷ es) = omega (arith, count-insert e (sort_by entry_le es), count-sort_by es)

  count-window :
      (ps : List ℤ) (ss : List String) (w : ℕ × ℕ)
      → let es = window (sort_entries (zip ps ss)) w in
        count t (map (λ e. e.1) es) (map (λ e. e.0) es) ≤ count t ss ps
  unfolding sort_entries
  count-window ps ss (start, end) =
      let sorted = sort_by entry_le (zip ps ss) in
      omega (
        arith,
        count-map (window sorted (start, end)),
        count-take (end - start) (drop start sorted),
        count-drop start sorted,
        count-sort_by (zip ps ss),
        count-zip ps ss,
      )

pub find_largest_consistent_cluster-IsAmong :
    {F : Type 0} (f : Float F) (tolerance : ℕ) (ps : List ℤ) (ss : List String) (c : ClusterResult)
    → find_largest_consistent_cluster f tolerance ps ss ≡ some (some c)
    → IsAmong c.sources c.filtered_prices ss ps
unfolding find_largest_consistent_cluster
find_largest_consistent_cluster-IsAmong f tolerance ps ss c e = elim (Bool-cases (is_empty ps)) [
  | inl b ↦ absurd (ground arith)
  | inr b ↦ elim (Option-cases (largest_window f tolerance (sort_entries (zip ps ss)))) [
    | inl q ↦ absurd (ground arith)
    | inr (w, q) ↦
        transfer (λ x. IsAmong x.sources x.filtered_prices ss ps)
          (some-injective _ _ (rw (b, q) at e)) (λ t. count-window t ps ss w)
  ]
]
