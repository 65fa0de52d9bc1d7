-- ===== src/Prices/Outliers/Partition.antt =====
-- prices.rs, `filter_outliers`: every source is either kept or rejected.
use so4_oracle.Prelude.{
  ℕ, ◌+◌, ◌≡◌, Bool, true, false, some, List, [], ◌∷◌, String, length, arith, inl, inr, Bool-cases,
  Option-cases, refl,
}
use so4_oracle.Prelude.Int.{ℤ}
use so4_oracle.Float.{Float, of_ℕ}
use so4_oracle.Prices.Median.{◌>>=◌}
use so4_oracle.Prelude.{transfer}
use so4_oracle.Prices.Outliers.{
  OutlierFilterResult, Measure, filter_pair, measure, partition, filter_outliers, is_outlier,
}

abbrev pub one_if : Bool → ℕ
one_if true = 1
one_if false = 0

-- How many of the priced sources a test picks.
abbrev pub count : (String → ℤ → Bool) → List String → List ℤ → ℕ
count t [] prices = 0
count t (s ∷ ss) [] = 0
count t (s ∷ ss) (p ∷ ps) = one_if (t s p) + count t ss ps

abbrev pub count_rejected : {F : Type 0} → (String → ℤ → Bool) → List (String × ℤ × F) → ℕ
count_rejected t [] = 0
count_rejected t ((s, p, d) ∷ rest) = one_if (t s p) + count_rejected t rest

abbrev pub Accounts : {F : Type 0} → List ℤ → List String → OutlierFilterResult F → Type 0
Accounts prices sources r =
    (length r.filtered_prices ≡ length r.filtered_sources)
    × ((t : String → ℤ → Bool)
        → count t sources prices
          ≡ count t r.filtered_sources r.filtered_prices + count_rejected t r.rejected)

module _ {F : Type 0} (f : Float F) where
  partition-Accounts :
      (m : Measure f) (prices : List ℤ) (sources : List String) (r : OutlierFilterResult F)
      → length prices ≡ length sources
      → partition f m prices sources ≡ some r
      → Accounts prices sources r
  unfolding partition
  partition-Accounts m [] [] r h e = transfer (Accounts [] []) e (refl, λ t. refl)
  partition-Accounts m [] (s ∷ ss) r h e = ground arith
  partition-Accounts m (p ∷ ps) [] r h e = ground arith
  partition-Accounts m (p ∷ ps) (s ∷ ss) r h e = elim (Option-cases (partition f m ps ss)) [
    | inl q ↦ ground arith
    | inr (r', q) ↦
        let rest = partition-Accounts m ps ss r' (ground arith) q in
        elim (Bool-cases (is_outlier f m p)) [
          | inl b ↦
              transfer (Accounts (p ∷ ps) (s ∷ ss)) (rw (q, b) at e)
                (rest.0, λ t. omega (arith, rest.1 t))
          | inr b ↦
              transfer (Accounts (p ∷ ps) (s ∷ ss)) (rw (q, b) at e)
                (omega (arith, rest.0), λ t. omega (arith, rest.1 t))
        ]
  ]

  pair-Accounts :
      (p q : ℤ) (s t : String) (r : OutlierFilterResult F)
      → filter_pair f p q (s ∷ t ∷ []) ≡ some r
      → Accounts (p ∷ q ∷ []) (s ∷ t ∷ []) r
  unfolding filter_pair
  pair-Accounts p q s t r e =
      let p0 = f.of_int p in
      let p1 = f.of_int q in
      let avg = f.div (f.add p0 p1) (of_ℕ f 2) in
      let dev_bps = f.mul (f.div (f.abs (f.sub p0 p1)) (f.abs avg)) (of_ℕ f 10_000) in
      let dev0 = f.abs (f.sub p0 avg) in
      let dev1 = f.abs (f.sub p1 avg) in
      let A : OutlierFilterResult F → Type 0 = Accounts (p ∷ q ∷ []) (s ∷ t ∷ []) in
      let both : A
          (record { filtered_prices = p ∷ q ∷ []; filtered_sources = s ∷ t ∷ []; rejected = [] }) =
        (refl, λ x. ground arith) in
      elim (Bool-cases (f.eq avg (of_ℕ f 0))) [
        | inl b ↦ transfer A (rw b at e) both
        | inr b ↦ elim (Bool-cases (f.le dev_bps (of_ℕ f 1_000))) [
          | inl c ↦ transfer A (rw (b, c) at e) both
          | inr c ↦ elim (Bool-cases (f.le dev0 dev1)) [
            | inl d ↦ transfer A (rw (b, c, d) at e) (refl, λ x. ground arith)
            | inr d ↦ transfer A (rw (b, c, d) at e) (refl, λ x. ground arith)
          ]
        ]
      ]

  looped :
      (prices : List ℤ) (sources : List String) (max_deviation_bps : ℕ) (r : OutlierFilterResult F)
      → length prices ≡ length sources
      → (measure f prices max_deviation_bps >>= λ m. partition f m prices sources) ≡ some r
      → Accounts prices sources r
  looped prices sources max r h e = elim (Option-cases (measure f prices max)) [
    | inl q ↦ ground arith
    | inr (m, q) ↦ partition-Accounts m prices sources r h (rw q at e)
  ]

  -- When as many sources as prices are given and the filter returns, it keeps as many sources as
  -- prices, and each priced source stands once among the kept or once among the rejected ones:
  -- any test picks as many of the input as of the kept and the rejected together.
  pub filter_outliers-Accounts :
      (prices : List ℤ) (sources : List String) (max_deviation_bps : ℕ) (r : OutlierFilterResult F)
      → length prices ≡ length sources
      → filter_outliers f prices sources max_deviation_bps ≡ some r
      → Accounts prices sources r
  unfolding filter_outliers
  filter_outliers-Accounts [] [] m r h e = transfer (Accounts [] []) e (refl, λ t. refl)
  filter_outliers-Accounts [] (s ∷ ss) m r h e = ground arith
  filter_outliers-Accounts (p ∷ []) ss m r h e = looped (p ∷ []) ss m r h e
  filter_outliers-Accounts (p ∷ q ∷ []) (s ∷ t ∷ []) m r h e = pair-Accounts p q s t r e
  filter_outliers-Accounts (p ∷ q ∷ []) [] m r h e = ground arith
  filter_outliers-Accounts (p ∷ q ∷ []) (s ∷ []) m r h e = ground arith
  filter_outliers-Accounts (p ∷ q ∷ []) (s ∷ t ∷ u ∷ ss) m r h e = ground arith
  filter_outliers-Accounts (p ∷ q ∷ p' ∷ ps) ss m r h e = looped (p ∷ q ∷ p' ∷ ps) ss m r h e
