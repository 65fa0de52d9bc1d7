-- ===== src/Tests/Clusters.antt =====
-- The window of prices, on floats whose quotients are whole numbers of basis points.
use so4_oracle.Prelude.{
  ℕ, zero, suc, ◌*◌, ◌/◌, ◌<◌, ◌≤◌, ◌≡◌, refl, true, false, some, List, [], ◌∷◌, arith, length,
  ◌==◌, Bool-cases, inl, inr, subst,
}
use native.Mathlib.Nat.{le-div_iff_mul-le, div-mul-le_self}
use so4_oracle.Prelude.Int.{
  ℤ, pos, abs, pos_part, checked, fits_i128, ◌-ℤ◌, ◌+ℤ◌, ltb_ℤ, leb_ℤ, ◌≤ℤ◌,
}
use so4_oracle.Float.{Float}
use so4_oracle.Prices.{deviation_bps, is_zero}
use so4_oracle.Prices.Sort.{sort_entries}
use mathlib.Core.Option.{some-injective}
use so4_oracle.Prices.Cluster.{Entry, narrow, slide, slide_all, largest_window}
use so4_oracle.Prices.Cluster.Order.{At, near}
use so4_oracle.Prices.Cluster.Window.{Widens, IsBest, largest_window-IsBest}

abbrev basis : Float ℤ
basis = record {
  of_int = λ a. a;
  to_int = λ a. a;
  add = λ a b. a +ℤ b;
  sub = λ a b. a -ℤ b;
  mul = λ a b. a;
  div = λ a b. pos (pos_part a * 10_000 / pos_part b);
  abs = λ a. pos (abs a);
  sqrt = λ a. a;
  floor = λ a. a;
  ceil = λ a. a;
  half = pos 0;
  infinity = pos 1_000_000_000_000;
  lt = ltb_ℤ;
  le = leb_ℤ;
  eq = λ a b. abs (a -ℤ b) == 0;
}

div_mono : (a b k : ℕ) → a ≤ b → 0 < k → a / k ≤ b / k
div_mono a b k h p = (le-div_iff_mul-le p).1 (omega (arith, div-mul-le_self a k))

distance : (lo hi hi' : ℤ) → lo ≤ℤ hi → hi ≤ℤ hi' → abs (hi -ℤ lo) ≤ abs (hi' -ℤ lo)
unfolding abs ◌-ℤ◌
distance lo hi hi' p q = ground arith

not_zero : (lo : ℤ) → is_zero lo ≡ false → 0 < abs lo
unfolding abs
not_zero lo h = ground arith

basis-Widens : (tol : ℕ) → Widens basis tol
unfolding deviation_bps
basis-Widens tol lo hi hi' p q h = elim (Bool-cases (is_zero lo)) [
  | inl z ↦ rw z (rw z at h)
  | inr z ↦
      let d = distance lo hi hi' p q in
      let m =
        div_mono (abs (hi -ℤ lo) * 10_000) (abs (hi' -ℤ lo) * 10_000) (abs lo) (omega (arith, d))
          (not_zero lo z) in
      let h' = rw z at h in rw z (ground (arith, m))
]

abbrev entries : List Entry
entries = (pos 1_000, "binance") ∷ (pos 1_010, "coinbase") ∷ (pos 1_500, "pyth") ∷ []

best_window : largest_window basis 500 (sort_entries entries) ≡ some (0, 2)
unfolding largest_window slide_all sort_entries slide narrow deviation_bps abs ◌-ℤ◌ checked
    fits_i128
best_window = refl

self_near : (i : ℕ) (p : ℤ) → At (sort_entries entries) i p → near basis 500 p p ≡ true
unfolding sort_entries deviation_bps ◌-ℤ◌ abs
self_near zero p a = subst (λ x. near basis 500 x x ≡ true) (some-injective (pos 1_000) p a) refl
self_near (suc zero) p a =
    subst (λ x. near basis 500 x x ≡ true) (some-injective (pos 1_010) p a) refl
self_near (suc (suc zero)) p a =
    subst (λ x. near basis 500 x x ≡ true) (some-injective (pos 1_500) p a) refl
self_near (suc (suc (suc i))) p a = ground arith

largest_window-IsBest_example :
    IsBest basis 500 (sort_entries entries) (length (sort_entries entries)) (0, 2)
largest_window-IsBest_example =
    largest_window-IsBest basis 500 entries (0, 2) (basis-Widens 500) self_near best_window
