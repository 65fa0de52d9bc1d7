-- ===== src/Prices/Cluster/Order.antt =====
-- Positions in a sorted list of prices, and what one narrowing of the window passes over.
use so4_oracle.Prelude.{
  ℕ, zero, suc, ◌+◌, ◌≤◌, ◌<◌, ◌≡◌, refl, true, false, none, some, List, [], ◌∷◌, drop, arith, Bool,
  Bool-cases, subst, transfer, inl, inr, ap, ◌∙◌, sym,
}
use so4_oracle.Prelude.Int.{ℤ, ◌≤ℤ◌}
use mathlib.Core.Option.{some-injective}
use so4_oracle.Float.{Float}
use so4_oracle.Prices.Sort.{Ascending}
use so4_oracle.Prices.Median.{Checked, ◌>>=◌}
use so4_oracle.Prices.Cluster.{Entry, price_at, is_near, narrow}

pub bind-some :
    {A B : Type 0} (m : Checked A) (g : A → Checked B) (b : B)
    → (m >>= g) ≡ some b
    → (a : A) × (m ≡ some a) × (g a ≡ some b)
bind-some none g b e = ground arith
bind-some (some a) g b e = (a, refl, e)

abbrev pub At : List Entry → ℕ → ℤ → Type 0
At es i p = price_at es i ≡ some p

pub At-unique : (es : List Entry) (i : ℕ) (p q : ℤ) → At es i p → At es i q → p ≡ q
At-unique es i p q h k = some-injective p q (sym h ∙ k)

pub price_at-drop : (n : ℕ) (es : List Entry) (i : ℕ) → price_at (drop n es) i ≡ price_at es (n + i)
price_at-drop zero es i = ap (price_at es) {x = i} {y = 0 + i} (omega arith)
price_at-drop (suc n) [] i = refl
price_at-drop (suc n) (e ∷ es) i =
    price_at-drop n es i ∙ ap (price_at (e ∷ es)) {x = suc (n + i)} {y = suc n + i} (omega arith)

abbrev price : Entry → ℤ
price e = e.0

head_least :
    (e : Entry) (es : List Entry) (j : ℕ) (hi : ℤ)
    → Ascending price (e ∷ es)
    → At es j hi
    → e.0 ≤ℤ hi
head_least e [] j hi up h = ground arith
head_least e (x ∷ es) zero hi up h = ground (arith, up.0)
head_least e (x ∷ es) (suc j) hi up h = omega (arith, up.0, head_least x es j hi up.1 h)

pub At-Ascending :
    (es : List Entry) (i j : ℕ) (lo hi : ℤ)
    → Ascending price es
    → i ≤ j
    → At es i lo
    → At es j hi
    → lo ≤ℤ hi
At-Ascending [] i j lo hi up h a b = ground arith
At-Ascending (e ∷ es) zero zero lo hi up h a b = ground arith
At-Ascending (e ∷ es) zero (suc j) lo hi up h a b = ground (arith, head_least e es j hi up b)
At-Ascending (e ∷ es) (suc i) zero lo hi up h a b = absurd (omega arith)
At-Ascending (e ∷ []) (suc i) (suc j) lo hi up h a b = ground arith
At-Ascending (e ∷ x ∷ es) (suc i) (suc j) lo hi up h a b =
    At-Ascending (x ∷ es) i j lo hi up.1 (omega arith) a b

module _ {F : Type 0} (f : Float F) (tolerance_bps : ℕ) where
  abbrev pub near : ℤ → ℤ → Bool
  near hi lo = is_near f tolerance_bps hi lo

  -- The answer for the first entry is the answer for whatever price stands there.
  near-head :
      (hi : ℤ) (e : Entry) (es : List Entry) (p : ℤ) (b : Bool)
      → near hi e.0 ≡ b
      → At (e ∷ es) 0 p
      → near hi p ≡ b
  near-head hi e es p b h a = subst (λ x. near hi x ≡ b) (some-injective e.0 p a) h

  abbrev Passed : ℤ → ℕ → List Entry → ℕ → Type 0
  Passed hi start es found = (i : ℕ) (p : ℤ) → start + i < found → At es i p → near hi p ≡ false

  abbrev Stops : ℤ → ℕ → List Entry → ℕ → Type 0
  Stops hi start es found = (i : ℕ) (p : ℤ) → start + i ≡ found → At es i p → near hi p ≡ true

  Stops-head :
      (hi : ℤ) (start : ℕ) (e : Entry) (es : List Entry)
      → near hi e.0 ≡ true
      → Stops hi start (e ∷ es) start
  Stops-head hi start e es b zero p h a = near-head hi e es p true b a
  Stops-head hi start e es b (suc i) p h a = absurd (omega arith)

  Passed-cons :
      (hi : ℤ) (start found : ℕ) (e : Entry) (es : List Entry)
      → near hi e.0 ≡ false
      → Passed hi (start + 1) es found
      → Passed hi start (e ∷ es) found
  Passed-cons hi start found e es b rest zero p h a = near-head hi e es p false b a
  Passed-cons hi start found e es b rest (suc i) p h a = rest i p (omega arith) a

  Stops-cons :
      (hi : ℤ) (start found : ℕ) (e : Entry) (es : List Entry)
      → start + 1 ≤ found
      → Stops hi (start + 1) es found
      → Stops hi start (e ∷ es) found
  Stops-cons hi start found e es l rest zero p h a = absurd (omega arith)
  Stops-cons hi start found e es l rest (suc i) p h a = rest i p (omega arith) a

  -- `narrow` stops at the first entry that is near, and each entry before it is not.
  pub narrow-first :
      (hi : ℤ) (start : ℕ) (es : List Entry) (found : ℕ)
      → narrow f tolerance_bps hi start es ≡ some found
      → (start ≤ found) × Passed hi start es found × Stops hi start es found
  unfolding narrow
  narrow-first hi start [] found e = ground arith
  narrow-first hi start ((lo, source) ∷ es) found e = elim (Bool-cases (near hi lo)) [
    | inl b ↦
        transfer
          (λ s.
            (start ≤ s)
            × Passed hi start ((lo, source) ∷ es) s
            × Stops hi start ((lo, source) ∷ es) s)
          (rw b at e)
          (omega arith, λ i p h a. absurd (omega arith), Stops-head hi start (lo, source) es b)
    | inr b ↦
        let rest = narrow-first hi (start + 1) es found (rw b at e) in
        (
          omega (arith, rest.0),
          Passed-cons hi start found (lo, source) es b rest.1,
          Stops-cons hi start found (lo, source) es rest.0 rest.2,
        )
  ]
