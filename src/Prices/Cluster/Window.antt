-- ===== src/Prices/Cluster/Window.antt =====
-- The window that `find_largest_consistent_cluster` chooses.
use so4_oracle.Prelude.{
  ℕ, suc, ◌+◌, ◌-◌, ◌≤◌, ◌<◌, ◌≡◌, refl, true, false, ◌&&◌, ◌||◌, ◌⊎◌, inl, inr, some, List, [],
  ◌∷◌, drop, length, arith, Bool-cases, ltb, ◌==◌, transfer, subst, sym, ap, ◌∙◌,
}
use so4_oracle.Prelude.Int.{ℤ, ◌≤ℤ◌, ◌-ℤ◌, checked, ltb_ℤ}
use mathlib.Core.Option.{some-injective}
use so4_oracle.Float.{Float}
use so4_oracle.Prices.Sort.{Ascending, sort_entries, sort_entries-Ascending}
use so4_oracle.Prices.Cluster.{Entry, price_at, sub_usize, narrow, slide, slide_all, largest_window}
use so4_oracle.Prices.Cluster.Order.{
  bind-some, At, At-unique, At-Ascending, price_at-drop, near, narrow-first,
}

sub_usize-some : (a b n : ℕ) → sub_usize a b ≡ some n → (b ≤ a) × (n ≡ a - b)
sub_usize-some a b n e = ground arith

-- One round keeps the best window, unless the window it found is at least as large and takes over.
abbrev Chosen : (end bs be s : ℕ) → ℕ × ℕ × ℕ → Type 0
Chosen end bs be s w =
    ((w ≡ (s, s, end)) × (be - bs ≤ end - s)) ⊎ ((w ≡ (s, bs, be)) × (end - s ≤ be - bs))

module _ {F : Type 0} (f : Float F) (tol : ℕ) where
  -- The deviation does not fall while the higher price rises.
  abbrev pub Widens : Type 0
  Widens =
      (lo hi hi' : ℤ) → lo ≤ℤ hi → hi ≤ℤ hi' → near f tol hi' lo ≡ true → near f tol hi lo ≡ true

module _ {F : Type 0} (f : Float F) (tol : ℕ) (sorted : List Entry) where
  slide-Chosen :
      (hi : ℤ) (end start bs be : ℕ) (w : ℕ × ℕ × ℕ)
      → slide f tol sorted hi end start (bs, be) ≡ some w
      → (s : ℕ) × (narrow f tol hi start (drop start sorted) ≡ some s)
        × (s ≤ end)
        × Chosen end bs be s w
  unfolding slide
  slide-Chosen hi end start bs be w e =
      let s1 = bind-some (narrow f tol hi start (drop start sorted)) _ w e in
      let s = s1.0 in
      let s2 = bind-some (sub_usize end s) _ w s1.2 in
      let s3 = bind-some (price_at sorted s) _ w s2.2 in
      let s4 = bind-some (checked (hi -ℤ s3.0)) _ w s3.2 in
      let s5 = bind-some (price_at sorted (be - 1)) _ w s4.2 in
      let s6 = bind-some (price_at sorted bs) _ w s5.2 in
      let s7 = bind-some (checked (s5.0 -ℤ s6.0)) _ w s6.2 in
      let len = sub_usize-some end s s2.0 s2.1 in
      let better = ltb (be - bs) s2.0 || (s2.0 == be - bs && ltb_ℤ s4.0 s7.0) in
      (
        s,
        s1.1,
        len.0,
        elim (Bool-cases better) [
          | inl b ↦ inl (some-injective _ _ (sym s7.2) ∙ rw b refl, ground (arith, len.1))
          | inr b ↦ inr (some-injective _ _ (sym s7.2) ∙ rw b refl, ground (arith, len.1))
        ],
      )

  -- No window that ends behind `end` and starts before `start` is consistent.
  abbrev Cut : ℕ → ℕ → Type 0
  Cut end start =
      (i j : ℕ) (lo hi : ℤ)
      → i < start
      → end ≤ j
      → At sorted i lo
      → At sorted j hi
      → near f tol hi lo ≡ false

  -- A consistent window that ends before `end` has at most `n` members.
  abbrev pub Largest : ℕ → ℕ → Type 0
  Largest end n =
      (i j : ℕ) (lo hi : ℤ)
      → i ≤ j
      → j < end
      → At sorted i lo
      → At sorted j hi
      → near f tol hi lo ≡ true
      → suc j - i ≤ n

  -- The window's highest price is near its lowest one, so that each two of its prices are.
  abbrev pub Consistent : ℕ × ℕ → Type 0
  Consistent (bs, be) =
      (bs < be) × ((lo hi : ℤ) → At sorted bs lo → At sorted (be - 1) hi → near f tol hi lo ≡ true)

  abbrev pub IsBest : ℕ → ℕ × ℕ → Type 0
  IsBest end (bs, be) = Consistent (bs, be) × Largest end (be - bs)

  not_near : (hi lo : ℤ) → near f tol hi lo ≡ true → near f tol hi lo ≡ false → ⊥
  not_near hi lo t u = cc

  skipped :
      (hi : ℤ) (start s i : ℕ) (lo : ℤ)
      → narrow f tol hi start (drop start sorted) ≡ some s
      → start ≤ i
      → i < s
      → At sorted i lo
      → near f tol hi lo ≡ false
  skipped hi start s i lo found p q a =
      (narrow-first f tol hi start (drop start sorted) s found).1 (i - start) lo (omega arith) (
        price_at-drop start sorted (i - start)
        ∙ ap (price_at sorted) {x = start + (i - start)} {y = i} (omega arith)
        ∙ a)

  module _ (up : Ascending (λ e. e.0) sorted) (widens : Widens f tol) where
    Cut-step :
        (hi : ℤ) (end start s : ℕ)
        → At sorted end hi
        → narrow f tol hi start (drop start sorted) ≡ some s
        → s ≤ end + 1
        → Cut end start
        → Cut (end + 1) s
    Cut-step hi end start s top found l cut i j lo hi' p q a b = elim (Bool-cases (ltb i start)) [
      | inl before ↦ cut i j lo hi' (ground arith) (omega arith) a b
      | inr behind ↦ elim (Bool-cases (near f tol hi' lo)) [
        | inr far ↦ far
        | inl close ↦ absurd (
            not_near hi lo
              (widens lo hi hi' (At-Ascending sorted i end lo hi up (omega arith) a top)
                (At-Ascending sorted end j hi hi' up (omega arith) top b) close)
              (skipped hi start s i lo found (ground arith) p a))
      ]
    ]

    Largest-step :
        (hi : ℤ) (end start s n : ℕ)
        → At sorted end hi
        → narrow f tol hi start (drop start sorted) ≡ some s
        → end + 1 - s ≤ n
        → Cut end start
        → Largest end n
        → Largest (end + 1) n
    Largest-step hi end start s n top found l cut best i j lo hi' p q a b near_ij =
        elim (Bool-cases (ltb j end)) [
          | inl before ↦ omega (arith, best i j lo hi' p (ground arith) a b near_ij)
          | inr last ↦
              let same : j ≡ end = ground arith in
              let now : near f tol hi lo ≡ true =
                subst (λ x. near f tol x lo ≡ true)
                  (At-unique sorted end hi' hi (subst (λ k. At sorted k hi') same b) top) near_ij in
              elim (Bool-cases (ltb i start)) [
                | inl cut_off ↦
                    absurd (not_near hi lo now (cut i end lo hi (ground arith) (omega arith) a top))
                | inr kept ↦ elim (Bool-cases (ltb i s)) [
                  | inl passed ↦ absurd (
                      not_near hi lo now
                        (skipped hi start s i lo found (ground arith) (ground arith) a))
                  | inr inside ↦ ground arith
                ]
              ]
        ]

    Consistent-step :
        (hi : ℤ) (end start bs be s : ℕ) (w : ℕ × ℕ × ℕ)
        → At sorted end hi
        → narrow f tol hi start (drop start sorted) ≡ some s
        → Chosen (end + 1) bs be s w
        → Consistent (bs, be)
        → Consistent (w.1, w.2)
    Consistent-step hi end start bs be s w top found (inr (e, l)) best =
        subst (λ x. Consistent (x.1, x.2)) (sym e) best
    Consistent-step hi end start bs be s w top found (inl (e, l)) best =
        let first = narrow-first f tol hi start (drop start sorted) s found in
        subst (λ x. Consistent (x.1, x.2)) (sym e)
          (
            omega (arith, best.0),
            λ lo hi' a b.
                subst (λ x. near f tol x lo ≡ true)
                  (At-unique sorted end hi hi' top
                    (ap (price_at sorted) {x = end} {y = end + 1 - 1} (omega arith) ∙ b))
                  (first.2 (s - start) lo (omega (arith, first.0)) (
                    price_at-drop start sorted (s - start)
                    ∙ ap (price_at sorted) {x = start + (s - start)} {y = s}
                        (omega (arith, first.0))
                    ∙ a)),
          )

    size-step :
        (end bs be s : ℕ) (w : ℕ × ℕ × ℕ)
        → Chosen end bs be s w
        → (w.0 ≡ s) × (end - s ≤ w.2 - w.1) × (be - bs ≤ w.2 - w.1)
    size-step end bs be s w (inl (e, l)) = rw e (refl, omega arith, l)
    size-step end bs be s w (inr (e, l)) = rw e (refl, l, omega arith)

    -- The rounds that are left, on the entries from `end`.
    slide_all-IsBest :
        (rest : List Entry) (end start : ℕ) (best found : ℕ × ℕ)
        → ((k : ℕ) → price_at rest k ≡ price_at sorted (end + k))
        → Cut end start
        → IsBest end best
        → slide_all f tol sorted rest end start best ≡ some found
        → IsBest (end + length rest) found
    unfolding slide_all
    slide_all-IsBest [] end start best found tail cut is_best e =
        subst (λ n. IsBest n found) {x = end} {y = end + 0} (omega arith)
          (transfer (IsBest end) e is_best)
    slide_all-IsBest ((hi, source) ∷ rest) end start (bs, be) found tail cut is_best e =
        let round = slide f tol sorted hi (end + 1) start (bs, be) in
        let (w, ran, later) =
          bind-some round (λ w. slide_all f tol sorted rest (end + 1) w.0 (w.1, w.2)) found e in
        let (s, narrowed, l, chosen) = slide-Chosen hi (end + 1) start bs be w ran in
        let top : At sorted end hi =
          ap (price_at sorted) {x = end} {y = end + 0} (omega arith) ∙ sym (tail 0) in
        let (e0, len, grown) = size-step (end + 1) bs be s w chosen in
        subst (λ n. IsBest n found) {x = end + 1 + length rest} {y = end + suc (length rest)}
          (omega arith)
          (slide_all-IsBest rest (end + 1) w.0 (w.1, w.2) found
            (λ k.
              tail (suc k) ∙ ap (price_at sorted) {x = end + suc k} {y = end + 1 + k} (omega arith))
            (subst (Cut (end + 1)) (sym e0) (Cut-step hi end start s top narrowed l cut))
            (
              Consistent-step hi end start bs be s w top narrowed chosen is_best.0,
              Largest-step hi end start s (w.2 - w.1) top narrowed len cut
                  (λ i j lo hi' p q a b c. omega (arith, grown, is_best.1 i j lo hi' p q a b c)),
            )
            later)

    sorted_window-IsBest :
        (found : ℕ × ℕ)
        → ((i : ℕ) (p : ℤ) → At sorted i p → near f tol p p ≡ true)
        → largest_window f tol sorted ≡ some found
        → IsBest (length sorted) found
    unfolding largest_window
    sorted_window-IsBest found itself e =
        subst (λ n. IsBest n found) {x = 0 + length sorted} {y = length sorted} (omega arith)
          (slide_all-IsBest sorted 0 0 (0, 1) found
            (λ k. ap (price_at sorted) {x = k} {y = 0 + k} (omega arith))
            (λ i j lo hi p q a b. absurd (omega arith))
            (
              (
                omega arith,
                λ lo hi a b.
                    subst (λ x. near f tol x lo ≡ true) (At-unique sorted 0 lo hi a b)
                      (itself 0 lo a),
              ),
              λ i j lo hi p q a b c. absurd (omega arith),
            )
            e)

-- Where the deviation does not fall while the higher price rises, and each of the priced sources is
-- within the tolerance of itself: the window that is chosen among the sorted sources is consistent,
-- and no consistent window of them has more members.
pub largest_window-IsBest :
    {F : Type 0} (f : Float F) (tolerance_bps : ℕ) (entries : List Entry) (found : ℕ × ℕ)
    → Widens f tolerance_bps
    → ((i : ℕ) (p : ℤ) → At (sort_entries entries) i p → near f tolerance_bps p p ≡ true)
    → largest_window f tolerance_bps (sort_entries entries) ≡ some found
    → IsBest f tolerance_bps (sort_entries entries) (length (sort_entries entries)) found
largest_window-IsBest f tol entries found widens itself =
    sorted_window-IsBest f tol (sort_entries entries) (sort_entries-Ascending entries) widens found
      itself
