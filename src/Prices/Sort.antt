-- ===== src/Prices/Sort.antt =====
-- The sorts of the standard library that prices.rs calls, as stable insertion.
use Prim.Native.String.{compare}
use Prim.Native.Nat.{Ordering}
use so4_oracle.Prelude.{
  suc, ◌≡◌, Bool, true, false, List, [], ◌∷◌, String, length, arith, All, if◌then◌else◌, Bool-cases,
  inl, inr,
}
use so4_oracle.Prelude.Int.{ℤ, ltb_ℤ, leb_ℤ, ◌≤ℤ◌}

module _ {A : Type 0} (le : A → A → Bool) where
  unfoldable pub insert : A → List A → List A
  insert x [] = x ∷ []
  insert x (y ∷ ys) = let rest = insert x ys in if le x y then x ∷ y ∷ ys else y ∷ rest

  unfoldable pub sort_by : List A → List A
  unfolding insert
  sort_by [] = []
  sort_by (x ∷ xs) = insert x (sort_by xs)

  pub length-sort_by : (xs : List A) → length (sort_by xs) ≡ length xs
  unfolding sort_by
  length-sort_by [] = omega arith
  length-sort_by (x ∷ xs) = omega (arith, length-insert (sort_by xs), length-sort_by xs)
    where
      length-insert : (ys : List A) → length (insert x ys) ≡ suc (length ys)
      length-insert [] = omega arith
      length-insert (y ∷ ys) = ground (arith, length-insert ys)

  pub All-sort_by : (P : A → Type 0) (xs : List A) → All P xs → All P (sort_by xs)
  unfolding sort_by
  All-sort_by P [] h = tt
  All-sort_by P (x ∷ xs) h = All-insert (sort_by xs) h.0 (All-sort_by P xs h.1)
    where
      All-insert : (ys : List A) → P x → All P ys → All P (insert x ys)
      All-insert [] px h = (px, tt)
      All-insert (y ∷ ys) px h = elim (Bool-cases (le x y)) [
        | inl q ↦ rw (q, insert) (px, h)
        | inr q ↦ rw (q, insert) (h.0, All-insert ys px h.1)
      ]

-- `sort_unstable` of integers.
unfoldable pub sort : List ℤ → List ℤ
unfolding sort_by
sort = sort_by leb_ℤ

pub length-sort : (ps : List ℤ) → length (sort ps) ≡ length ps
unfolding sort
length-sort = length-sort_by leb_ℤ

abbrev text_le : String → String → Bool
text_le s t = elim (compare s t) [ Ordering.gt ↦ false | _ ↦ true ]

-- `a.0.cmp(&b.0).then_with(|| a.1.cmp(b.1))` is not `Greater`.
abbrev pub entry_le : ℤ × String → ℤ × String → Bool
entry_le (p, s) (q, t) = if ltb_ℤ p q then true else (if ltb_ℤ q p then false else text_le s t)

unfoldable pub sort_entries : List (ℤ × String) → List (ℤ × String)
unfolding sort_by
sort_entries = sort_by entry_le

-- Neighbours are in order.
abbrev pub Ascending : {A : Type 0} → (A → ℤ) → List A → Type 0
Ascending key [] = Unit
Ascending key (x ∷ []) = Unit
Ascending key (x ∷ y ∷ ys) = (key x ≤ℤ key y) × Ascending key (y ∷ ys)

module _ {A : Type 0} (key : A → ℤ) (le : A → A → Bool)
    (le_up : (x y : A) → le x y ≡ true → key x ≤ℤ key y)
    (le_down : (x y : A) → le x y ≡ false → key y ≤ℤ key x) where
  insert-Ascending : (x : A) (ys : List A) → Ascending key ys → Ascending key (insert le x ys)
  unfolding insert
  insert-Ascending x [] h = tt
  insert-Ascending x (y ∷ []) h = elim (Bool-cases (le x y)) [
    | inl b ↦ rw b (le_up x y b, tt)
    | inr b ↦ rw b (le_down x y b, tt)
  ]
  insert-Ascending x (y ∷ z ∷ zs) h =
      let rest = insert-Ascending x (z ∷ zs) h.1 in
      elim (Bool-cases (le x y)) [
        | inl b ↦ rw b (le_up x y b, h)
        | inr b ↦ elim (Bool-cases (le x z)) [
          | inl c ↦ rw (b, c) (le_down x y b, (le_up x z c, h.1))
          | inr c ↦ rw (b, c) (h.0, rw c at rest)
        ]
      ]

  pub sort_by-Ascending : (xs : List A) → Ascending key (sort_by le xs)
  unfolding sort_by
  sort_by-Ascending [] = tt
  sort_by-Ascending (x ∷ xs) = insert-Ascending x (sort_by le xs) (sort_by-Ascending xs)

pub sort_entries-Ascending : (es : List (ℤ × String)) → Ascending (λ e. e.0) (sort_entries es)
unfolding sort_entries
sort_entries-Ascending =
    sort_by-Ascending (λ e. e.0) entry_le (λ x y h. ground arith) (λ x y h. ground arith)

pub sort-Ascending : (ps : List ℤ) → Ascending (λ p. p) (sort ps)
unfolding sort
sort-Ascending = sort_by-Ascending (λ p. p) leb_ℤ (λ x y h. ground arith) (λ x y h. ground arith)

-- A list in order is left as it is.
pub sort-Ascending_id : (ps : List ℤ) → Ascending (λ p. p) ps → sort ps ≡ ps
unfolding sort sort_by insert
sort-Ascending_id [] h = λ i. []
sort-Ascending_id (p ∷ []) h = λ i. p ∷ []
sort-Ascending_id (p ∷ q ∷ ps) h =
    let rest = sort-Ascending_id (q ∷ ps) h.1 in
    let head : leb_ℤ p q ≡ true = ground (arith, h.0) in rw (rest, head) (λ i. p ∷ q ∷ ps)
