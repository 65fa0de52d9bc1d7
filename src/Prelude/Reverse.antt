-- ===== src/Prelude/Reverse.antt =====
-- `iter().rev()`: a list from its end, and how much of it is taken.
use Prim.Native.Nat.{ℕ, zero, suc, ◌-◌, ◌≤◌}
use mathlib.Core.Path.{◌≡◌, refl, sym, ap, ◌∙◌}
use mathlib.Core.Logic.{inl, inr}
use mathlib.Core.List.{List, [], ◌∷◌, ◌++◌, reverse, reverse-cons, reverse-append}
use native.Mathlib.Omega.{arith}
use so4_oracle.Prelude.Tests.{leb, Bool-cases}
use so4_oracle.Prelude.Lists.{length, take, drop, length-append, length-drop, take-append-drop}

module _ {ℓ} {A : Type ℓ} where
  pub length-reverse : (xs : List A) → length (reverse xs) ≡ length xs
  length-reverse [] = refl
  length-reverse (x ∷ xs) =
      ap length (reverse-cons x xs)
      ∙ omega (arith, length-append (reverse xs) (x ∷ []), length-reverse xs)

  take_all : (n : ℕ) (xs : List A) → length xs ≤ n → take n xs ≡ xs
  take_all zero [] h = refl
  take_all (suc n) [] h = refl
  take_all zero (x ∷ xs) h = absurd (omega arith)
  take_all (suc n) (x ∷ xs) h = ap (◌∷◌ x) (take_all n xs (omega arith))

  take-append : (n : ℕ) (xs ys : List A) → length xs ≡ n → take n (xs ++ ys) ≡ xs
  take-append zero [] ys h = refl
  take-append (suc n) [] ys h = absurd (omega arith)
  take-append zero (x ∷ xs) ys h = absurd (omega arith)
  take-append (suc n) (x ∷ xs) ys h = ap (◌∷◌ x) (take-append n xs ys (omega arith))

  -- The last `n` elements from their end are the first `n` from the end.
  pub reverse-drop : (n : ℕ) (xs : List A) → reverse (drop (length xs - n) xs) ≡ take n (reverse xs)
  reverse-drop n xs = elim (Bool-cases (leb n (length xs))) [
    | inl long ↦
        let k = length xs - n in
        let split : reverse xs ≡ reverse (drop k xs) ++ reverse (take k xs) =
          ap reverse (sym (take-append-drop k xs)) ∙ reverse-append (take k xs) (drop k xs) in
        sym (
          ap (take n) split
          ∙ take-append n (reverse (drop k xs)) (reverse (take k xs))
              (ground (arith, length-reverse (drop k xs), length-drop k xs)))
    | inr short ↦
        let e : length xs - n ≡ 0 = ground arith in
        rw e (sym (take_all n (reverse xs) (ground (arith, length-reverse xs))))
  ]
