-- ===== src/Auth/Equal.antt =====
-- auth.rs: the comparison says whether the slices are the same.
use Prim.Native.Nat.{bit_xor}
use so4_oracle.Prelude.{ℕ, ◌≡◌, refl, true, List, [], ◌∷◌, length, arith}
use so4_oracle.Auth.{diff_onto, constant_time_eq}
use so4_oracle.Auth.Bits.{bit_xor-zero, bit_xor-same, bit_or-zero}

-- The difference only grows: it is 0 at the end only if it was 0 at the start.
diff_onto-start : (l r : List ℕ) (d : ℕ) → diff_onto l r d ≡ 0 → d ≡ 0
unfolding diff_onto
diff_onto-start [] [] d e = e
diff_onto-start [] (b ∷ r) d e = (bit_or-zero d _ (diff_onto-start [] r _ e)).0
diff_onto-start (a ∷ l) [] d e = (bit_or-zero d _ (diff_onto-start l [] _ e)).0
diff_onto-start (a ∷ l) (b ∷ r) d e = (bit_or-zero d _ (diff_onto-start l r _ e)).0

-- With one length, no difference means the same bytes.
diff_onto-zero : (l r : List ℕ) (d : ℕ) → length l ≡ length r → diff_onto l r d ≡ 0 → l ≡ r
unfolding diff_onto
diff_onto-zero [] [] d h e = refl
diff_onto-zero [] (b ∷ r) d h e = absurd (omega (arith, h))
diff_onto-zero (a ∷ l) [] d h e = absurd (omega (arith, h))
diff_onto-zero (a ∷ l) (b ∷ r) d h e =
    let same = bit_xor-zero a b (bit_or-zero d (bit_xor a b) (diff_onto-start l r _ e)).1 in
    let rest = diff_onto-zero l r _ (omega (arith, h)) e in cc

diff_onto-same : (l : List ℕ) → diff_onto l l 0 ≡ 0
unfolding diff_onto
diff_onto-same [] = refl
diff_onto-same (a ∷ l) = rw (bit_xor-same a) (diff_onto-same l)

pub constant_time_eq_sound : (l r : List ℕ) → constant_time_eq l r ≡ true → l ≡ r
unfolding constant_time_eq
constant_time_eq_sound l r h =
    let e : diff_onto l r (bit_xor (length l) (length r)) ≡ 0 = ground arith in
    diff_onto-zero l r _ (bit_xor-zero (length l) (length r) (diff_onto-start l r _ e)) e

pub constant_time_eq_refl : (l : List ℕ) → constant_time_eq l l ≡ true
unfolding constant_time_eq
constant_time_eq_refl l = rw (bit_xor-same (length l), diff_onto-same l) refl
