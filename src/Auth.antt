-- ===== src/Auth.antt =====
-- auth.rs: the comparison of the admin token.
pub mod Bits
pub mod Equal
use Prim.Native.Nat.{bit_or, bit_xor}
use so4_oracle.Prelude.{ℕ, ◌==◌, Bool, List, [], ◌∷◌, length}

-- The loop over the longer of the two slices; behind the end of the shorter one a byte reads as 0.
unfoldable pub diff_onto : (left right : List ℕ) → (diff : ℕ) → ℕ
diff_onto [] [] diff = diff
diff_onto [] (b ∷ right) diff = diff_onto [] right (bit_or diff (bit_xor 0 b))
diff_onto (a ∷ left) [] diff = diff_onto left [] (bit_or diff (bit_xor a 0))
diff_onto (a ∷ left) (b ∷ right) diff = diff_onto left right (bit_or diff (bit_xor a b))

unfoldable pub constant_time_eq : List ℕ → List ℕ → Bool
unfolding diff_onto
constant_time_eq left right = diff_onto left right (bit_xor (length left) (length right)) == 0
