-- ===== src/Auth/Bits.antt =====
-- auth.rs: what the comparison uses of the operations on bits.
use Prim.Native.Nat.{bit_or, bit_xor, bit_or-bitwise, bit_xor-bitwise, digits, differ}
use so4_oracle.Prelude.{ℕ, zero, suc, ◌/◌, ◌%◌, ◌≤◌, ◌≡◌, refl, sym, ◌∙◌, max, arith}

differ-zero : (x y : ℕ) → differ x y ≡ 0 → x ≡ y
differ-zero zero y h = ground (arith, h)
differ-zero (suc x) zero h = h
differ-zero (suc x) (suc y) h = ground (arith, differ-zero x y h)

differ-same : (x : ℕ) → differ x x ≡ 0
differ-same zero = refl
differ-same (suc x) = differ-same x

max-zero : (x y : ℕ) → max x y ≡ 0 → (x ≡ 0) × (y ≡ 0)
max-zero x y h = (omega (arith, h), omega (arith, h))

xor_digits-zero : (n a b : ℕ) → a ≤ n → digits (λ b. b) differ n a b ≡ 0 → a ≡ b
xor_digits-zero zero a b h e = omega (arith, h, e)
xor_digits-zero (suc n) zero b h e = omega (arith, e)
xor_digits-zero (suc n) (suc a) b h e =
    let ih = xor_digits-zero n (suc a / 2) (b / 2) (omega arith) in
    omega (arith, ih (omega (arith, e)), differ-zero (suc a % 2) (b % 2) (omega (arith, e)))

xor_digits-same : (n a : ℕ) → a ≤ n → digits (λ b. b) differ n a a ≡ 0
xor_digits-same zero a h = omega (arith, h)
xor_digits-same (suc n) zero h = refl
xor_digits-same (suc n) (suc a) h =
    omega (arith, xor_digits-same n (suc a / 2) (omega arith), differ-same (suc a % 2))

or_digits-zero : (n a b : ℕ) → a ≤ n → digits (λ b. b) max n a b ≡ 0 → (a ≡ 0) × (b ≡ 0)
or_digits-zero zero a b h e = (omega (arith, h), e)
or_digits-zero (suc n) zero b h e = (refl, e)
or_digits-zero (suc n) (suc a) b h e =
    let ih = or_digits-zero n (suc a / 2) (b / 2) (omega arith) (omega (arith, e)) in
    let m = max-zero (suc a % 2) (b % 2) (omega (arith, e)) in absurd (omega (arith, ih.0, m.0))

bit_xor-digits : (a b : ℕ) → bit_xor a b ≡ digits (λ b. b) differ a a b
bit_xor-digits a b = λ i. bit_xor-bitwise a b i

bit_or-digits : (a b : ℕ) → bit_or a b ≡ digits (λ b. b) max a a b
bit_or-digits a b = λ i. bit_or-bitwise a b i

pub bit_xor-zero : (a b : ℕ) → bit_xor a b ≡ 0 → a ≡ b
bit_xor-zero a b e = xor_digits-zero a a b (omega arith) (sym (bit_xor-digits a b) ∙ e)

pub bit_xor-same : (a : ℕ) → bit_xor a a ≡ 0
bit_xor-same a = bit_xor-digits a a ∙ xor_digits-same a a (omega arith)

pub bit_or-zero : (a b : ℕ) → bit_or a b ≡ 0 → (a ≡ 0) × (b ≡ 0)
bit_or-zero a b e = or_digits-zero a a b (omega arith) (sym (bit_or-digits a b) ∙ e)
