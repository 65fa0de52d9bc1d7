-- ===== src/Sources/Decimal/Fraction.antt =====
-- binance.rs, `parse_price_to_precision`: the thirty digits behind the point.
use Prim.Native.Char.{code}
use Prim.Native.String.{count, ◌++◌ as append}
use native.Mathlib.Omega.{pow_step}
use text.Mathlib.TextLemmas.{cons-append, nil-append, length-cons, length-nil, length-append}
use so4_oracle.Prelude.{
  ℕ, zero, suc, ◌+◌, ◌-◌, ◌*◌, ◌^◌, ◌≤◌, ◌<◌, ◌≡◌, refl, ap, sym, subst, leb, Bool-cases, inl, inr,
  String, arith,
}
use so4_oracle.Prelude.Text.{push, all_chars, is_ascii_digit, take_chars, count_chars}
use so4_oracle.Prelude.Number.Digits.{
  Digits, value_from, value, value-append, value_lt, pow_pos, pow_add,
}
use so4_oracle.Sources.Decimal.{pad_zeros, normalized_frac}

push-Digits : (s : String) → Digits s → Digits (push s "0")
unfolding push all_chars is_ascii_digit
push-Digits String.[] h = refl
push-Digits (String.◌∷◌ c s) h = ground (arith, push-Digits s)

count-push : (s : String) → count (push s "0") ≡ count s + 1
unfolding push
count-push String.[] = rw (length-cons, length-nil) (omega arith)
count-push (String.◌∷◌ c s) =
    rw (length-cons c (push s "0"), length-cons c s) (omega (arith, count-push s))

value_from-push : (acc : ℕ) (s : String) → value_from acc (push s "0") ≡ value_from acc s * 10
unfolding push value_from
value_from-push acc String.[] = omega arith
value_from-push acc (String.◌∷◌ c s) = value_from-push (acc * 10 + (code c - b'0')) s

-- What padding makes of a text of digits.
Padded : ℕ → String → String → Type 0
Padded n s t = Digits t × (count t ≡ count s + n) × (value t ≡ value s * 10 ^ n)

pad_zeros-Padded : (n : ℕ) (s : String) → Digits s → Padded n s (pad_zeros n s)
unfolding pad_zeros Padded
pad_zeros-Padded zero s h = (h, omega arith, omega arith)
pad_zeros-Padded (suc n) s h =
    let ih = pad_zeros-Padded n (push s "0") (push-Digits s h) in
    (
      ih.0,
      omega (arith, ih.1, count-push s),
      rw (ih.2, value_from-push 0 s, pow_step 10 n) (grind arith),
    )

drop_chars : ℕ → String → String
drop_chars zero s = s
drop_chars (suc n) String.[] = ""
drop_chars (suc n) (String.◌∷◌ c s) = drop_chars n s

take-drop : (n : ℕ) (s : String) → append (take_chars n s) (drop_chars n s) ≡ s
unfolding take_chars drop_chars
take-drop zero s = nil-append s
take-drop (suc n) String.[] = refl
take-drop (suc n) (String.◌∷◌ c s) =
    rw (cons-append c (take_chars n s) (drop_chars n s), take-drop n s) refl

count-take : (n : ℕ) (s : String) → n ≤ count s → count (take_chars n s) ≡ n
unfolding take_chars
count-take zero s h = refl
count-take (suc n) String.[] h = absurd (omega arith)
count-take (suc n) (String.◌∷◌ c s) h =
    rw (length-cons c (take_chars n s))
      (omega (arith, count-take n s (omega (arith, length-cons c s))))

take-Digits : (n : ℕ) (s : String) → Digits s → Digits (take_chars n s)
unfolding take_chars all_chars
take-Digits zero s h = refl
take-Digits (suc n) String.[] h = refl
take-Digits (suc n) (String.◌∷◌ c s) h = ground (arith, take-Digits n s)

drop-Digits : (n : ℕ) (s : String) → Digits s → Digits (drop_chars n s)
unfolding drop_chars all_chars
drop-Digits zero s h = h
drop-Digits (suc n) String.[] h = refl
drop-Digits (suc n) (String.◌∷◌ c s) h = ground (arith, drop-Digits n s)

-- Thirty digits, which stand for the fraction cut off behind the thirtieth.
abbrev pub IsFloor : String → String → Type 0
IsFloor frac t =
    Digits t
    × (count t ≡ 30)
    × (value t * 10 ^ count frac ≤ value frac * 10 ^ 30)
    × (value frac * 10 ^ 30 < (value t + 1) * 10 ^ count frac)

taken-IsFloor : (frac : String) → Digits frac → 30 ≤ count frac → IsFloor frac (take_chars 30 frac)
taken-IsFloor frac h long =
    let t = take_chars 30 frac in
    let d = drop_chars 30 frac in
    let m = count d in
    let joined = take-drop 30 frac in
    let len : count frac ≡ 30 + m =
      omega (arith, sym (ap count joined), length-append t d, count-take 30 frac long) in
    let v : value frac ≡ value t * 10 ^ m + value d =
      omega (arith, sym (ap value joined), value-append t d) in
    let small = value_lt d (drop-Digits 30 frac h) in
    (
      take-Digits 30 frac h,
      count-take 30 frac long,
      rw (v, len, pow_add 30 m) (grind arith),
      rw (v, len, pow_add 30 m) (grind arith),
    )

padded-IsFloor :
    (frac : String)
    → Digits frac
    → count frac < 30
    → IsFloor frac (pad_zeros (30 - count frac) frac)
unfolding Padded
padded-IsFloor frac h short =
    let n = 30 - count frac in
    let p = pad_zeros-Padded n frac h in
    let scale : 10 ^ 30 ≡ 10 ^ n * 10 ^ count frac =
      subst (λ k. 10 ^ k ≡ 10 ^ n * 10 ^ count frac) {x = n + count frac} {y = 30} (omega arith)
        (pow_add n (count frac)) in
    let one = pow_pos (count frac) in
    (p.0, omega (arith, p.1), rw (p.2, scale) (grind arith), rw (p.2, scale) (grind arith))

pub normalized_frac-IsFloor : (frac : String) → Digits frac → IsFloor frac (normalized_frac frac)
unfolding normalized_frac count_chars
normalized_frac-IsFloor frac h = elim (Bool-cases (leb 30 (count frac))) [
  | inl long ↦ rw long (taken-IsFloor frac h (ground arith))
  | inr short ↦ rw short (padded-IsFloor frac h (ground arith))
]
