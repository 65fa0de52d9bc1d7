-- ===== src/Signing/Message.antt =====
-- signing.rs: a signed message determines the price it was made from.
use Prim.Native.String.{String}
use so4_oracle.Prelude.{
  ℕ, zero, suc, ◌/◌, ◌%◌, ◌^◌, ◌<◌, ◌≡◌, refl, ap, sym, ◌∙◌, List, [], ◌∷◌, ◌++◌, length,
  length-append, arith, true,
}
use mathlib.Core.List.{append_assoc}
use native.Mathlib.Omega.{pow_step}
use so4_oracle.Prelude.Int.{ℤ, pos, negsuc, fits_i128}
use so4_oracle.Prelude.Text.{as_bytes}
use so4_oracle.Signing.{to_be_bytes, bits_i128, build_price_message}

cancel_left : (front xs ys : List ℕ) → front ++ xs ≡ front ++ ys → xs ≡ ys
cancel_left [] xs ys e = e
cancel_left (a ∷ front) xs ys e = cancel_left front xs ys (cc e)

same_rest : (a b : ℕ) (xs ys : List ℕ) → a ∷ xs ≡ b ∷ ys → (a ≡ b) × (xs ≡ ys)
same_rest a b xs ys e = (cc e, cc e)

-- Big-endian bytes of a fixed width, in front of anything, determine the number and the rest.
to_be_bytes-injective :
    (width n m : ℕ) (xs ys : List ℕ)
    → n < 256 ^ width
    → m < 256 ^ width
    → to_be_bytes width n ++ xs ≡ to_be_bytes width m ++ ys
    → (n ≡ m) × (xs ≡ ys)
unfolding to_be_bytes
to_be_bytes-injective zero n m xs ys hn hm e = (omega arith, e)
to_be_bytes-injective (suc k) n m xs ys hn hm e =
    let p = pow_step 256 k in
    let e' =
      sym (append_assoc (to_be_bytes k (n / 256)) (n % 256 ∷ []) xs)
      ∙ e
      ∙ append_assoc (to_be_bytes k (m / 256)) (m % 256 ∷ []) ys in
    let ih =
      to_be_bytes-injective k (n / 256) (m / 256) (n % 256 ∷ xs) (m % 256 ∷ ys) (omega arith)
        (omega arith) e' in
    let r = same_rest (n % 256) (m % 256) xs ys ih.1 in (omega (arith, ih.0, r.0), r.1)

-- Lists with rests of one length split alike.
append_split :
    (front bs xs ys : List ℕ)
    → length xs ≡ length ys
    → front ++ xs ≡ bs ++ ys
    → (front ≡ bs) × (xs ≡ ys)
append_split [] [] xs ys h e = (refl, e)
append_split [] (b ∷ bs) xs ys h e = absurd (omega (arith, ap length e, length-append (b ∷ bs) ys))
append_split (a ∷ front) [] xs ys h e =
    absurd (omega (arith, ap length e, length-append (a ∷ front) xs))
append_split (a ∷ front) (b ∷ bs) xs ys h e =
    let r = same_rest a b (front ++ xs) (bs ++ ys) e in
    let ih = append_split front bs xs ys h r.1 in (cc (r.0, ih.0), ih.1)

length-to_be_bytes : (width n : ℕ) → length (to_be_bytes width n) ≡ width
unfolding to_be_bytes
length-to_be_bytes zero n = refl
length-to_be_bytes (suc k) n =
    omega (
      arith,
      length-append (to_be_bytes k (n / 256)) (n % 256 ∷ []),
      length-to_be_bytes k (n / 256),
    )

-- Two numbers that fit have the same bits only if they are equal.
bits_i128-injective :
    (a b : ℤ) → fits_i128 a ≡ true → fits_i128 b ≡ true → bits_i128 a ≡ bits_i128 b → a ≡ b
unfolding bits_i128 fits_i128
bits_i128-injective (pos m) (pos n) ha hb e = ground arith
bits_i128-injective (pos m) (negsuc n) ha hb e = absurd (ground arith)
bits_i128-injective (negsuc m) (pos n) ha hb e = absurd (ground arith)
bits_i128-injective (negsuc m) (negsuc n) ha hb e = ground arith

bits_i128_bound : (a : ℤ) → fits_i128 a ≡ true → bits_i128 a < 256 ^ 16
unfolding bits_i128 fits_i128
bits_i128_bound (pos n) h = ground arith
bits_i128_bound (negsuc n) h = ground arith

-- The last forty bytes: two prices and a time.
module _ (min_price max_price : ℤ) (timestamp : ℕ) where
  abbrev tail : List ℕ
  tail =
      to_be_bytes 16 (bits_i128 min_price)
      ++ (to_be_bytes 16 (bits_i128 max_price) ++ to_be_bytes 8 timestamp)

  length-tail : length tail ≡ 40
  length-tail =
      let low = to_be_bytes 16 (bits_i128 min_price) in
      let high = to_be_bytes 16 (bits_i128 max_price) in
      let time = to_be_bytes 8 timestamp in
      omega (
        arith,
        length-append low (high ++ time),
        length-append high time,
        length-to_be_bytes 16 (bits_i128 min_price),
        length-to_be_bytes 16 (bits_i128 max_price),
        length-to_be_bytes 8 timestamp,
      )

-- What a signed message says, and the ranges of its fields.
pub record Quote : Type 0 where
  pub ledger_seq : ℕ
  pub token_strkey : String
  pub min_price : ℤ
  pub max_price : ℤ
  pub timestamp : ℕ

abbrev pub Fits : Quote → Type 0
Fits q =
    (q.ledger_seq < 2 ^ 32)
    × (fits_i128 q.min_price ≡ true)
    × (fits_i128 q.max_price ≡ true)
    × (q.timestamp < 2 ^ 64)

abbrev pub message : String → Quote → List ℕ
message passphrase q =
    build_price_message passphrase q.ledger_seq q.token_strkey q.min_price q.max_price q.timestamp

-- Under one network passphrase, two prices with fields in their machine ranges have the same
-- signed bytes only if ledger, token bytes, both bounds and the time are the same: a signature for one
-- is a signature for nothing else.
pub build_price_message-injective :
    (passphrase : String) (q r : Quote)
    → Fits q
    → Fits r
    → message passphrase q ≡ message passphrase r
    → (q.ledger_seq ≡ r.ledger_seq)
      × (as_bytes q.token_strkey ≡ as_bytes r.token_strkey)
      × (q.min_price ≡ r.min_price)
      × (q.max_price ≡ r.max_price)
      × (q.timestamp ≡ r.timestamp)
unfolding build_price_message
build_price_message-injective passphrase q r hq hr e =
    let tq = tail q.min_price q.max_price q.timestamp in
    let tr = tail r.min_price r.max_price r.timestamp in
    let s1 =
      to_be_bytes-injective 4 q.ledger_seq r.ledger_seq (as_bytes q.token_strkey ++ tq)
        (as_bytes r.token_strkey ++ tr) hq.0 hr.0 (cancel_left (as_bytes passphrase) _ _ e) in
    let lengths : length tq ≡ length tr =
      length-tail q.min_price q.max_price q.timestamp
      ∙ sym (length-tail r.min_price r.max_price r.timestamp) in
    let s2 = append_split (as_bytes q.token_strkey) (as_bytes r.token_strkey) tq tr lengths s1.1 in
    let s3 =
      to_be_bytes-injective 16 (bits_i128 q.min_price) (bits_i128 r.min_price) _ _
        (bits_i128_bound q.min_price hq.1) (bits_i128_bound r.min_price hr.1) s2.1 in
    let s4 =
      to_be_bytes-injective 16 (bits_i128 q.max_price) (bits_i128 r.max_price) _ _
        (bits_i128_bound q.max_price hq.2) (bits_i128_bound r.max_price hr.2) s3.1 in
    let s5 =
      to_be_bytes-injective 8 q.timestamp r.timestamp [] [] hq.3 hr.3
        (ap (λ (l : List ℕ). l ++ []) s4.1) in
    (
      s1.0,
      s2.0,
      bits_i128-injective q.min_price r.min_price hq.1 hr.1 s3.0,
      bits_i128-injective q.max_price r.max_price hq.2 hr.2 s4.0,
      s5.0,
    )
