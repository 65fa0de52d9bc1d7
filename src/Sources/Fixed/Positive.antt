-- ===== src/Sources/Fixed/Positive.antt =====
-- fixed.rs: a configured price is positive.
use so4_oracle.Prelude.{◌≡◌, not, String, arith, some, Option-cases, inl, inr, true, false}
use so4_oracle.Prelude.Int.{ℤ, pos, leb_ℤ}
use so4_oracle.Prelude.Number.{parse_i128, read_int}
use so4_oracle.Prelude.Result.{ok, ensure, ok_or, >>=-eq-ok, ok_or-eq-ok, ensure-eq-ok, transfer_ok}
use so4_oracle.Sources.Fixed.{missing_fixed_price, invalid_fixed_price, configured_price}
use so4_oracle.Sources.Price.{IsPrice, checked-IsPrice}
use so4_oracle.Sources.Token.{TokenConfig}

pub parse_i128-IsPrice :
    (s : String) (p : ℤ) → parse_i128 s ≡ some p → leb_ℤ p (pos 0) ≡ false → IsPrice p
unfolding parse_i128
parse_i128-IsPrice s p e h = elim (Option-cases (read_int s)) [
  | inl q ↦ absurd (ground arith)
  | inr (n, q) ↦ checked-IsPrice n p (rw (q, parse_i128) at e) h
]

pub configured_price-IsPrice :
    (token : TokenConfig) (p : ℤ) → configured_price token ≡ ok p → IsPrice p
unfolding configured_price
configured_price-IsPrice token p e =
    let s1 = >>=-eq-ok (ok_or token.fixed_price missing_fixed_price) _ p e in
    let s2 = >>=-eq-ok (ok_or (parse_i128 s1.0) (invalid_fixed_price s1.0)) _ p s1.2 in
    let s3 = >>=-eq-ok (ensure (not (leb_ℤ s2.0 (pos 0))) (invalid_fixed_price s1.0)) _ p s2.2 in
    transfer_ok IsPrice s3.2 (
      parse_i128-IsPrice s1.0 s2.0
        (ok_or-eq-ok (parse_i128 s1.0) (invalid_fixed_price s1.0) s2.0 s2.1)
        (positive s2.0 (ensure-eq-ok _ _ s3.0 s3.1)))
  where
    positive : (q : ℤ) → not (leb_ℤ q (pos 0)) ≡ true → leb_ℤ q (pos 0) ≡ false
    positive q h = ground arith
