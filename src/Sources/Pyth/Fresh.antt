-- ===== src/Sources/Pyth/Fresh.antt =====
-- pyth.rs: what holds of a Pyth price that passes its tests.
use so4_oracle.Prelude.{
  ℕ, ◌+◌, ◌-◌, ◌^◌, ◌≤◌, ◌≡◌, ◌&&◌, not, ltb, some, none, Option, String, arith, [], ◌∷◌,
}
use so4_oracle.Prelude.Int.{ℤ, pos, negsuc, pos_part, ◌+ℤ◌, ◌*ℤ◌, ◌≤ℤ◌, checked, leb_ℤ, ltb_ℤ}
use so4_oracle.Prelude.Number.{parse_i128}
use so4_oracle.Prelude.Result.{
  Result, ok, ensure, ok_or, >>=-eq-ok, ok_or-eq-ok, ensure-eq-ok, transfer_ok,
}
use so4_oracle.Prelude.Text.{trim, concat}
use so4_oracle.Rpc.{show_int}
use so4_oracle.Float.{Float}
use so4_oracle.Sources.Price.{IsPrice, checked-IsPrice}
use so4_oracle.Sources.Pyth.{
  PythPriceError, price_parse_error, invalid_publish_time, stale_price, PriceWithTimestamp,
  max_future_skew_seconds, known_time, normalize_pyth_price, validate_pyth_price, check_confidence,
}
use so4_oracle.Sources.Web.{PythPriceData}

-- The price is the text's integer times 10^(30 + expo), and the observation is at most
-- `stale_after_seconds` old and at most 30 seconds ahead of the clock.
abbrev pub IsFresh : PythPriceData → (now stale_after : ℕ) → PriceWithTimestamp → Type 0
IsFresh feed now stale_after r =
    IsPrice r.price
    × ((raw : ℤ) × (parse_i128 (trim feed.price) ≡ some raw)
        × (r.price ≡ raw *ℤ pos (10 ^ pos_part (pos 30 +ℤ feed.expo))))
    × (negsuc 29 ≤ℤ feed.expo)
    × (feed.expo ≤ℤ pos 0)
    × (feed.publish_time ≡ some (pos r.observation_time))
    × (now ≤ r.observation_time + stale_after)
    × (r.observation_time ≤ now + 30)

checked-eq : (a p : ℤ) → checked a ≡ some p → p ≡ a
unfolding checked
checked-eq a p e = ground arith

-- What scaling leaves.
abbrev Scaled : String → ℤ → ℤ → Type 0
Scaled text expo p =
    ((raw : ℤ) × (parse_i128 (trim text) ≡ some raw)
      × (checked (raw *ℤ pos (10 ^ pos_part (pos 30 +ℤ expo))) ≡ some p))
    × (negsuc 29 ≤ℤ expo)
    × (expo ≤ℤ pos 0)

module _ {F : Type 0} (f : Float F) where
  normalize_pyth_price-Scaled :
      (text : String) (expo p : ℤ)
      → ◌≡◌ {A = Result (PythPriceError F) ℤ} (normalize_pyth_price text expo) (ok p)
      → Scaled text expo p
  unfolding normalize_pyth_price
  normalize_pyth_price-Scaled text expo p e =
      let E = PythPriceError F in
      let s1 =
        >>=-eq-ok {E = E}
          (ensure (leb_ℤ (negsuc 29) expo && leb_ℤ expo (pos 0))
            (price_parse_error (concat ("unsupported exponent: " ∷ show_int expo ∷ []))))
          _ p e in
      let s2 =
        >>=-eq-ok {E = E}
          (ok_or (parse_i128 (trim text))
            (price_parse_error (concat ("invalid price: " ∷ text ∷ []))))
          _ p s1.2 in
      let s3 =
        >>=-eq-ok {E = E}
          (ensure (not (ltb_ℤ s2.0 (pos 0))) (price_parse_error "negative prices not supported")) _
          p s2.2 in
      let b = ensure-eq-ok {E = E} _ _ s1.0 s1.1 in
      (
        (s2.0, ok_or-eq-ok {E = E} _ _ s2.0 s2.1, ok_or-eq-ok {E = E} _ _ p s3.2),
        ground arith,
        ground arith,
      )

  known_time-eq :
      (t : Option ℤ) (n : ℕ)
      → ◌≡◌ {A = Result (PythPriceError F) ℕ} (known_time t) (ok n)
      → t ≡ some (pos n)
  known_time-eq none n e = absurd (ground arith)
  known_time-eq (some (pos m)) n e = ground arith
  known_time-eq (some (negsuc m)) n e = absurd (ground arith)

  -- A Pyth price that is accepted is positive, fits an `i128`, and is exactly the feed's integer
  -- times 10^(30 + exponent) with an exponent in [-30, 0]; it carries the feed's publish time, which is
  -- at most `stale_after_seconds` in the past and at most 30 seconds in the future.
  pub validate_pyth_price-IsFresh :
      (feed : PythPriceData) (now stale_after max_bps : ℕ) (r : PriceWithTimestamp)
      → validate_pyth_price f feed now stale_after max_bps ≡ ok r
      → IsFresh feed now stale_after r
  unfolding validate_pyth_price
  validate_pyth_price-IsFresh feed now stale_after max_bps r e =
      let E = PythPriceError F in
      let s1 = >>=-eq-ok {E = E} (normalize_pyth_price feed.price feed.expo) _ r e in
      let s2 = >>=-eq-ok {E = E} (known_time feed.publish_time) _ r s1.2 in
      let t = s2.0 in
      let s3 =
        >>=-eq-ok {E = E}
          (ensure (not (ltb max_future_skew_seconds (t - now))) (invalid_publish_time (pos t))) _ r
          s2.2 in
      let s4 =
        >>=-eq-ok {E = E}
          (ensure (not (ltb stale_after (now - t))) (stale_price (now - t) stale_after)) _ r s3.2 in
      let s5 =
        >>=-eq-ok {E = E}
          (ensure (not (leb_ℤ s1.0 (pos 0))) (price_parse_error "price must be greater than zero"))
          _ r s4.2 in
      let s6 = >>=-eq-ok {E = E} (check_confidence f feed.conf feed.expo s1.0 max_bps) _ r s5.2 in
      let scaled = normalize_pyth_price-Scaled feed.price feed.expo s1.0 s1.1 in
      let skew = ensure-eq-ok {E = E} _ _ s3.0 s3.1 in
      let age = ensure-eq-ok {E = E} _ _ s4.0 s4.1 in
      let positive = ensure-eq-ok {E = E} _ _ s5.0 s5.1 in
      transfer_ok (IsFresh feed now stale_after) s6.2 (
        checked-IsPrice (scaled.0.0 *ℤ pos (10 ^ pos_part (pos 30 +ℤ feed.expo))) s1.0 scaled.0.2
            (ground arith),
        (scaled.0.0, scaled.0.1, checked-eq _ s1.0 scaled.0.2),
        scaled.1,
        scaled.2,
        known_time-eq feed.publish_time t s2.1,
        ground arith,
        ground arith,
      )
