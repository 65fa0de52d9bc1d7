-- ===== src/PriceLoop/Build/Signed.antt =====
-- price_loop.rs: what a price that was built says, and which part of the state its making leaves alone.
use so4_oracle.Prelude.{
  ℕ, ◌≤◌, ◌≡◌, refl, ap, ◌∙◌, Option, none, some, Option-cases, inl, inr, List, [], ◌∷◌, String,
  length, arith, transfer,
}
use so4_oracle.Prices.Aggregate.Given.{IsAmong}
use so4_oracle.Prelude.Int.{ℤ}
use so4_oracle.Prelude.Result.{Result, ok, err, >>=-eq-ok, Result-cases, transfer_ok}
use so4_oracle.Float.{Float}
use so4_oracle.Signing.{
  Signer, signing_key_from_hex, sign_price, sign_price_with_key, build_price_message,
}
use so4_oracle.State.{Loop, CachedPrice, PriceCache}
use so4_oracle.Prices.Median.{compute_median_allow_single, compute_confidence_interval_with_spread}
use so4_oracle.Prices.Aggregate.{AggregatedPrice, RejectedSource, aggregate_prices}
use so4_oracle.Prices.Aggregate.Quorum.{Rests, aggregate_prices-Rests}
use so4_oracle.Sources.Token.{TokenConfig}
use so4_oracle.Sources.Web.{Web}
use so4_oracle.PriceLoop.Source.{
  PriceSourceError, PriceWithObservationTime, Batches, fetch_source_with_retry,
}
use so4_oracle.PriceLoop.Build.{
  PriceConfig, Observations, no_observations, observe, record_error_with_context, collect_sources,
  record_rejections, signature_of, signed_cached_price, build_cached_price,
}
use so4_oracle.PriceLoop.Build.Answers.{Answers, collect_sources-Collected}

abbrev pub usable : {E A : Type 0} → Result E A → Option A
usable (ok a) = some a
usable (err e) = none

-- The key that signs: the one decoded at the start, or else the text's.
abbrev pub signing_key : {K : Type 0} → Signer K → PriceConfig K → Option K
signing_key signer cfg = elim cfg.price_signing_key [
  | some key ↦ some key
  | none ↦ usable (signing_key_from_hex signer cfg.keeper_private_key)
]

-- A signature by that key, over exactly the fields of the price.
abbrev pub IsSigned : {K : Type 0} → Signer K → PriceConfig K → CachedPrice → Type 0
IsSigned {K} signer cfg p =
    (key : K) × (signing_key signer cfg ≡ some key)
    × (p.signature
        ≡ signer.hex_encode (
            signer.sign key (
              build_price_message cfg.network_passphrase p.ledger_seq p.token_address p.min_price
                p.max_price p.timestamp)))

module _ {K W F : Type 0} (f : Float F) (web : Web W F) (signer : Signer K)
    (cfg : PriceConfig K) where
  -- The median and the interval of prices of at least `min_sources` sources, which the token's sources
  -- answered when each was asked once.
  abbrev pub HasQuorum : TokenConfig → CachedPrice → Type 0
  HasQuorum token p =
      (answered : List String) × (prices : List ℤ) × (used : List ℤ) × Answers f web signer cfg
        token token.sources answered prices
      × IsAmong p.sources_used used answered prices
      × (token.min_sources ≤ length used)
      × (length used ≡ length p.sources_used)
      × (compute_median_allow_single used ≡ some (some p.median))
      × (compute_confidence_interval_with_spread f used token.max_deviation_bps
          ≡ some (some (record { min_price = p.min_price; max_price = p.max_price })))

  -- What a price in the cache says of its token.
  abbrev pub IsQuote : TokenConfig → CachedPrice → Type 0
  IsQuote token p =
      (p.token_address ≡ token.stellar_address) × IsSigned signer cfg p × HasQuorum token p

  signature_of-key :
      (token : TokenConfig) (seq : ℕ) (a : AggregatedPrice F) (sig : List ℕ)
      → signature_of f web signer cfg token seq a ≡ ok sig
      → (key : K) × (signing_key signer cfg ≡ some key)
        × (sig
            ≡ signer.sign key (
                build_price_message cfg.network_passphrase seq token.stellar_address a.min_price
                  a.max_price a.min_observation_time))
  unfolding signature_of sign_price sign_price_with_key
  signature_of-key token seq a sig e = elim (Option-cases cfg.price_signing_key) [
    | inr (key, q) ↦ (key, ground arith, ground arith)
    | inl q ↦ elim (Result-cases (signing_key_from_hex signer cfg.keeper_private_key)) [
      | inl (key, r) ↦ (key, ground arith, ground arith)
      | inr (x, r) ↦ absurd (ground arith)
    ]
  ]

  signed_cached_price-IsQuote :
      (token : TokenConfig) (seq : ℕ) (a : AggregatedPrice F) (p : CachedPrice)
      (answered : List String) (prices : List ℤ)
      → Answers f web signer cfg token token.sources answered prices
      → (used : List ℤ) × Rests f prices answered token.min_sources token.max_deviation_bps a used
      → signed_cached_price f web signer cfg token seq a ≡ ok p
      → IsQuote token p
  unfolding signed_cached_price
  signed_cached_price-IsQuote token seq a p answered prices asked rests e =
      let s = >>=-eq-ok (signature_of f web signer cfg token seq a) _ p e in
      let k = signature_of-key token seq a s.0 s.1 in
      transfer_ok (IsQuote token) s.2 (
        refl,
        (k.0, k.1, ap signer.hex_encode k.2),
        (answered, prices, rests.0, asked, rests.1.0, rests.1.1, rests.1.2, rests.1.3, rests.1.4),
      )

  -- What building one token's price reads and leaves alone.
  abbrev cache_of : Loop W → PriceCache
  cache_of s = s.app.price_cache

  observe-cache :
      (token : TokenConfig) (seq : ℕ) (source : String)
      (answer : Result (PriceSourceError F) PriceWithObservationTime) (obs : Observations)
      (s : Loop W)
      → cache_of (observe f web signer cfg token seq source answer obs s).1 ≡ cache_of s
  unfolding observe record_error_with_context
  observe-cache token seq source (ok p) obs s = refl
  observe-cache token seq source (err x) obs s = refl

  collect_sources-cache :
      (token : TokenConfig) (seq : ℕ) (batches : Batches) (sources : List String)
      (obs : Observations) (s : Loop W)
      → cache_of (collect_sources f web signer cfg token seq batches sources obs s).1 ≡ cache_of s
  unfolding collect_sources
  collect_sources-cache token seq batches [] obs s = refl
  collect_sources-cache token seq batches (source ∷ rest) obs s =
      let answer =
        fetch_source_with_retry f web cfg.pyth_api_key cfg.coinbase_base_url batches source token
          s.world in
      let next =
        observe f web signer cfg token seq source answer.0 obs (record s { world = answer.1 }) in
      collect_sources-cache token seq batches rest next.0 next.1
      ∙ observe-cache token seq source answer.0 obs (record s { world = answer.1 })

  record_rejections-cache :
      (token : TokenConfig) (rs : List (RejectedSource F)) (s : Loop W)
      → cache_of (record_rejections f web signer cfg token rs s) ≡ cache_of s
  unfolding record_rejections
  record_rejections-cache token [] s = refl
  record_rejections-cache token (r ∷ rest) s = record_rejections-cache token rest _

  -- What a token's turn leaves: the cache as it was, and a quote where the result is a price.
  abbrev pub Turn : TokenConfig → Loop W → Result String CachedPrice × Loop W → Type 0
  Turn token s r = (cache_of r.1 ≡ cache_of s) × ((p : CachedPrice) → r.0 ≡ ok p → IsQuote token p)

  pub build_cached_price-Turn :
      (token : TokenConfig) (seq : ℕ) (batches : Batches) (s : Loop W)
      (r : Result String CachedPrice × Loop W)
      → build_cached_price f web signer cfg token seq batches s ≡ some r
      → Turn token s r
  unfolding build_cached_price
  build_cached_price-Turn token seq batches s r e =
      let c = collect_sources f web signer cfg token seq batches token.sources no_observations s in
      let obs = c.0 in
      let given =
        collect_sources-Collected f web signer cfg token seq batches token.sources no_observations
          s in
      let kept = collect_sources-cache token seq batches token.sources no_observations s in
      let found =
        aggregate_prices f obs.prices obs.sources obs.observation_times token.min_sources
          token.max_deviation_bps in
      elim (Option-cases found) [
        | inl q ↦ absurd (ground arith)
        | inr (x, q) ↦ elim (Result-cases x) [
          | inr (m, u) ↦
              transfer (Turn token s) (rw (q, u, build_cached_price) at e)
                (kept, λ p h. absurd (ground arith))
          | inl (a, u) ↦
              let rests =
                aggregate_prices-Rests f obs.prices obs.sources obs.observation_times
                  token.min_sources token.max_deviation_bps a (rw (u) at q) in
              transfer (Turn token s) (rw (q, u, build_cached_price) at e) (
                record_rejections-cache token a.rejected_sources c.1 ∙ kept,
                λ p h.
                    signed_cached_price-IsQuote token seq a p obs.sources obs.prices
                      (rw (given.3, given.4) given.2) rests h,
              )
        ]
      ]
