-- ===== src/Config/Feed/Valid.antt =====
-- config.rs: what every token of an accepted configuration satisfies.
use so4_oracle.Prelude.{
  ◌≤◌, ◌≡◌, true, false, arith, Bool, Bool-cases, inl, inr, some, String, List, [], ◌∷◌, length,
  All, str_eq, str_eq_iff, Option-cases, not, leb→le,
}
use so4_oracle.Prelude.Int.{ℤ}
use so4_oracle.Prelude.Result.{
  Result, ok, map_err, >>=-eq-ok, ensure-eq-ok, ensure_passed, step_passed, transfer_ok,
  Result-cases,
}
use so4_oracle.Sources.Token.{TokenConfig}
use so4_oracle.Sources.Price.{IsPrice}
use so4_oracle.Sources.Fixed.{configured_price}
use so4_oracle.Sources.Fixed.Positive.{configured_price-IsPrice}
use so4_oracle.Config.Tokens.{
  has_distinct_sources, check_names, check_token, check_tokens, none_seen, Seen,
  parse_token_configs,
}
use so4_oracle.Config.Tokens.Ranges.{InRange, check_ranges-InRange}
use so4_oracle.Config.Feed.{
  check_setting, check_settings, check_feed_token, check_feed_tokens, parse_price_feed_config,
}

-- The source is known, and the token has what the source needs.
pub data HasSetting (token : TokenConfig) (source : String) : Type 0 where
  binance :
      (symbol : String)
      → source ≡ "binance"
      → token.binance_symbol ≡ some symbol
      → HasSetting token source
  coinbase :
      (symbol : String)
      → source ≡ "coinbase"
      → token.coinbase_symbol ≡ some symbol
      → HasSetting token source
  pyth : (id : String) → source ≡ "pyth" → token.pyth_feed_id ≡ some id → HasSetting token source
  fixed :
      (price : ℤ)
      → source ≡ "fixed"
      → configured_price token ≡ ok price
      → IsPrice price
      → HasSetting token source

pub record IsValid (is_contract : String → Bool) (token : TokenConfig) : Type 0 where
  pub range : InRange token
  pub address : str_eq token.stellar_address "" ≡ false
  pub contract : is_contract token.stellar_address ≡ true
  pub distinct : has_distinct_sources token ≡ true
  pub settings : All (HasSetting token) token.sources
  pub quorum : token.min_sources ≤ length token.sources

check_setting-HasSetting :
    (token : TokenConfig) (source : String)
    → check_setting token source ≡ ok tt
    → HasSetting token source
unfolding check_setting
check_setting-HasSetting token source h = elim (Bool-cases (str_eq source "binance")) [
  | inl b ↦ elim (Option-cases token.binance_symbol) [
    | inl u ↦ absurd (ground (arith, str_eq_iff source "", str_eq_iff source "binance"))
    | inr (s, u) ↦ binance s ((str_eq_iff source "binance").0 b) u
  ]
  | inr nb ↦ elim (Bool-cases (str_eq source "coinbase")) [
    | inl c ↦ elim (Option-cases token.coinbase_symbol) [
      | inl u ↦ absurd (ground arith)
      | inr (s, u) ↦ coinbase s ((str_eq_iff source "coinbase").0 c) u
    ]
    | inr nc ↦ elim (Bool-cases (str_eq source "pyth")) [
      | inl p ↦ elim (Option-cases token.pyth_feed_id) [
        | inl u ↦ absurd (ground arith)
        | inr (s, u) ↦ pyth s ((str_eq_iff source "pyth").0 p) u
      ]
      | inr np ↦ elim (Bool-cases (str_eq source "fixed")) [
        | inl f ↦ elim (Result-cases (configured_price token)) [
          | inl (price, u) ↦
              fixed price ((str_eq_iff source "fixed").0 f) u
                (configured_price-IsPrice token price u)
          | inr (e, u) ↦ absurd (ground arith)
        ]
        | inr nf ↦ absurd (ground arith)
      ]
    ]
  ]
]

check_settings-HasSetting :
    (token : TokenConfig) (sources : List String)
    → check_settings token sources ≡ ok tt
    → All (HasSetting token) sources
unfolding check_settings
check_settings-HasSetting token [] h = tt
check_settings-HasSetting token (s ∷ rest) h =
    let first = step_passed h in
    (check_setting-HasSetting token s first.0, check_settings-HasSetting token rest first.1)

-- What the checks of the two files leave of a token.
abbrev TokenChecked : TokenConfig → Type 0
TokenChecked token = InRange token × (has_distinct_sources token ≡ true)

check_token-TokenChecked :
    (lower : String → String) (seen : Seen) (token : TokenConfig) (seen' : Seen)
    → check_token lower seen token ≡ ok seen'
    → TokenChecked token
unfolding check_token
check_token-TokenChecked lower seen token seen' h =
    let s1 = >>=-eq-ok (check_names lower seen token) _ seen' h in
    let s2 = ensure_passed _ s1.2 in
    let s3 = step_passed s2.1 in (check_ranges-InRange token (step_passed s3.1).0, s2.0)

check_tokens-TokenChecked :
    (lower : String → String) (seen : Seen) (tokens : List TokenConfig)
    → check_tokens lower seen tokens ≡ ok tt
    → All TokenChecked tokens
unfolding check_tokens
check_tokens-TokenChecked lower seen [] h = tt
check_tokens-TokenChecked lower seen (t ∷ rest) h =
    let first = >>=-eq-ok (check_token lower seen t) _ tt h in
    (
      check_token-TokenChecked lower seen t first.0 first.1,
      check_tokens-TokenChecked lower first.0 rest first.2,
    )

not-true : (b : Bool) → not b ≡ true → b ≡ false
not-true b h = ground arith

module _ (is_contract : String → Bool) where
  check_feed_token-IsValid :
      (token : TokenConfig)
      → TokenChecked token
      → check_feed_token is_contract token ≡ ok tt
      → IsValid is_contract token
  unfolding check_feed_token
  check_feed_token-IsValid token checked h =
      let s1 = ensure_passed _ h in
      let s2 = ensure_passed _ s1.1 in
      let s3 = ensure_passed _ s2.1 in
      let s4 = step_passed s3.1 in
      let s5 = ensure_passed _ s4.1 in
      record {
        range = checked.0;
        address = not-true _ s1.0;
        contract = s2.0;
        distinct = checked.1;
        settings = check_settings-HasSetting token token.sources s4.0;
        quorum = leb→le _ _ (ensure-eq-ok _ _ tt s5.1);
      }

  check_feed_tokens-IsValid :
      (tokens : List TokenConfig)
      → All TokenChecked tokens
      → check_feed_tokens is_contract tokens ≡ ok tt
      → All (IsValid is_contract) tokens
  unfolding check_feed_tokens
  check_feed_tokens-IsValid [] checked h = tt
  check_feed_tokens-IsValid (t ∷ rest) checked h =
      let first = step_passed h in
      (
        check_feed_token-IsValid t checked.0 first.0,
        check_feed_tokens-IsValid rest checked.1 first.1,
      )

-- Every token of an accepted configuration has its settings in range, a contract's address, distinct
-- sources, each of them known and with the setting that it needs, and at least as many sources as its
-- quorum of one or more; a fixed price is positive and fits an `i128`.
pub parse_price_feed_config-IsValid :
    (from_json : String → Result String (List TokenConfig)) (to_lowercase : String → String)
    (is_contract : String → Bool) (raw : String) (tokens : List TokenConfig)
    → parse_price_feed_config from_json to_lowercase is_contract raw ≡ ok tokens
    → All (IsValid is_contract) tokens
unfolding parse_price_feed_config parse_token_configs
parse_price_feed_config-IsValid from_json to_lowercase is_contract raw tokens h =
    let s1 = >>=-eq-ok (parse_token_configs from_json to_lowercase raw) _ tokens h in
    let s2 = step_passed s1.2 in
    let t1 = >>=-eq-ok (map_err _ (from_json raw)) _ s1.0 s1.1 in
    let t3 = step_passed (ensure_passed _ t1.2).1 in
    let checked =
      transfer_ok (All TokenChecked) t3.1
        (check_tokens-TokenChecked to_lowercase none_seen t1.0 t3.0) in
    transfer_ok (All (IsValid is_contract)) s2.1
      (check_feed_tokens-IsValid is_contract s1.0 checked s2.0)
