-- ===== src/Config/Feed/Keys.antt =====
-- config.rs: the tokens of an accepted configuration have different keys in the price cache.
use so4_oracle.Prelude.{
  ◌≡◌, refl, false, arith, Bool, String, List, [], ◌∷◌, All, All-map, str_eq, Bool-cases, inl, inr,
  ap, sym, ◌∙◌, subst, not, is_empty,
}
use so4_oracle.Prelude.Result.{
  Result, ok, map_err, >>=-eq-ok, transfer_ok, ensure_passed, step_passed,
}
use so4_oracle.Sources.Token.{TokenConfig, lookup_key}
use so4_oracle.Config.{ConfigError, has}
use so4_oracle.Config.Tokens.{
  Seen, none_seen, insert_new, insert_unless_empty, insert_setting, check_names, check_token,
  check_tokens, parse_token_configs, has_distinct_sources, check_sources, check_ranges,
}
use so4_oracle.Config.Feed.{check_feed_tokens, parse_price_feed_config}
use so4_oracle.Config.Feed.Valid.{IsValid, parse_price_feed_config-IsValid}

module _ (lower : String → String) where
  -- No key stands in `seen`, nor with an earlier token.
  abbrev pub AreNew : List String → List TokenConfig → Type 0
  AreNew seen [] = Unit
  AreNew seen (token ∷ rest) =
      (has (lookup_key lower token) seen ≡ false) × AreNew (lookup_key lower token ∷ seen) rest

  abbrev HasAddress : TokenConfig → Type 0
  HasAddress token = str_eq token.stellar_address "" ≡ false

  insert_new-eq-ok :
      (value : String) (set set' : List String) (e : ConfigError)
      → insert_new value set e ≡ ok set'
      → (has value set ≡ false) × (set' ≡ value ∷ set)
  insert_new-eq-ok value set set' e h = elim (Bool-cases (has value set)) [
    | inl old ↦ absurd (ground arith)
    | inr new ↦ (new, transfer_ok (λ s. s ≡ value ∷ set) (rw new at h) refl)
  ]

  check_names-addresses :
      (seen : Seen) (token : TokenConfig) (seen' : Seen)
      → HasAddress token
      → check_names lower seen token ≡ ok seen'
      → (has (lookup_key lower token) seen.stellar_addresses ≡ false)
        × (seen'.stellar_addresses ≡ lookup_key lower token ∷ seen.stellar_addresses)
  unfolding check_names lookup_key
  check_names-addresses seen token seen' a h =
      let s1 = ensure_passed {b = not (str_eq token.symbol "")} _ h in
      let s2 = >>=-eq-ok (insert_new (lower token.symbol) seen.symbols _) _ seen' s1.1 in
      let address = token.stellar_address in
      let s3 =
        >>=-eq-ok (insert_unless_empty address (lower address) seen.stellar_addresses _) _ seen'
          s2.2 in
      let s4 =
        >>=-eq-ok (insert_setting token _ token.pyth_feed_id seen.pyth_feed_ids) _ seen' s3.2 in
      let s5 =
        >>=-eq-ok (insert_setting token _ token.binance_symbol seen.binance_symbols) _ seen' s4.2 in
      let s6 =
        >>=-eq-ok (insert_setting token _ token.coinbase_symbol seen.coinbase_symbols) _ seen'
          s5.2 in
      let new =
        insert_new-eq-ok (lower address) seen.stellar_addresses s3.0 _
          (rw (a, insert_unless_empty) at s3.1) in
      rw a (
        new.0,
        transfer_ok (λ (s : Seen). s.stellar_addresses ≡ lower address ∷ seen.stellar_addresses)
            s6.2 new.1,
      )

  check_tokens-AreNew :
      (seen : Seen) (tokens : List TokenConfig)
      → All HasAddress tokens
      → check_tokens lower seen tokens ≡ ok tt
      → AreNew seen.stellar_addresses tokens
  unfolding check_tokens check_token
  check_tokens-AreNew seen [] a h = tt
  check_tokens-AreNew seen (t ∷ rest) a h =
      let first = >>=-eq-ok (check_token lower seen t) _ tt h in
      let names = >>=-eq-ok (check_names lower seen t) _ first.0 first.1 in
      let kept = ensure_passed {b = has_distinct_sources t} _ names.2 in
      let last =
        step_passed {c = check_ranges t} (step_passed {c = check_sources t t.sources} kept.1).1 in
      let new = check_names-addresses seen t names.0 a.0 names.1 in
      let same : names.0 ≡ first.0 = transfer_ok (λ s. names.0 ≡ s) last.1 refl in
      (
        new.0,
        subst (λ s. AreNew s rest) (ap (λ (s : Seen). s.stellar_addresses) (sym same) ∙ new.1)
            (check_tokens-AreNew first.0 rest a.1 first.2),
      )

-- The tokens of an accepted configuration have pairwise different keys in the price cache, so that no
-- token's price takes the place of another's.
pub parse_price_feed_config-AreNew :
    (from_json : String → Result String (List TokenConfig)) (to_lowercase : String → String)
    (is_contract : String → Bool) (raw : String) (tokens : List TokenConfig)
    → parse_price_feed_config from_json to_lowercase is_contract raw ≡ ok tokens
    → AreNew to_lowercase [] tokens
unfolding parse_price_feed_config parse_token_configs
parse_price_feed_config-AreNew from_json to_lowercase is_contract raw tokens h =
    let s1 = >>=-eq-ok (parse_token_configs from_json to_lowercase raw) _ tokens h in
    let valid = parse_price_feed_config-IsValid from_json to_lowercase is_contract raw tokens h in
    let t1 = >>=-eq-ok (map_err _ (from_json raw)) _ s1.0 s1.1 in
    let t2 = ensure_passed {b = not (is_empty t1.0)} _ t1.2 in
    let t3 = step_passed {c = check_tokens to_lowercase none_seen t1.0} t2.1 in
    let s2 = step_passed {c = check_feed_tokens is_contract s1.0} s1.2 in
    let same = transfer_ok (λ ts. t1.0 ≡ ts) s2.1 (transfer_ok (λ ts. t1.0 ≡ ts) t3.1 refl) in
    check_tokens-AreNew to_lowercase none_seen tokens
      (All-map (λ t (v : IsValid is_contract t). v.address) tokens valid)
      (subst (λ ts. check_tokens to_lowercase none_seen ts ≡ ok tt) same t3.0)
