-- ===== src/Config/Feed.antt =====
-- config.rs, `parse_price_feed_config`: the checks of the tokens that the oracle makes on top of those
-- of Config.Tokens. The source's second arm for "fixed", which stands inside the first one's block, is
-- left out: where the block is closed, the first arm takes every fixed source.
pub mod Valid
pub mod Keys
pub mod Sources
use so4_oracle.Prelude.{
  ℕ, ◌==◌, leb, not, Bool, true, false, ◌&&◌, ◌||◌, Option, none, some, List, [], ◌∷◌, String,
  str_eq, is_empty, length, if◌then◌else◌,
}
use so4_oracle.Prelude.Result.{Result, ok, err, ◌>>=◌, ◌>>◌, ensure, map_err}
use so4_oracle.Prelude.Text.{concat, show_nat}
use so4_oracle.Sources.Token.{TokenConfig}
use so4_oracle.Sources.Fixed
use so4_oracle.Sources.Fixed.{configured_price}
use so4_oracle.Config.{ConfigError, is_unset}
use so4_oracle.Config.Tokens.{invalid, unsupported_reason, parse_token_configs}

abbrev is_blank_setting : Option String → Bool
is_blank_setting none = true
is_blank_setting (some s) = str_eq s ""

abbrev check_fixed : TokenConfig → Result ConfigError (Unit {0})
check_fixed token = elim (configured_price token) [
  | ok price ↦ ok tt
  | err e ↦ err (invalid token (Fixed.display e))
]

-- One round of `for source in &token.sources`.
unfoldable pub check_setting : TokenConfig → String → Result ConfigError (Unit {0})
check_setting token source =
    if str_eq source ""
    then err (invalid token "source names must not be empty strings")
    else if str_eq source "binance"
    then ensure (not (is_unset token.binance_symbol))
        (invalid token "binance_symbol is required for binance source")
    else if str_eq source "coinbase"
    then ensure (not (is_unset token.coinbase_symbol))
        (invalid token "coinbase_symbol is required for coinbase source")
    else if str_eq source "pyth"
    then ensure (not (is_blank_setting token.pyth_feed_id))
        (invalid token "pyth_feed_id is required for pyth source")
    else if str_eq source "fixed"
    then check_fixed token
    else err (invalid token (unsupported_reason source))

unfoldable pub check_settings : TokenConfig → List String → Result ConfigError (Unit {0})
check_settings token [] = ok tt
check_settings token (source ∷ rest) = do check_setting token source; check_settings token rest

-- `is_contract` is `stellar_strkey::Contract::from_string(..).is_ok()`.
unfoldable pub check_feed_token :
    (is_contract : String → Bool) → TokenConfig → Result ConfigError (Unit {0})
check_feed_token is_contract token = do
  ensure (not (str_eq token.stellar_address "")) (invalid token "stellar_address must not be empty")
  ensure (is_contract token.stellar_address) (
      invalid token (
        concat (
          "stellar_address '" ∷ token.stellar_address ∷ "' is not a valid contract strkey (C…)"
          ∷ [])))
  ensure (not (is_empty token.sources)) (invalid token "sources list must not be empty")
  check_settings token token.sources
  ensure (not (token.min_sources == 0)) (invalid token "min_sources must be greater than zero")
  ensure (leb token.min_sources (length token.sources)) (
      invalid token (
        concat (
          "min_sources ("
          ∷ show_nat token.min_sources
          ∷ ") exceeds number of configured sources ("
          ∷ show_nat (length token.sources)
          ∷ ")"
          ∷ [])))

unfoldable pub check_feed_tokens :
    (is_contract : String → Bool) → List TokenConfig → Result ConfigError (Unit {0})
check_feed_tokens is_contract [] = ok tt
check_feed_tokens is_contract (token ∷ rest) = do
  check_feed_token is_contract token
  check_feed_tokens is_contract rest

unfoldable pub parse_price_feed_config :
    (from_json : String → Result String (List TokenConfig))
    → (to_lowercase : String → String) → (is_contract : String → Bool) → String
    → Result ConfigError (List TokenConfig)
parse_price_feed_config from_json to_lowercase is_contract raw = do
  tokens ← parse_token_configs from_json to_lowercase raw
  check_feed_tokens is_contract tokens
  ok tokens

-- `default_config` is the text of config/tokens.json, which is built in.
unfoldable pub load_price_feed_config :
    (from_json : String → Result String (List TokenConfig))
    → (to_lowercase : String → String) → (is_contract : String → Bool) → (default_config : String)
    → Option String
    → Result ConfigError (List TokenConfig)
load_price_feed_config from_json to_lowercase is_contract default_config none =
    parse_price_feed_config from_json to_lowercase is_contract default_config
load_price_feed_config from_json to_lowercase is_contract default_config (some raw) =
    parse_price_feed_config from_json to_lowercase is_contract raw
