-- ===== src/Config/Tokens.antt =====
-- shared/config/src/lib.rs, `parse_token_configs`: the checks of the tokens that do not depend on the
-- oracle. `serde_json` with the struct's defaults is a parameter.
pub mod Ranges
use Prim.Native.Char.{Char, code}
use so4_oracle.Prelude.{
  ℕ, ◌==◌, leb, ltb, not, Bool, true, false, ◌&&◌, ◌||◌, Option, none, some, List, [], ◌∷◌, String,
  str_eq, is_empty, length, if◌then◌else◌,
}
use so4_oracle.Prelude.Result.{Result, ok, err, ◌>>=◌, ◌>>◌, ensure, map_err}
use so4_oracle.Prelude.Text.{concat, show_nat, all_chars, is_ascii_alphanumeric}
use so4_oracle.Sources.Token.{TokenConfig}
use so4_oracle.Config.{
  ConfigError, malformed_json, empty_token_list, invalid_token, has, collect_set,
}

-- The five sets of the loop.
pub record Seen : Type 0 where
  pub symbols : List String
  pub stellar_addresses : List String
  pub pyth_feed_ids : List String
  pub binance_symbols : List String
  pub coinbase_symbols : List String

abbrev pub none_seen : Seen
none_seen = record {
  symbols = [];
  stellar_addresses = [];
  pyth_feed_ids = [];
  binance_symbols = [];
  coinbase_symbols = [];
}

abbrev pub invalid : TokenConfig → String → ConfigError
invalid token reason = invalid_token token.symbol reason

-- `if !set.insert(value) { return Err(..) }`
abbrev pub insert_new : String → List String → ConfigError → Result ConfigError (List String)
insert_new value set e = if has value set then err e else ok (value ∷ set)

abbrev pub insert_unless_empty :
    String → String → List String → ConfigError → Result ConfigError (List String)
insert_unless_empty s value set e = if str_eq s "" then ok set else insert_new value set e

-- A setting that is there and not empty is new.
abbrev pub insert_setting :
    TokenConfig → String → Option String → List String → Result ConfigError (List String)
insert_setting token name none set = ok set
insert_setting token name (some value) set =
    insert_unless_empty value value set
      (invalid token (concat ("duplicate " ∷ name ∷ " '" ∷ value ∷ "' across tokens" ∷ [])))

-- What must not stand twice in the list of tokens.
unfoldable pub check_names :
    (to_lowercase : String → String) → Seen → TokenConfig → Result ConfigError Seen
check_names to_lowercase seen token = do
  ensure (not (str_eq token.symbol "")) (invalid_token "(empty)" "symbol must not be empty")
  symbols ←
      insert_new (to_lowercase token.symbol) seen.symbols
        (invalid token "duplicate symbol (case-insensitive)")
  stellar_addresses ←
      insert_unless_empty token.stellar_address (to_lowercase token.stellar_address)
        seen.stellar_addresses (invalid token "duplicate stellar_address (case-insensitive)")
  pyth_feed_ids ← insert_setting token "pyth_feed_id" token.pyth_feed_id seen.pyth_feed_ids
  binance_symbols ← insert_setting token "binance_symbol" token.binance_symbol seen.binance_symbols
  coinbase_symbols ←
      insert_setting token "coinbase_symbol" token.coinbase_symbol seen.coinbase_symbols
  ok (record {
    symbols = symbols;
    stellar_addresses = stellar_addresses;
    pyth_feed_ids = pyth_feed_ids;
    binance_symbols = binance_symbols;
    coinbase_symbols = coinbase_symbols;
  })

abbrev is_symbol_char : Char → Bool
is_symbol_char c = is_ascii_alphanumeric c || code c == b'_' || code c == b'-'

abbrev is_symbol : Option String → Bool
is_symbol none = true
is_symbol (some s) = not (str_eq s "" || not (all_chars is_symbol_char s))

abbrev shown : Option String → String
shown none = ""
shown (some s) = s

abbrev symbol_reason : String → Option String → String
symbol_reason name setting = concat (
    "invalid "
    ∷ name
    ∷ " '"
    ∷ shown setting
    ∷ "': must contain only alphanumeric characters, dashes, or underscores"
    ∷ [])

abbrev pub unsupported_reason : String → String
unsupported_reason source = concat ("unsupported source '" ∷ source ∷ "'" ∷ [])

-- One round of `for source in &token.sources`.
unfoldable pub check_source : TokenConfig → String → Result ConfigError (Unit {0})
check_source token source =
    if str_eq source "binance"
    then ensure (is_symbol token.binance_symbol)
        (invalid token (symbol_reason "binance_symbol" token.binance_symbol))
    else if str_eq source "coinbase"
    then ensure (is_symbol token.coinbase_symbol)
        (invalid token (symbol_reason "coinbase_symbol" token.coinbase_symbol))
    else if str_eq source "pyth" || str_eq source "fixed"
    then ok tt
    else err (invalid token (unsupported_reason source))

unfoldable pub check_sources : TokenConfig → List String → Result ConfigError (Unit {0})
check_sources token [] = ok tt
check_sources token (source ∷ rest) = do check_source token source; check_sources token rest

abbrev between : String → ℕ → String → String
between name n range = concat (name ∷ " (" ∷ show_nat n ∷ ") must be between " ∷ range ∷ [])

unfoldable pub check_ranges : TokenConfig → Result ConfigError (Unit {0})
check_ranges token = do
  ensure (not (token.max_deviation_bps == 0 || ltb 10_000 token.max_deviation_bps))
      (invalid token (between "max_deviation_bps" token.max_deviation_bps "1 and 10000"))
  ensure (not (token.stale_after_seconds == 0))
      (invalid token "stale_after_seconds must be greater than 0")
  ensure (not (ltb 10_000 token.submit_threshold_bps))
      (invalid token (between "submit_threshold_bps" token.submit_threshold_bps "0 and 10000"))
  ensure (not (token.min_sources == 0)) (invalid token "min_sources must be at least 1")
  ensure (not (ltb 10_000 token.pyth_max_confidence_bps)) (
      invalid token (between "pyth_max_confidence_bps" token.pyth_max_confidence_bps "0 and 10000"))

-- A source that stands twice would be counted twice.
abbrev pub has_distinct_sources : TokenConfig → Bool
has_distinct_sources token = length (collect_set token.sources) == length token.sources

unfoldable pub check_token :
    (to_lowercase : String → String) → Seen → TokenConfig → Result ConfigError Seen
check_token to_lowercase seen token = do
  seen' ← check_names to_lowercase seen token
  ensure (has_distinct_sources token) (invalid token "sources list contains duplicate entries")
  check_sources token token.sources
  check_ranges token
  ok seen'

-- `for token in &tokens`
unfoldable pub check_tokens :
    (to_lowercase : String → String) → Seen → List TokenConfig → Result ConfigError (Unit {0})
check_tokens to_lowercase seen [] = ok tt
check_tokens to_lowercase seen (token ∷ rest) = do
  seen' ← check_token to_lowercase seen token
  check_tokens to_lowercase seen' rest

unfoldable pub parse_token_configs :
    (from_json : String → Result String (List TokenConfig))
    → (to_lowercase : String → String) → String
    → Result ConfigError (List TokenConfig)
parse_token_configs from_json to_lowercase raw = do
  tokens ← map_err malformed_json (from_json raw)
  ensure (not (is_empty tokens)) empty_token_list
  check_tokens to_lowercase none_seen tokens
  ok tokens
