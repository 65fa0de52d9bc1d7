-- ===== src/Tests/Configs.antt =====
-- Configurations that are accepted.
use so4_oracle.Prelude.Map.{lookup, insert}
use so4_oracle.Prelude.Number.Unsigned.{parse_unsigned, read_below}
use so4_oracle.Prelude.Number.{parse_i128}
use so4_oracle.Sources.Fixed.{configured_price}
use so4_oracle.Prelude.Text.{
  all_chars, is_ascii_alphanumeric, is_ascii_digit, trim, count_chars, len_bytes,
}
use so4_oracle.Config.{collect_set}
use so4_oracle.Config.Tokens.{
  parse_token_configs, check_tokens, check_token, check_names, check_sources, check_source,
  check_ranges,
}
use so4_oracle.Prelude.{
  ℕ, ◌≡◌, refl, Bool, true, false, none, some, List, [], ◌∷◌, String, str_eq, All, if◌then◌else◌,
}
use so4_oracle.Prelude.Int.{checked, fits_i128}
use so4_oracle.Prelude.Result.{Result, ok, err}
use so4_oracle.Sources.Token.{TokenConfig}
use so4_oracle.Config.Feed.{
  parse_price_feed_config, check_feed_tokens, check_feed_token, check_settings, check_setting,
  load_price_feed_config,
}
use so4_oracle.Config.Feed.Valid.{IsValid, parse_price_feed_config-IsValid}
use so4_oracle.Config.Feed.Keys.{AreNew, parse_price_feed_config-AreNew}
use so4_oracle.Config.Feed.Sources.{IsServed, parse_price_feed_config-IsServed}
use so4_oracle.Config.Env.{
  Env, Parsers, required, required_any, parse_or_default, parse_positive, validate_hex_key,
  validate_strkey, find_bad, starts_with, validate_admin_api_token, check_roles,
}
use so4_oracle.Config.Env.Load.{
  from_lookup, settings, flatten, network_of, checked_of, admin_api_token_of, parse_balance,
}
use so4_oracle.Config.Env.Load.Ready.{IsReady, from_lookup-IsReady}
use so4_oracle.Tests.Feeds.{web, no_batches}
use so4_oracle.Tests.PriceBands.{fixed}

abbrev bitcoin : TokenConfig
bitcoin = record {
  symbol = "TBTC";
  display_symbol = some "BTC";
  stellar_address = "CBTC";
  sources = "binance" ∷ "coinbase" ∷ [];
  binance_symbol = some "BTCUSDT";
  coinbase_symbol = some "BTC";
  pyth_feed_id = none;
  fixed_price = none;
  min_sources = 2;
  max_deviation_bps = 500;
  stale_after_seconds = 60;
  submit_threshold_bps = 10;
  pyth_max_confidence_bps = 50;
}

abbrev dollar : TokenConfig
dollar = record {
  symbol = "TUSDC";
  display_symbol = none;
  stellar_address = "CUSDC";
  sources = "fixed" ∷ [];
  binance_symbol = none;
  coinbase_symbol = none;
  pyth_feed_id = none;
  fixed_price = some "1000";
  min_sources = 1;
  max_deviation_bps = 500;
  stale_after_seconds = 60;
  submit_threshold_bps = 10;
  pyth_max_confidence_bps = 50;
}

abbrev two_tokens : List TokenConfig
two_tokens = bitcoin ∷ dollar ∷ []

abbrev read_json : String → Result String (List TokenConfig)
read_json raw = if str_eq raw "" then err "EOF while parsing" else ok two_tokens

abbrev starts_any : String → Bool
starts_any address = true

accepted : parse_price_feed_config read_json (λ s. s) starts_any "[..]" ≡ ok two_tokens
unfolding parse_price_feed_config parse_token_configs check_tokens check_token check_names
    collect_set check_sources check_source all_chars is_ascii_alphanumeric check_ranges
    check_feed_tokens check_feed_token check_settings check_setting configured_price parse_i128
    checked fits_i128 is_ascii_digit trim
accepted = refl

parse_price_feed_config-IsValid_example : All (IsValid starts_any) two_tokens
parse_price_feed_config-IsValid_example =
    parse_price_feed_config-IsValid read_json (λ s. s) starts_any "[..]" two_tokens accepted

parse_price_feed_config-AreNew_example : AreNew (λ s. s) [] two_tokens
parse_price_feed_config-AreNew_example =
    parse_price_feed_config-AreNew read_json (λ s. s) starts_any "[..]" two_tokens accepted

parse_price_feed_config-IsServed_example :
    All
      (λ token. All (IsServed fixed web none "https://coinbase" no_batches 5 token) token.sources)
      two_tokens
parse_price_feed_config-IsServed_example =
    parse_price_feed_config-IsServed fixed web none "https://coinbase" no_batches 5 read_json
      (λ s. s) starts_any "[..]" two_tokens accepted

abbrev thirty_two_bytes : List ℕ
thirty_two_bytes =
    1 ∷ 2 ∷ 3 ∷ 4 ∷ 5 ∷ 6 ∷ 7 ∷ 8 ∷ 1 ∷ 2 ∷ 3 ∷ 4 ∷ 5 ∷ 6 ∷ 7 ∷ 8 ∷ 1 ∷ 2 ∷ 3 ∷ 4 ∷ 5 ∷ 6 ∷ 7 ∷ 8
    ∷ 1 ∷ 2 ∷ 3 ∷ 4 ∷ 5 ∷ 6 ∷ 7 ∷ 8 ∷ []

abbrev parsers : Parsers String ℕ
parsers = record {
  parse_addr = λ s. ok s;
  default_addr = "0.0.0.0:8080";
  parse_f64 = λ s. ok 10;
  default_balance = 10;
  is_finite = λ x. true;
  is_negative = λ x. false;
  show_f64 = λ x. "10";
  hex_decode = λ s. if str_eq s "0102" then ok thirty_two_bytes else err "Odd number of digits";
  from_json = read_json;
  to_lowercase = λ s. s;
  is_contract = starts_any;
  default_tokens = "[..]";
}

abbrev secret : String
secret = "SAAAAAAAAAAAAAAAAAAAAAAAAAAAAAAAAAAAAAAAAAAAAAAAAAAAAAAA"

abbrev account : String
account = "GAAAAAAAAAAAAAAAAAAAAAAAAAAAAAAAAAAAAAAAAAAAAAAAAAAAAAAA"

abbrev environment : Env
environment var =
    if str_eq var "ORACLE"
    then some "C1"
    else if str_eq var "ROLE_STORE"
    then some "C2"
    else if str_eq var "DATA_STORE"
    then some "C3"
    else if str_eq var "ORDER_HANDLER"
    then some "C4"
    else if str_eq var "DEPOSIT_HANDLER"
    then some "C5"
    else if str_eq var "WITHDRAWAL_HANDLER"
    then some "C6"
    else if str_eq var "READER"
    then some "C7"
    else if str_eq var "KEEPER_PRIVATE_KEY"
    then some "0102"
    else if str_eq var "KEEPER_SECRET_KEY"
    then some secret
    else if str_eq var "KEEPER_ACCOUNT_ID"
    then some account
    else if str_eq var "KEEPER_INDEX"
    then some "2"
    else if str_eq var "ADMIN_API_TOKEN"
    then some "0123456789abcdef0123456789abcdef"
    else none

loads : from_lookup parsers environment ≡ ok (settings parsers environment)
unfolding from_lookup flatten network_of parse_or_default required_any load_price_feed_config
    parse_price_feed_config parse_token_configs check_tokens check_token check_names collect_set
    check_sources check_source all_chars is_ascii_alphanumeric check_ranges check_feed_tokens
    check_feed_token check_settings check_setting configured_price parse_i128 checked fits_i128
    is_ascii_digit trim required checked_of validate_hex_key validate_strkey find_bad starts_with
    count_chars len_bytes parse_positive parse_unsigned read_below parse_balance admin_api_token_of
    validate_admin_api_token check_roles settings lookup insert
loads = refl

from_lookup-IsReady_example : IsReady parsers environment (settings parsers environment)
from_lookup-IsReady_example =
    from_lookup-IsReady parsers environment (settings parsers environment) loads
