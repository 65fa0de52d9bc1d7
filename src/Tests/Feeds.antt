-- ===== src/Tests/Feeds.antt =====
-- The theorems on the price sources and on the cycle of the price loop. The clock is the world, and
-- every request takes a second.
use so4_oracle.Prelude.{ℕ, ◌+◌, ◌*◌, ◌^◌, ◌≡◌, refl, true, false, none, some, List, [], ◌∷◌}
use so4_oracle.Prelude.Int.{
  ℤ, pos, negsuc, fits_i128, checked, ◌*ℤ◌, ◌+ℤ◌, ◌-ℤ◌, ◌/ℤ◌, abs, saturate,
}
use so4_oracle.Prelude.Number.{parse_i128}
use so4_oracle.Prelude.Result.{ok}
use so4_oracle.Prelude.Text.{trim, is_ascii_digit}
use so4_oracle.Keeper.Item.View.{is_some}
use so4_oracle.Retry.{retry_with_backoff, retry_rounds}
use so4_oracle.Rpc.{rpc_post, take_result, parse_latest_ledger_response, get_latest_ledger_sequence}
use so4_oracle.Signing.{Signer}
use so4_oracle.State.{Loop}
use so4_oracle.Prices.{deviation_bps, cluster_tolerance_bps}
use so4_oracle.Prices.Sort.{sort, sort_by, sort_entries, insert}
use so4_oracle.Prices.Median.{
  compute_median_allow_single, compute_confidence_interval_with_spread, middle, widen, spread_of,
}
use so4_oracle.Prices.Cluster.{
  find_largest_consistent_cluster, largest_window, slide_all, slide, narrow,
}
use so4_oracle.Prices.Outliers.{filter_outliers, filter_pair, measure, partition, is_outlier}
use so4_oracle.Prices.Aggregate.{aggregate_prices, select_sources}
use so4_oracle.Sources.Fixed
use so4_oracle.Sources.Token.{TokenConfig}
use so4_oracle.Sources.Web.{Web, PythPriceData, single, array}
use so4_oracle.Sources.Pyth.{
  PriceWithTimestamp, validate_pyth_price, normalize_pyth_price, check_confidence,
  fetch_pyth_prices,
}
use so4_oracle.Sources.Pyth.Fresh.{IsFresh, validate_pyth_price-IsFresh}
use so4_oracle.PriceLoop.Source
use so4_oracle.PriceLoop.Source.{Batches, fetch_source_price, fetch_source_with_retry}
use so4_oracle.PriceLoop.Source.Positive.{Good, fetch_source_with_retry-Good}
use so4_oracle.PriceLoop.Build.{PriceConfig, build_cached_price, collect_sources, observe}
use so4_oracle.PriceLoop.Cycle.{
  Tally, fetch_ledger_seq, fetch_tokens, fetch_binance_batch, asked_for, build_all,
  execute_price_cycle,
}
use so4_oracle.Tests.Fixtures.{replied, start, force}
use so4_oracle.Tests.PriceBands.{fixed}

abbrev pub web : Web ℕ ℤ
web = record {
  http_get = λ url query bearer w. (ok (200, "12.5"), w + 1);
  now = λ w. w;
  wall = λ w. w * 10 ^ 9;
  pause = λ d w. w;
  http_post = λ payload w. (ok (200, payload), w + 1);
  ledger_request = ok "getLatestLedger";
  decode_latest_ledger = λ body. replied 77;
  decode_ticker = λ body. ok (single (record { symbol = "BTCUSDT"; price = body }));
  decode_rates = λ body. ok (record { currency = "BTC"; rates = ("USD", body) ∷ [] });
  decode_feeds = λ body. ok (array []);
  json_strings = λ ss. "[]";
  debug_binance = λ e. "";
  show_bps = λ x. "";
  to_uppercase = λ s. s;
  to_lowercase = λ s. s;
}

abbrev token : TokenConfig
token = record {
  symbol = "TBTC";
  display_symbol = none;
  stellar_address = "CBTC";
  sources = "fixed" ∷ "moon" ∷ [];
  binance_symbol = some "BTCUSDT";
  coinbase_symbol = some "BTC";
  pyth_feed_id = none;
  fixed_price = some "1000";
  min_sources = 1;
  max_deviation_bps = 500;
  stale_after_seconds = 60;
  submit_threshold_bps = 10;
  pyth_max_confidence_bps = 50;
}

abbrev pub no_batches : Batches
no_batches = record { pyth_prices = []; pyth_batch_failed = false; binance_prices = none }

fetch_source_with_retry-Good_example :
    Good (fetch_source_with_retry fixed web none "https://coinbase" no_batches "coinbase" token 5).0
fetch_source_with_retry-Good_example =
    fetch_source_with_retry-Good fixed web none "https://coinbase" no_batches "coinbase" token 5 tt

abbrev feed : PythPriceData
feed = record { price = "1250"; conf = none; expo = negsuc 1; publish_time = some (pos 990) }

abbrev read : PriceWithTimestamp
read = record { price = pos (1250 * 10 ^ 28); observation_time = 990 }

accepted : validate_pyth_price fixed feed 1_000 60 50 ≡ ok read
unfolding validate_pyth_price normalize_pyth_price parse_i128 trim is_ascii_digit checked fits_i128
    ◌*ℤ◌ ◌+ℤ◌ check_confidence
accepted = refl

validate_pyth_price-IsFresh_example : IsFresh feed 1_000 60 read
validate_pyth_price-IsFresh_example =
    validate_pyth_price-IsFresh fixed feed 1_000 60 50 read accepted

-- A key is its bytes, and a signature is the key and the message.
abbrev signer : Signer (List ℕ)
signer = record {
  hex_decode = λ s. none;
  from_bytes = λ bytes. bytes;
  sign = λ key message. message;
  hex_encode = λ bytes. "00";
}

abbrev config : PriceConfig (List ℕ)
config = record {
  tokens = token ∷ [];
  binance_base_url = "https://binance";
  coinbase_base_url = "https://coinbase";
  pyth_api_key = none;
  network = "testnet";
  network_passphrase = "Test";
  keeper_index = 1;
  keeper_private_key = "";
  price_signing_key = some (1 ∷ []);
}

abbrev begun : Loop ℕ
begun = record { app = start.app; world = 1_000 }

ends : is_some (execute_price_cycle fixed web signer config begun) ≡ true
unfolding execute_price_cycle fetch_ledger_seq retry_with_backoff retry_rounds
    get_latest_ledger_sequence rpc_post parse_latest_ledger_response take_result fetch_tokens
    fetch_binance_batch asked_for build_all build_cached_price collect_sources observe
    fetch_source_with_retry fetch_source_price fetch_pyth_prices Source.is_retryable
    aggregate_prices Fixed.configured_price parse_i128 is_ascii_digit checked fits_i128
    find_largest_consistent_cluster largest_window slide_all sort_entries mathlib.Core.List.zip
    slide narrow ◌*ℤ◌ cluster_tolerance_bps deviation_bps ◌/ℤ◌ abs ◌-ℤ◌ filter_outliers filter_pair
    mathlib.Core.List.zip_with saturate ◌+ℤ◌ select_sources compute_confidence_interval_with_spread
    compute_median_allow_single middle spread_of widen sort sort_by insert measure partition
    is_outlier
ends = refl

abbrev ran : Tally × Loop ℕ
ran = force (execute_price_cycle fixed web signer config begun) ends
