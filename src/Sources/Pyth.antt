-- ===== src/Sources/Pyth.antt =====
-- pyth.rs: the price feeds of Pyth, their scaling and the tests on their age and confidence.
pub mod Fresh
use so4_oracle.Prelude.{
  ℕ, ◌+◌, ◌-◌, ◌^◌, ◌==◌, ◌&&◌, not, ltb, leb, Bool, true, false, Option, none, some, List, [], ◌∷◌,
  map, String, is_empty, if◌then◌else◌,
}
use so4_oracle.Prelude.Int.{ℤ, pos, negsuc, pos_part, ◌+ℤ◌, ◌*ℤ◌, checked, ltb_ℤ, leb_ℤ}
use so4_oracle.Prelude.Map.{Map, insert}
use so4_oracle.Prelude.Number.{parse_i128}
use so4_oracle.Prelude.Result.{Result, ok, err, ◌>>=◌, ◌>>◌, ensure, ok_or, map_err}
use so4_oracle.Prelude.Text.{concat, show_nat, trim, join}
use so4_oracle.Float.{Float, of_ℕ}
use so4_oracle.Rpc.{show_int, truncate_error_body}
use so4_oracle.Sources.Binance.{http_text, is_transient}
use so4_oracle.Sources.Web.{Web, PythPriceData, PythPriceFeed, HermesResponse, array, wrapped}

-- PYTH_HERMES_URL
abbrev pub pyth_hermes_url : String
pyth_hermes_url = "https://pyth.dourolabs.app/hermes/api/latest_price_feeds"

pub data PythPriceError (F : Type 0) : Type 0 where
  network_error : String → PythPriceError F
  http_error : ℕ → String → PythPriceError F
  json_error : String → PythPriceError F
  price_parse_error : String → PythPriceError F
  missing_feed_id : String → PythPriceError F
  stale_price : (age_seconds max_age_seconds : ℕ) → PythPriceError F
  confidence_too_wide : (confidence_bps : F) → (max_bps : ℕ) → PythPriceError F
  missing_publish_time : PythPriceError F
  invalid_publish_time : ℤ → PythPriceError F

pub record PriceWithTimestamp : Type 0 where
  pub price : ℤ
  pub observation_time : ℕ

-- MAX_FUTURE_SKEW_SECONDS
abbrev pub max_future_skew_seconds : ℕ
max_future_skew_seconds = 30

-- The id is the key; of two feeds with one id the later stays.
unfoldable pub collect_feeds : List PythPriceFeed → Map PythPriceFeed → Map PythPriceFeed
collect_feeds [] feeds = feeds
collect_feeds (feed ∷ rest) feeds = collect_feeds rest (insert feed.id feed feeds)

abbrev feeds_of : HermesResponse → List PythPriceFeed
feeds_of (array feeds) = feeds
feeds_of (wrapped feed) = feed ∷ []

module _ {F : Type 0} where
  unfoldable pub display : (F → String) → PythPriceError F → String
  display show_bps (network_error e) = concat ("Pyth network error: " ∷ e ∷ [])
  display show_bps (http_error status body) = http_text "Pyth" status body
  display show_bps (json_error e) = concat ("invalid Pyth response: " ∷ e ∷ [])
  display show_bps (price_parse_error e) = concat ("invalid Pyth price: " ∷ e ∷ [])
  display show_bps (missing_feed_id id) = concat ("Pyth response is missing feed " ∷ id ∷ [])
  display show_bps (stale_price age max_age) =
      concat ("Pyth price is stale (" ∷ show_nat age ∷ "s; maximum " ∷ show_nat max_age ∷ "s)" ∷ [])
  display show_bps (confidence_too_wide bps max_bps) = concat (
      "Pyth confidence interval is too wide ("
      ∷ show_bps bps
      ∷ " bps; maximum "
      ∷ show_nat max_bps
      ∷ ")"
      ∷ [])
  display show_bps missing_publish_time = "Pyth response is missing publish_time field"
  display show_bps (invalid_publish_time t) =
      concat ("invalid Pyth publish time: " ∷ show_int t ∷ [])

  unfoldable pub is_retryable : PythPriceError F → Bool
  is_retryable (network_error e) = true
  is_retryable (http_error status body) = is_transient status
  is_retryable (stale_price age max_age) = true
  is_retryable (json_error e) = false
  is_retryable (price_parse_error e) = false
  is_retryable (missing_feed_id id) = false
  is_retryable (confidence_too_wide bps max_bps) = false
  is_retryable missing_publish_time = false
  is_retryable (invalid_publish_time t) = false

  -- The exponent lies in [-30, 0], so the price is scaled up by 10^(30 + exponent).
  unfoldable pub normalize_pyth_price : String → ℤ → Result (PythPriceError F) ℤ
  normalize_pyth_price price_str exponent = do
    ensure (leb_ℤ (negsuc 29) exponent && leb_ℤ exponent (pos 0))
        (price_parse_error (concat ("unsupported exponent: " ∷ show_int exponent ∷ [])))
    price_int ←
        ok_or (parse_i128 (trim price_str))
          (price_parse_error (concat ("invalid price: " ∷ price_str ∷ [])))
    ensure (not (ltb_ℤ price_int (pos 0))) (price_parse_error "negative prices not supported")
    ok_or (checked (price_int *ℤ pos (10 ^ pos_part (pos 30 +ℤ exponent))))
        (price_parse_error "price overflow during normalization")

  abbrev known_time : Option ℤ → Result (PythPriceError F) ℕ
  known_time none = err missing_publish_time
  known_time (some (pos t)) = ok t
  known_time (some (negsuc t)) = err (invalid_publish_time (negsuc t))

module _ {F : Type 0} (f : Float F) where
  -- The confidence is tested only where the feed has one.
  unfoldable pub check_confidence :
      Option String → ℤ → (price : ℤ) → ℕ → Result (PythPriceError F) (Unit {0})
  check_confidence none exponent price max_bps = ok tt
  check_confidence (some conf) exponent price max_bps = do
    confidence ← normalize_pyth_price conf exponent
    let bps = f.mul (f.div (f.of_int confidence) (f.of_int price)) (of_ℕ f 10_000)
    ensure (not (f.lt (of_ℕ f max_bps) bps)) (confidence_too_wide bps max_bps)

  unfoldable pub validate_pyth_price :
      PythPriceData
      → (now_seconds stale_after_seconds max_confidence_bps : ℕ)
      → Result (PythPriceError F) PriceWithTimestamp
  validate_pyth_price feed now_seconds stale_after_seconds max_confidence_bps = do
    price ← normalize_pyth_price feed.price feed.expo
    publish_time ← known_time feed.publish_time
    ensure (not (ltb max_future_skew_seconds (publish_time - now_seconds)))
        (invalid_publish_time (pos publish_time))
    ensure (not (ltb stale_after_seconds (now_seconds - publish_time)))
        (stale_price (now_seconds - publish_time) stale_after_seconds)
    ensure (not (leb_ℤ price (pos 0))) (price_parse_error "price must be greater than zero")
    check_confidence feed.conf feed.expo price max_confidence_bps
    ok (record { price = price; observation_time = publish_time })

module _ {W F : Type 0} (web : Web W F) where
  unfoldable pub read_feeds :
      Result String (ℕ × String) → Result (PythPriceError F) (Map PythPriceFeed)
  unfolding collect_feeds
  read_feeds response = do
    reply ← map_err network_error response
    ensure (reply.0 == 200) (http_error reply.0 (truncate_error_body reply.1))
    hermes ← map_err json_error (web.decode_feeds reply.1)
    ok (collect_feeds (feeds_of hermes) [])

  unfoldable pub fetch_pyth_prices :
      List String → Option String → W → Result (PythPriceError F) (Map PythPriceFeed) × W
  fetch_pyth_prices feed_ids api_key w =
      if is_empty feed_ids
      then (ok [], w)
      else let query = join "&" (map (λ id. concat ("ids[]=" ∷ id ∷ [])) feed_ids) in
        let (response, w') =
          web.http_get (concat (pyth_hermes_url ∷ "?" ∷ query ∷ [])) [] api_key w in
        (read_feeds response, w')
