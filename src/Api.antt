-- ===== src/Api.antt =====
-- api/mod.rs, api/admin.rs and api/prices.rs: the gate in front of the admin's routes, and the routes
-- that read or change what the two loops keep. Log lines are left out.
pub mod Access
pub mod Ready
pub mod Submissions
pub mod Status
use so4_oracle.Prelude.{
  ℕ, ◌+◌, min, Bool, true, false, not, Option, none, some, List, [], ◌∷◌, map, String, is_empty,
  length, str_eq, take, if◌then◌else◌,
}
use so4_oracle.Prelude.Map.{Map, lookup, insert, remove, contains_key}
use so4_oracle.Prelude.Result.{Result, ok, err}
use so4_oracle.Prelude.Text.{strip_prefix, as_bytes}
use so4_oracle.Auth.{constant_time_eq}
use so4_oracle.State.{KeyTables, CachedPrice, PriceCache, FailedSubmission}
use so4_oracle.State.Limiter.{Failures, is_blocked, record_failure, record_success}

-- ApiError, with the status as its number
pub record ApiError : Type 0 where
  pub status : ℕ
  pub message : String

abbrev pub unconfigured : ApiError
unconfigured = record { status = 503; message = "ADMIN_API_TOKEN is not configured" }

abbrev pub too_many : ApiError
too_many = record { status = 429; message = "too many failed admin auth attempts; try again later" }

abbrev pub unauthorized : ApiError
unauthorized = record { status = 401; message = "unauthorized" }

-- What the gate reads of a request: the client's IP address, where the connection is known, the
-- Authorization header, where it is text, and the route that was matched.
pub record Request : Type 0 where
  pub ip : Option String
  pub authorization : Option String
  pub route : Option String

-- What the gate writes: the limiter, and `http_auth_failures_total` of the metrics.
pub record Gate : Type 0 where
  pub limiter : Failures
  pub http_auth_failures : Map ℕ

abbrev or_unknown : Option String → String
or_unknown none = "unknown"
or_unknown (some s) = s

abbrev pub client_of : Request → String
client_of request = or_unknown request.ip

abbrev bearer : Option String → Option String
bearer none = none
bearer (some value) = strip_prefix value "Bearer "

abbrev pub token_of : Request → Option String
token_of request = bearer request.authorization

-- `*entry(route).or_insert(0) += 1`
unfoldable pub record_http_auth_failure : String → Map ℕ → Map ℕ
record_http_auth_failure route counts =
    insert route (elim (lookup route counts) [ none ↦ 1 | some n ↦ n + 1 ]) counts

-- `matches!(actual, Some(a) if constant_time_eq(..))`
unfoldable pub is_token : (expected : String) → Option String → Bool
is_token expected none = false
is_token expected (some actual) = constant_time_eq (as_bytes actual) (as_bytes expected)

-- `AdminAuth::from_request_parts` at the instant `now`.
unfoldable pub from_request_parts :
    (admin_api_token : Option String)
    → (now : ℕ) → Request
    → Gate
    → Result ApiError (Unit {0}) × Gate
from_request_parts none now request gate = (err unconfigured, gate)
from_request_parts (some expected) now request gate =
    if is_blocked gate.limiter (client_of request) now
    then (err too_many, gate)
    else if is_token expected (token_of request)
    then (ok tt, record gate { limiter = record_success gate.limiter (client_of request) })
    else (
      err unauthorized,
      record {
        limiter = record_failure gate.limiter (client_of request) now;
        http_auth_failures =
            record_http_auth_failure (or_unknown request.route) gate.http_auth_failures;
      },
    )

-- `clear_blacklisted_key`
unfoldable pub clear_blacklisted_key : String → KeyTables → Result ApiError (Unit {0}) × KeyTables
clear_blacklisted_key key t =
    if contains_key key t.frozen_order_blacklist
    then (
      ok tt,
      record t {
        frozen_order_blacklist = remove key t.frozen_order_blacklist;
        freeze_failure_counts = remove key t.freeze_failure_counts;
        execution_failure_counts = remove key t.execution_failure_counts;
      },
    )
    else (err (record { status = 404; message = "key_not_blacklisted" }), t)

-- `prices`
unfoldable pub prices : PriceCache → Result ApiError (List CachedPrice)
prices cache =
    if is_empty cache.prices
    then err (record { status = 503; message = "no_prices" })
    else ok (map (λ e. e.1) cache.prices)
