-- ===== src/Metrics/Http.antt =====
-- metrics.rs and api/mod.rs: the counters of HTTP requests, and the middleware that keeps them. The
-- failed logins stand with the gate in Api.
pub mod Counted
pub mod Totals
pub mod Flight
use so4_oracle.Prelude.{
  ℕ, ◌+◌, ◌-◌, ◌/◌, Bool, true, false, ◌&&◌, Option, none, some, List, [], ◌∷◌, String, str_eq,
  if◌then◌else◌,
}
use so4_oracle.Prelude.Map.{Map, lookup, insert}
use so4_oracle.Prelude.Text.{concat, show_nat}
use so4_oracle.Float.{Float, of_ℕ}
use so4_oracle.Metrics.{bump_if}

pub record HttpRouteLabels : Type 0 where
  pub route : String
  pub method : String
  pub status_class : String

-- The requests of a route by their latency, each bucket with those of the buckets before it: up to
-- 10, 50, 100, 250, 500 and 1000 ms, and all.
pub record Buckets : Type 0 where
  pub le_10 : ℕ
  pub le_50 : ℕ
  pub le_100 : ℕ
  pub le_250 : ℕ
  pub le_500 : ℕ
  pub le_1000 : ℕ
  pub le_inf : ℕ

abbrev pub no_requests : Buckets
no_requests = record {
  le_10 = 0;
  le_50 = 0;
  le_100 = 0;
  le_250 = 0;
  le_500 = 0;
  le_1000 = 0;
  le_inf = 0;
}

-- The HTTP part of `Counters`.
pub record HttpCounters (F : Type 0) : Type 0 where
  pub http_requests_in_flight : ℕ
  pub http_requests_total : List (HttpRouteLabels × ℕ)
  pub http_request_duration_buckets : Map Buckets
  pub http_request_duration_sum : Map F

abbrev pub is_label : HttpRouteLabels → HttpRouteLabels → Bool
is_label l m =
    str_eq l.route m.route && str_eq l.method m.method && str_eq l.status_class m.status_class

-- `*map.entry(labels).or_insert(0) += 1`
unfoldable pub bump_route :
    HttpRouteLabels → List (HttpRouteLabels × ℕ) → List (HttpRouteLabels × ℕ)
bump_route l [] = (l, 1) ∷ []
bump_route l ((m, n) ∷ rest) =
    let later = bump_route l rest in if is_label m l then (m, n + 1) ∷ rest else (m, n) ∷ later

-- `map.entry(key).or_insert(default)`
abbrev pub entry_or : {V : Type 0} → V → Option V → V
entry_or default none = default
entry_or default (some v) = v

-- A request behind its response.
pub record Request : Type 0 where
  pub route : String
  pub method : String
  pub status : ℕ
  pub latency_ms : ℕ

unfoldable pub status_class_of : ℕ → String
status_class_of status = concat (show_nat (status / 100) ∷ "xx" ∷ [])

abbrev pub labels_of : Request → HttpRouteLabels
labels_of r = record { route = r.route; method = r.method; status_class = status_class_of r.status }

-- `thousandths n` is the literal of the source for `n` milliseconds in seconds: 0.01, 0.05, ...
module _ {F : Type 0} (f : Float F) (thousandths : ℕ → F) where
  abbrev pub latency_sec : Request → F
  latency_sec r = f.div (of_ℕ f r.latency_ms) (of_ℕ f 1_000)

  unfoldable pub bump_buckets : F → Buckets → Buckets
  bump_buckets latency b = record {
    le_10 = bump_if (f.le latency (thousandths 10)) b.le_10;
    le_50 = bump_if (f.le latency (thousandths 50)) b.le_50;
    le_100 = bump_if (f.le latency (thousandths 100)) b.le_100;
    le_250 = bump_if (f.le latency (thousandths 250)) b.le_250;
    le_500 = bump_if (f.le latency (thousandths 500)) b.le_500;
    le_1000 = bump_if (f.le latency (thousandths 1_000)) b.le_1000;
    le_inf = b.le_inf + 1;
  }

  unfoldable pub record_http_request : Request → HttpCounters F → HttpCounters F
  record_http_request r c = record c {
    http_requests_total = bump_route (labels_of r) c.http_requests_total;
    http_request_duration_buckets =
        insert r.route
          (bump_buckets (latency_sec r)
            (entry_or no_requests (lookup r.route c.http_request_duration_buckets)))
          c.http_request_duration_buckets;
    http_request_duration_sum =
        insert r.route
          (f.add (entry_or (of_ℕ f 0) (lookup r.route c.http_request_duration_sum)) (latency_sec r))
          c.http_request_duration_sum;
  }

  unfoldable pub inc_http_in_flight : HttpCounters F → HttpCounters F
  inc_http_in_flight c = record c { http_requests_in_flight = c.http_requests_in_flight + 1 }

  unfoldable pub dec_http_in_flight : HttpCounters F → HttpCounters F
  dec_http_in_flight c = record c { http_requests_in_flight = c.http_requests_in_flight - 1 }

  -- `track_metrics`: what stands before the handler of a request, and what stands behind it.
  unfoldable pub track_arrival : HttpCounters F → HttpCounters F
  track_arrival c = inc_http_in_flight c

  unfoldable pub track_response : Request → HttpCounters F → HttpCounters F
  track_response r c = record_http_request r (dec_http_in_flight c)
