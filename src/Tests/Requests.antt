-- ===== src/Tests/Requests.antt =====
-- Three requests, and a label that must be escaped.
use Prim.Native.String.{String as Text, ◌++◌ as append}
use so4_oracle.Prelude.{
  ℕ, ◌+◌, ◌-◌, ◌*◌, ◌/◌, ◌≡◌, refl, arith, ltb, leb, ◌==◌, false, some, List, [], ◌∷◌, ◌^◌,
}
use so4_oracle.Prelude.Int.{pos, pos_part}
use so4_oracle.Float.{Float}
use so4_oracle.Metrics.Http.{
  HttpCounters, HttpRouteLabels, Request, is_label, labels_of, track_arrival, track_response,
}
use so4_oracle.Metrics.Http.Counted.{IsExact, count_where, histogram, record_all, buckets_of}
use so4_oracle.Metrics.Http.Totals.{no_http, total_of, record_all-counts}
use so4_oracle.Metrics.Http.Flight.{Served, begin, arrives, responds, drops, in_flight-open}
use so4_oracle.Metrics.Labels.{escape_label_value, read_label, read_label-escape_label_value}

-- Numbers as so many thousandths.
abbrev millis : Float ℕ
millis = record {
  of_int = λ a. pos_part a * 1_000;
  to_int = λ a. pos (a / 1_000);
  add = λ a b. a + b;
  sub = λ a b. a - b;
  mul = λ a b. a * b / 1_000;
  div = λ a b. a * 1_000 / b;
  abs = λ a. a;
  sqrt = λ a. a;
  floor = λ a. a / 1_000 * 1_000;
  ceil = λ a. (a + 999) / 1_000 * 1_000;
  half = 500;
  infinity = 10 ^ 18;
  lt = ltb;
  le = leb;
  eq = λ a b. a == b;
}

exact : IsExact millis (λ n. n)
exact ms n small = ground arith

abbrev prices_in : ℕ → Request
prices_in ms = record { route = "/prices"; method = "GET"; status = 200; latency_ms = ms }

abbrev requests : List Request
requests =
    prices_in 10
    ∷ record { route = "/ready"; method = "GET"; status = 503; latency_ms = 2_000 }
    ∷ prices_in 251
    ∷ []

abbrev ok_prices : HttpRouteLabels
ok_prices = record { route = "/prices"; method = "GET"; status_class = "2xx" }

record_all-counts_example :
    (buckets_of millis (λ n. n) "/prices" (record_all millis (λ n. n) requests no_http)
      ≡ histogram "/prices" requests)
    × (total_of ok_prices (record_all millis (λ n. n) requests no_http).http_requests_total
        ≡ count_where (λ r. is_label (labels_of r) ok_prices) requests)
record_all-counts_example = record_all-counts millis (λ n. n) exact "/prices" ok_prices requests

-- Two requests arrive, one gets its response, and the other is dropped.
abbrev after_two : HttpCounters ℕ
after_two =
    track_response millis (λ n. n) (prices_in 10)
      (track_arrival millis (λ n. n) (track_arrival millis (λ n. n) no_http))

dropped_one : Served millis (λ n. n) 0 1 after_two
dropped_one = drops (responds (prices_in 10) (arrives (arrives (begin no_http refl))))

in_flight-open_example : after_two.http_requests_in_flight ≡ 0 + 1
in_flight-open_example = in_flight-open millis (λ n. n) dropped_one

read_label-escape_label_value_example :
    read_label false (append (escape_label_value "C:\\\"a\n") (Text.◌∷◌ "\"" "} 1"))
    ≡ some ("C:\\\"a\n", "} 1")
read_label-escape_label_value_example = read_label-escape_label_value "C:\\\"a\n" "} 1"
