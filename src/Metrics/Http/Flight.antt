-- ===== src/Metrics/Http/Flight.antt =====
-- api/mod.rs, `track_metrics`: the number of requests in flight, whatever the order of their ends.
use so4_oracle.Prelude.{ℕ, ◌+◌, ◌≡◌, arith}
use so4_oracle.Float.{Float}
use so4_oracle.Metrics.Http.{
  HttpCounters, Request, inc_http_in_flight, dec_http_in_flight, record_http_request, track_arrival,
  track_response,
}

module _ {F : Type 0} (f : Float F) (thousandths : ℕ → F) where
  -- Requests arrive, get their response, or are dropped with their connection, in which case nothing
  -- behind the handler runs. The numbers are of the requests that are open and that were dropped.
  pub data Served : (open_requests dropped : ℕ) → HttpCounters F → Type 0 where
    begin : (c : HttpCounters F) → c.http_requests_in_flight ≡ 0 → Served 0 0 c
    arrives :
        {n d : ℕ} {c : HttpCounters F}
        → Served n d c
        → Served (n + 1) d (track_arrival f thousandths c)
    responds :
        {n d : ℕ} {c : HttpCounters F} (r : Request)
        → Served (n + 1) d c
        → Served n d (track_response f thousandths r c)
    drops : {n d : ℕ} {c : HttpCounters F} → Served (n + 1) d c → Served n (d + 1) c

  -- The gauge is the number of the open requests and of all that were ever dropped.
  pub in_flight-open :
      {n d : ℕ} {c : HttpCounters F} → Served n d c → c.http_requests_in_flight ≡ n + d
  unfolding track_arrival track_response inc_http_in_flight dec_http_in_flight record_http_request
  in_flight-open (begin c h) = h
  in_flight-open (arrives s) = omega (arith, in_flight-open s)
  in_flight-open (responds r s) = omega (arith, in_flight-open s)
  in_flight-open (drops s) = omega (arith, in_flight-open s)
