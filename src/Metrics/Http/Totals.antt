-- ===== src/Metrics/Http/Totals.antt =====
-- metrics.rs, `record_http_request`: what the counters show behind any requests.
use so4_oracle.Prelude.Map.{lookup}
use so4_oracle.Prelude.{
  ℕ, ◌+◌, ◌≡◌, refl, sym, ◌∙◌, arith, Bool, true, false, Bool-cases, inl, inr, List, [], ◌∷◌,
  String, str_eq_iff, str_eq_refl, if◌then◌else◌,
}
use so4_oracle.Float.{Float}
use so4_oracle.Metrics.Http.{
  HttpRouteLabels, HttpCounters, is_label, bump_route, Request, labels_of, record_http_request,
}
use so4_oracle.Metrics.Http.Counted.{
  IsExact, one_if, count_where, histogram, zero_plus, record_all, buckets_of, record_all-plus,
}

unfoldable pub total_of : HttpRouteLabels → List (HttpRouteLabels × ℕ) → ℕ
total_of l [] = 0
total_of l ((m, n) ∷ rest) = let later = total_of l rest in if is_label m l then n else later

is_label_refl : (l : HttpRouteLabels) → is_label l l ≡ true
is_label_refl l = rw (str_eq_refl l.route, str_eq_refl l.method, str_eq_refl l.status_class) refl

labels_eq :
    {l m : HttpRouteLabels}
    → l.route ≡ m.route
    → l.method ≡ m.method
    → l.status_class ≡ m.status_class
    → l ≡ m
labels_eq e1 e2 e3 = λ i. record { route = e1 i; method = e2 i; status_class = e3 i }

is_label-eq : (l m : HttpRouteLabels) → is_label l m ≡ true → l ≡ m
is_label-eq l m h =
    labels_eq (ground (arith, str_eq_iff l.route m.route))
      (ground (arith, str_eq_iff l.method m.method))
      (ground (arith, str_eq_iff l.status_class m.status_class))

pick : (b : Bool) (n t : ℕ) → (if b then n + 1 else t) ≡ (if b then n else t) + one_if b
pick true n t = omega arith
pick false n t = omega arith

elsewhere :
    (k l m : HttpRouteLabels) (n : ℕ) (rest : List (HttpRouteLabels × ℕ))
    → is_label m k ≡ false
    → total_of l (bump_route k rest) ≡ total_of l rest + one_if (is_label k l)
    → (if is_label m l then n else total_of l (bump_route k rest))
      ≡ (if is_label m l then n else total_of l rest) + one_if (is_label k l)
elsewhere k l m n rest there later = elim (Bool-cases (is_label m l)) [
  | inr other ↦ rw other later
  | inl at ↦ elim (Bool-cases (is_label k l)) [
    | inr not_k ↦ rw (at, not_k) (omega arith)
    | inl at_k ↦ absurd (cc (there, is_label_refl k, is_label-eq m l at, is_label-eq k l at_k))
  ]
]

bump_route-total :
    (k l : HttpRouteLabels) (totals : List (HttpRouteLabels × ℕ))
    → total_of l (bump_route k totals) ≡ total_of l totals + one_if (is_label k l)
unfolding bump_route total_of
bump_route-total k l [] = omega arith
bump_route-total k l ((m, n) ∷ rest) = elim (Bool-cases (is_label m k)) [
  | inl here ↦ rw (here, sym (is_label-eq m k here)) (pick (is_label m l) n (total_of l rest))
  | inr there ↦ rw there (elsewhere k l m n rest there (bump_route-total k l rest))
]

abbrev pub no_http : {F : Type 0} → HttpCounters F
no_http = record {
  http_requests_in_flight = 0;
  http_requests_total = [];
  http_request_duration_buckets = [];
  http_request_duration_sum = [];
}

module _ {F : Type 0} (f : Float F) (thousandths : ℕ → F) where
  record_all-total :
      (l : HttpRouteLabels) (rs : List Request) (c : HttpCounters F)
      → total_of l (record_all f thousandths rs c).http_requests_total
        ≡ total_of l c.http_requests_total + count_where (λ r. is_label (labels_of r) l) rs
  unfolding record_all count_where record_http_request
  record_all-total l [] c = omega arith
  record_all-total l (r ∷ rest) c = omega (
    arith,
    record_all-total l rest (record_http_request f thousandths r c),
    bump_route-total (labels_of r) l c.http_requests_total,
  )

  -- Behind any requests, in any order, each bucket of a route is the number of the requests to it
  -- that took no longer than the bucket's bound, the last bucket is the number of all of them, and
  -- the total of a route, a method and a class of status is the number of the requests that had
  -- these. The comparisons of floats are taken to be on the right side of the bounds, as IEEE
  -- division puts them.
  pub record_all-counts :
      IsExact f thousandths
      → (route : String) (l : HttpRouteLabels) (rs : List Request)
      → (buckets_of f thousandths route (record_all f thousandths rs no_http) ≡ histogram route rs)
        × (total_of l (record_all f thousandths rs no_http).http_requests_total
            ≡ count_where (λ r. is_label (labels_of r) l) rs)
  unfolding total_of lookup
  record_all-counts exact route l rs = (
    record_all-plus f thousandths exact route rs no_http ∙ zero_plus (histogram route rs),
    omega (arith, record_all-total l rs no_http),
  )
