-- ===== src/Metrics/Http/Counted.antt =====
-- metrics.rs, `record_http_request`: the histogram and the totals against a count of the requests.
use so4_oracle.Prelude.{
  ℕ, ◌+◌, ◌≤◌, ◌≡◌, refl, sym, ap, ◌∙◌, arith, leb, Bool, true, false, ◌&&◌, Bool-cases, some, inl,
  inr, List, [], ◌∷◌, String, str_eq, str_eq_iff, if◌then◌else◌,
}
use so4_oracle.Prelude.Map.{lookup, lookup-insert}
use so4_oracle.Float.{Float, of_ℕ}
use so4_oracle.Metrics.{bump_if}
use so4_oracle.Metrics.Http.{
  Buckets, no_requests, HttpCounters, entry_or, Request, latency_sec, bump_buckets,
  record_http_request,
}

-- What IEEE division gives for whole milliseconds up to a second: the quotient is on the same side of
-- the literal as the milliseconds are of its number.
abbrev pub IsExact : {F : Type 0} → Float F → (thousandths : ℕ → F) → Type 0
IsExact f thousandths =
    (ms n : ℕ) → n ≤ 1_000 → f.le (f.div (of_ℕ f ms) (of_ℕ f 1_000)) (thousandths n) ≡ leb ms n

abbrev pub one_if : Bool → ℕ
one_if b = if b then 1 else 0

-- How many requests satisfy a test.
unfoldable pub count_where : (Request → Bool) → List Request → ℕ
count_where p [] = 0
count_where p (r ∷ rest) = one_if (p r) + count_where p rest

abbrev within : String → ℕ → Request → Bool
within route n r = str_eq r.route route && leb r.latency_ms n

-- The histogram of a route, by counting.
abbrev pub histogram : String → List Request → Buckets
histogram route rs = record {
  le_10 = count_where (within route 10) rs;
  le_50 = count_where (within route 50) rs;
  le_100 = count_where (within route 100) rs;
  le_250 = count_where (within route 250) rs;
  le_500 = count_where (within route 500) rs;
  le_1000 = count_where (within route 1_000) rs;
  le_inf = count_where (λ r. str_eq r.route route) rs;
}

abbrev plus : Buckets → Buckets → Buckets
plus a b = record {
  le_10 = a.le_10 + b.le_10;
  le_50 = a.le_50 + b.le_50;
  le_100 = a.le_100 + b.le_100;
  le_250 = a.le_250 + b.le_250;
  le_500 = a.le_500 + b.le_500;
  le_1000 = a.le_1000 + b.le_1000;
  le_inf = a.le_inf + b.le_inf;
}

buckets_eq :
    {a b : Buckets}
    → a.le_10 ≡ b.le_10
    → a.le_50 ≡ b.le_50
    → a.le_100 ≡ b.le_100
    → a.le_250 ≡ b.le_250
    → a.le_500 ≡ b.le_500
    → a.le_1000 ≡ b.le_1000
    → a.le_inf ≡ b.le_inf
    → a ≡ b
buckets_eq e1 e2 e3 e4 e5 e6 e7 = λ i. record {
  le_10 = e1 i;
  le_50 = e2 i;
  le_100 = e3 i;
  le_250 = e4 i;
  le_500 = e5 i;
  le_1000 = e6 i;
  le_inf = e7 i;
}

bump_if_one : (b : Bool) (n : ℕ) → bump_if b n ≡ n + (one_if b + 0)
bump_if_one true n = omega arith
bump_if_one false n = omega arith

plus_assoc : (a b c : Buckets) → plus (plus a b) c ≡ plus a (plus b c)
plus_assoc a b c =
    buckets_eq (omega arith) (omega arith) (omega arith) (omega arith) (omega arith) (omega arith)
      (omega arith)

plus_zero : (a : Buckets) → plus a no_requests ≡ a
plus_zero a =
    buckets_eq (omega arith) (omega arith) (omega arith) (omega arith) (omega arith) (omega arith)
      (omega arith)

pub zero_plus : (a : Buckets) → plus no_requests a ≡ a
zero_plus a =
    buckets_eq (omega arith) (omega arith) (omega arith) (omega arith) (omega arith) (omega arith)
      (omega arith)

module _ {F : Type 0} (f : Float F) (thousandths : ℕ → F) where
  unfoldable pub record_all : List Request → HttpCounters F → HttpCounters F
  record_all [] c = c
  record_all (r ∷ rest) c = record_all rest (record_http_request f thousandths r c)

  abbrev pub buckets_of : String → HttpCounters F → Buckets
  buckets_of route c = entry_or no_requests (lookup route c.http_request_duration_buckets)

  module _ (exact : IsExact f thousandths) where
    bump_if-within :
        (route : String) (r : Request) (n b : ℕ)
        → str_eq r.route route ≡ true
        → n ≤ 1_000
        → bump_if (f.le (latency_sec f thousandths r) (thousandths n)) b
          ≡ b + (one_if (within route n r) + 0)
    bump_if-within route r n b same small =
        rw (exact r.latency_ms n small, same) (bump_if_one (leb r.latency_ms n) b)

    bump_buckets-plus :
        (route : String) (r : Request) (b : Buckets)
        → str_eq r.route route ≡ true
        → bump_buckets f thousandths (latency_sec f thousandths r) b
          ≡ plus b (histogram route (r ∷ []))
    unfolding bump_buckets count_where
    bump_buckets-plus route r b same =
        buckets_eq (bump_if-within route r 10 _ same (omega arith))
          (bump_if-within route r 50 _ same (omega arith))
          (bump_if-within route r 100 _ same (omega arith))
          (bump_if-within route r 250 _ same (omega arith))
          (bump_if-within route r 500 _ same (omega arith))
          (bump_if-within route r 1_000 _ same (omega arith)) (rw same refl)

    histogram-other :
        (route : String) (r : Request)
        → str_eq r.route route ≡ false
        → histogram route (r ∷ []) ≡ no_requests
    unfolding count_where
    histogram-other route r other = rw other refl

    record_http_request-buckets :
        (route : String) (r : Request) (c : HttpCounters F)
        → buckets_of route (record_http_request f thousandths r c)
          ≡ plus (buckets_of route c) (histogram route (r ∷ []))
    unfolding record_http_request
    record_http_request-buckets route r c =
        let m = c.http_request_duration_buckets in
        let v = bump_buckets f thousandths (latency_sec f thousandths r) (buckets_of r.route c) in
        let found : buckets_of route (record_http_request f thousandths r c)
            ≡ entry_or no_requests (if str_eq r.route route then some v else lookup route m) =
          ap (entry_or no_requests) (lookup-insert route r.route v m) in
        elim (Bool-cases (str_eq r.route route)) [
          | inl same ↦
              rw same at found
              ∙ ap (λ k. bump_buckets f thousandths (latency_sec f thousandths r) (buckets_of k c))
                  ((str_eq_iff r.route route).0 same)
              ∙ bump_buckets-plus route r (buckets_of route c) same
          | inr other ↦
              rw other at found
              ∙ sym (plus_zero (buckets_of route c))
              ∙ ap (plus (buckets_of route c)) (sym (histogram-other route r other))
        ]

    histogram-cons :
        (route : String) (r : Request) (rest : List Request)
        → plus (histogram route (r ∷ [])) (histogram route rest) ≡ histogram route (r ∷ rest)
    unfolding count_where
    histogram-cons route r rest =
        buckets_eq (omega arith) (omega arith) (omega arith) (omega arith) (omega arith)
          (omega arith) (omega arith)

    pub record_all-plus :
        (route : String) (rs : List Request) (c : HttpCounters F)
        → buckets_of route (record_all rs c) ≡ plus (buckets_of route c) (histogram route rs)
    unfolding record_all count_where
    record_all-plus route [] c = sym (plus_zero (buckets_of route c))
    record_all-plus route (r ∷ rest) c =
        record_all-plus route rest (record_http_request f thousandths r c)
        ∙ ap (λ b. plus b (histogram route rest)) (record_http_request-buckets route r c)
        ∙ plus_assoc (buckets_of route c) (histogram route (r ∷ [])) (histogram route rest)
        ∙ ap (plus (buckets_of route c)) (histogram-cons route r rest)
