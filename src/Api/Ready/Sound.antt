-- ===== src/Api/Ready/Sound.antt =====
-- api/prices.rs: what an answer of readiness rests on.
use so4_oracle.Prelude.{
  ℕ, ◌*◌, ◌-◌, ◌≤◌, ◌<◌, ◌≡◌, refl, false, Bool-cases, inl, inr, ◌⊎◌, Option, none, some,
  Option-cases, String, is_empty, arith, [], ◌∷◌,
}
use mathlib.Core.Option.{some-injective}
use so4_oracle.Prelude.Result.{ok, Result-cases}
use so4_oracle.Prelude.Map.{Map}
use so4_oracle.State.{CachedPrice, PriceCache, CycleStatus}
use so4_oracle.Api.Ready.{
  ReadyCache, Outside, is_loop_stale, is_recent, check_outside, check_cached, ready, remember,
}
use so4_oracle.Api.Ready.Checks.{Passed, perform_external_ready_checks-Passed}

module _ {S : Type 0} (outside : Outside S) where
  -- The caches that requests for readiness can leave, from the start of the service.
  pub data Reachable : ReadyCache → Type 0 where
    at_start : Reachable (record { last_checked = none; last_error = none })
    asked :
        {cache : ReadyCache} (price_interval keeper_interval : ℕ) (prices : PriceCache)
        (status : CycleStatus) (cut : Option S) (s : S)
        → Reachable cache
        → Reachable (ready outside price_interval keeper_interval prices status cut cache s).1.0

  -- A cache without an error stands for outside checks that passed at its time.
  abbrev Vouched : ReadyCache → Type 0
  Vouched cache =
      (last : ℕ)
      → cache.last_checked ≡ some last
      → cache.last_error ≡ none
      → (s : S) × (done : S) × Passed outside s done × (outside.instant done ≡ last)

  check_outside-Passed :
      (cut : Option S) (s : S)
      → (check_outside outside cut s).0 ≡ ok tt
      → Passed outside s (check_outside outside cut s).1
  unfolding check_outside
  check_outside-Passed (some dropped) s h = absurd (ground arith)
  check_outside-Passed none s h = perform_external_ready_checks-Passed outside s h

  check_cached-Vouched :
      (cut : Option S) (cache : ReadyCache) (s : S)
      → Vouched cache
      → Vouched (check_cached outside cut cache s).1.0
  unfolding check_cached remember
  check_cached-Vouched cut cache s v = elim (Bool-cases (is_recent (outside.instant s) cache)) [
    | inl recent ↦ rw (recent, check_cached) v
    | inr old ↦ elim (Result-cases (check_outside outside cut s).0) [
      | inl (u, q) ↦
          rw (old, q, check_cached, remember)
            λ last e n. (
              s,
              (check_outside outside cut s).1,
              check_outside-Passed cut s q,
              some-injective _ _ e,
            )
      | inr (x, q) ↦ rw (old, q, check_cached, remember) λ last e n. absurd (ground arith)
    ]
  ]

  Reachable-Vouched : {cache : ReadyCache} → Reachable cache → Vouched cache
  unfolding ready
  Reachable-Vouched at_start = λ last e n. absurd (ground arith)
  Reachable-Vouched (asked {cache} price_interval keeper_interval prices status cut s before) =
      let v = Reachable-Vouched before in
      elim (Bool-cases (is_empty prices.prices)) [
        | inl a ↦ rw (a, ready) v
        | inr a ↦
            elim (Bool-cases
              (is_loop_stale price_interval (outside.wall s) status.last_price_cycle_at)) [
                | inl b ↦ rw (a, b, ready) v
                | inr b ↦
                    elim (Bool-cases (
                      is_loop_stale keeper_interval (outside.wall s) status.last_keeper_cycle_at)) [
                        | inl c ↦ rw (a, b, c, ready) v
                        | inr c ↦ rw (a, b, c, ready) (check_cached-Vouched cut cache s v)
                      ]
              ]
      ]

  -- Outside checks passed, and ended in the state that the answer leaves, or at most three seconds
  -- before the request.
  abbrev pub IsBacked : (before after : S) → Type 0
  IsBacked before after =
      (s : S) × (done : S) × Passed outside s done
      × ((done ≡ after) ⊎ (outside.instant before - outside.instant done < 3_000_000_000))

  -- The cycle ended within three of its intervals.
  abbrev pub RanLately : (interval now : ℕ) → Option ℕ → Type 0
  RanLately interval now at = (last : ℕ) × (at ≡ some last) × (now - last ≤ 3 * interval)

  RanLately-from :
      (interval now : ℕ) (at : Option ℕ)
      → is_loop_stale interval now at ≡ false
      → RanLately interval now at
  RanLately-from interval now none h = absurd (ground arith)
  RanLately-from interval now (some last) h = (last, refl, ground arith)

  check_cached-IsBacked :
      (cut : Option S) (cache : ReadyCache) (s : S)
      → Vouched cache
      → (check_cached outside cut cache s).0 ≡ ok tt
      → IsBacked s (check_cached outside cut cache s).1.1
  unfolding check_cached
  check_cached-IsBacked cut cache s v h = elim (Bool-cases (is_recent (outside.instant s) cache)) [
    | inr old ↦
        rw (old, check_cached)
          (
            s,
            (check_outside outside cut s).1,
            check_outside-Passed cut s (rw (old, check_cached) at h),
            inl refl,
          )
    | inl recent ↦ elim (Option-cases cache.last_checked) [
      | inl q ↦ absurd (ground arith)
      | inr (last, q) ↦
          let w = v last q (ground arith) in (w.0, w.1, w.2, inr (ground (arith, w.3)))
    ]
  ]

  some_price :
      (prices : Map CachedPrice)
      → is_empty prices ≡ false
      → (e : String × CachedPrice) × (rest : Map CachedPrice) × (prices ≡ e ∷ rest)
  some_price [] h = absurd (ground arith)
  some_price (e ∷ rest) h = (e, rest, refl)

  -- After any requests since the start of the service, and whatever the outside answered to them, the
  -- service calls itself ready only where the price cache has an entry, each of the two loops has ended
  -- a cycle within the last three of its intervals, and checks of the RPC and of the keeper's balance
  -- passed: one of at most three requests to the RPC was answered with a status from 200 to 299, and
  -- then one of at most three balance checks gave a balance. They ended as the answer was given, or less
  -- than three seconds before the request.
  pub ready-IsBacked :
      (price_interval keeper_interval : ℕ) (prices : PriceCache) (status : CycleStatus)
      (cut : Option S) (cache : ReadyCache) (s : S)
      → Reachable cache
      → (ready outside price_interval keeper_interval prices status cut cache s).0 ≡ ok tt
      → ((entry : String × CachedPrice) × (rest : Map CachedPrice) × (prices.prices ≡ entry ∷ rest))
        × RanLately price_interval (outside.wall s) status.last_price_cycle_at
        × RanLately keeper_interval (outside.wall s) status.last_keeper_cycle_at
        × IsBacked s (ready outside price_interval keeper_interval prices status cut cache s).1.1
  unfolding ready
  ready-IsBacked price_interval keeper_interval prices status cut cache s before h =
      elim (Bool-cases (is_empty prices.prices)) [
        | inl a ↦ absurd (ground arith)
        | inr a ↦
            elim (Bool-cases
              (is_loop_stale price_interval (outside.wall s) status.last_price_cycle_at)) [
                | inl b ↦ absurd (ground arith)
                | inr b ↦
                    elim (Bool-cases (
                      is_loop_stale keeper_interval (outside.wall s) status.last_keeper_cycle_at)) [
                        | inl c ↦ absurd (ground arith)
                        | inr c ↦ (
                          some_price prices.prices a,
                          RanLately-from _ _ _ b,
                          RanLately-from _ _ _ c,
                          rw (a, b, c, ready)
                              (check_cached-IsBacked cut cache s (Reachable-Vouched before)
                                (rw (a, b, c, ready) at h)),
                        )
                      ]
              ]
      ]
