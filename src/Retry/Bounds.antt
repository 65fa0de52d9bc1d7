-- ===== src/Retry/Bounds.antt =====
-- How often the retry loop calls its closure, and how long it sleeps in between.
use so4_oracle.Prelude.{
  ℕ, zero, suc, ◌+◌, ◌*◌, ◌≤◌, ◌≡◌, Bool, true, inl, inr, arith, min, Bool-cases, subst,
}
use so4_oracle.Prelude.Result.{Result, err, Result-cases}
use so4_oracle.Retry.{Pause, retry_rounds, retry_with_backoff}

module _ {W E T : Type 0} (is_retryable : E → Bool) (pause : Pause W) (f : W → Result E T × W) where
  -- What every call of the closure and every sleep of at most `max_delay_ms` keeps, the loop keeps.
  retry_rounds-keeps :
      (P : W → Type 0) (max_delay_ms : ℕ)
      → ((w : W) → P w → P (f w).1)
      → ((d : ℕ) (w : W) → d ≤ max_delay_ms → P w → P (pause d w))
      → (left d : ℕ) (w : W) → d ≤ max_delay_ms
      → P w
      → P (retry_rounds is_retryable pause f max_delay_ms left d w).1
  unfolding retry_rounds
  retry_rounds-keeps P m hf hp zero d w hd h = hf w h
  retry_rounds-keeps P m hf hp (suc left) d w hd h = elim (Result-cases (f w).0) [
    | inl (v, e) ↦ rw (e, retry_rounds) (hf w h)
    | inr (x, e) ↦ elim (Bool-cases (is_retryable x)) [
      | inl again ↦
          rw (e, again, retry_rounds)
            (retry_rounds-keeps P m hf hp left (min (d * 2) m) (pause d (f w).1) (omega arith)
              (hp d _ hd (hf w h)))
      | inr stop ↦ rw (e, stop, retry_rounds) (hf w h)
    ]
  ]

  -- `calls` counts the calls of the closure; a sleep makes none.
  retry_rounds-calls :
      (calls : W → ℕ) (max_delay_ms : ℕ)
      → ((w : W) → calls (f w).1 ≡ calls w + 1)
      → ((d : ℕ) (w : W) → calls (pause d w) ≡ calls w)
      → (left d : ℕ) (w : W)
      → let (result, w') = retry_rounds is_retryable pause f max_delay_ms left d w in
        (calls w + 1 ≤ calls w')
        × (calls w' ≤ calls w + suc left)
        × ((e : E) → result ≡ err e → is_retryable e ≡ true → calls w' ≡ calls w + suc left)
  unfolding retry_rounds
  retry_rounds-calls calls m hf hp zero d w =
      (omega (arith, hf w), omega (arith, hf w), λ e _ _. omega (arith, hf w))
  retry_rounds-calls calls m hf hp (suc left) d w = elim (Result-cases (f w).0) [
    | inl (v, e) ↦ rw (e, retry_rounds) (omega (arith, hf w), omega (arith, hf w), λ x q _. cc)
    | inr (x, e) ↦ elim (Bool-cases (is_retryable x)) [
      | inl again ↦
          let later = pause d (f w).1 in
          let rest = retry_rounds-calls calls m hf hp left (min (d * 2) m) later in
          rw (e, again, retry_rounds)
            (
              omega (arith, hf w, hp d (f w).1, rest.0),
              omega (arith, hf w, hp d (f w).1, rest.1),
              λ y q r. omega (arith, hf w, hp d (f w).1, rest.2 y q r),
            )
      | inr stop ↦
          rw (e, stop, retry_rounds)
            (omega (arith, hf w), omega (arith, hf w), λ y q r. absurd (ground arith))
    ]
  ]

  -- For a count that each call of the closure raises by one and no sleep changes: the closure is
  -- called at least once and at most `max_attempts` times.
  pub retry_with_backoff-calls :
      (calls : W → ℕ) (left base_delay_ms max_delay_ms : ℕ) (w : W)
      → ((v : W) → calls (f v).1 ≡ calls v + 1)
      → ((d : ℕ) (v : W) → calls (pause d v) ≡ calls v)
      → let w' = (retry_with_backoff is_retryable pause f left base_delay_ms max_delay_ms w).1 in
        (calls w + 1 ≤ calls w') × (calls w' ≤ calls w + suc left)
  unfolding retry_with_backoff
  retry_with_backoff-calls calls left base m w hf hp =
      let c = retry_rounds-calls calls m hf hp left (min base m) w in (c.0, c.1)

  -- For a count that each call of the closure raises by one and no sleep changes: where the loop
  -- returns a transient error, all `max_attempts` calls were made.
  pub retry_with_backoff-exhausts :
      (calls : W → ℕ) (left base_delay_ms max_delay_ms : ℕ) (w : W) (e : E)
      → ((v : W) → calls (f v).1 ≡ calls v + 1)
      → ((d : ℕ) (v : W) → calls (pause d v) ≡ calls v)
      → (retry_with_backoff is_retryable pause f left base_delay_ms max_delay_ms w).0 ≡ err e
      → is_retryable e ≡ true
      → calls (retry_with_backoff is_retryable pause f left base_delay_ms max_delay_ms w).1
        ≡ calls w + suc left
  unfolding retry_with_backoff
  retry_with_backoff-exhausts calls left base m w e hf hp h r =
      (retry_rounds-calls calls m hf hp left (min base m) w).2 e h r

  -- A predicate that every call of the closure keeps, and every sleep whose delay before the jitter
  -- is at most `max_delay_ms`, is kept by the whole loop.
  pub retry_with_backoff-keeps :
      (P : W → Type 0) (left base_delay_ms max_delay_ms : ℕ) (w : W)
      → ((v : W) → P v → P (f v).1)
      → ((d : ℕ) (v : W) → d ≤ max_delay_ms → P v → P (pause d v))
      → P w
      → P (retry_with_backoff is_retryable pause f left base_delay_ms max_delay_ms w).1
  unfolding retry_with_backoff
  retry_with_backoff-keeps P left base m w hf hp h =
      retry_rounds-keeps P m hf hp left (min base m) w (omega arith) h

  retry_rounds-returns :
      (P : Result E T × W → Type 0) (max_delay_ms left d : ℕ) (w : W)
      → ((v : W) → P (f v))
      → P (retry_rounds is_retryable pause f max_delay_ms left d w)
  unfolding retry_rounds
  retry_rounds-returns P m zero d w h = h w
  retry_rounds-returns P m (suc left) d w h = elim (Result-cases (f w).0) [
    | inl (v, e) ↦ rw (e, retry_rounds) (subst (λ r. P (r, (f w).1)) e (h w))
    | inr (x, e) ↦ elim (Bool-cases (is_retryable x)) [
      | inl again ↦
          rw (e, again, retry_rounds)
            (retry_rounds-returns P m left (min (d * 2) m) (pause d (f w).1) h)
      | inr stop ↦ rw (e, stop, retry_rounds) (subst (λ r. P (r, (f w).1)) e (h w))
    ]
  ]

  -- What holds of every result of the closure and the state behind it holds of the loop's.
  pub retry_with_backoff-returns :
      (P : Result E T × W → Type 0) (left base_delay_ms max_delay_ms : ℕ) (w : W)
      → ((v : W) → P (f v))
      → P (retry_with_backoff is_retryable pause f left base_delay_ms max_delay_ms w)
  unfolding retry_with_backoff
  retry_with_backoff-returns P left base m w h = retry_rounds-returns P m left (min base m) w h

  -- What holds of every result of the closure holds of the loop's.
  pub retry_with_backoff-result :
      (P : Result E T → Type 0) (left base_delay_ms max_delay_ms : ℕ) (w : W)
      → ((v : W) → P (f v).0)
      → P (retry_with_backoff is_retryable pause f left base_delay_ms max_delay_ms w).0
  retry_with_backoff-result P left base m w h =
      retry_with_backoff-returns (λ r. P r.0) left base m w h
