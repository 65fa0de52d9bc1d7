-- ===== src/Submit/Poll.antt =====
-- What the outcome of `submit_and_poll` says about the transaction, and how many requests it makes.
use so4_oracle.Prelude.{
  ℕ, zero, suc, ◌+◌, ◌*◌, ◌≤◌, ◌≡◌, refl, true, false, arith, String, min, ◌⊎◌, inl, inr,
}
use so4_oracle.Prelude.Result.{Result, ok, err, Result-cases}
use so4_oracle.Rpc
use so4_oracle.Rpc.{RpcError, rpc_post}
use so4_oracle.Retry.{max_backoff_delay_ms}
use so4_oracle.Retry.Bounds.{retry_with_backoff-calls}
use so4_oracle.Submit.{
  Node, SubmitError, may_still_confirm, read_poll, poll_rounds, poll_until_confirmed, poll_timeout,
  send_transaction_xdr, submit_and_poll, Verdict, confirmed, failed, transient, pending,
  max_backoff_ms, json_error, accept_status, parse_send_response, parse_get_transaction_response,
}

pub Verdict-cases :
    (v : Verdict)
    → ((l : ℕ) × (v ≡ confirmed l))
      ⊎ (((e : SubmitError) × (v ≡ failed e)) ⊎ ((v ≡ transient) ⊎ (v ≡ pending)))
Verdict-cases (confirmed l) = inl (l, refl)
Verdict-cases (failed e) = inr (inl (e, refl))
Verdict-cases transient = inr (inr (inl refl))
Verdict-cases pending = inr (inr (inr refl))

module _ {W : Type 0} (node : Node W) where
  open node use {http_post, pause, sleep, encode_get}

  -- No single reply to a poll reports a timeout.
  read_poll-not-timeout :
      (reply : Result RpcError String) (e : SubmitError)
      → read_poll node reply ≡ failed e
      → may_still_confirm e ≡ false
  unfolding read_poll may_still_confirm parse_get_transaction_response
  read_poll-not-timeout reply e h = ground arith

  abbrev answer : String → W → Verdict
  answer payload w = read_poll node (rpc_post http_post payload w).0

  abbrev after : String → W → W
  after payload w = (rpc_post http_post payload w).1

  -- A round that has attempts left fails to encode, decides, or goes on after one of two sleeps.
  poll_round_cases {ℓ} :
      (P : Result SubmitError ℕ × W → Type ℓ) (hash : String) (left backoff : ℕ) (w : W)
      → ((e : String) → P (err (json_error e), w))
      → ((payload : String) (l : ℕ) → answer payload w ≡ confirmed l → P (ok l, after payload w))
      → ((payload : String) (e : SubmitError)
          → answer payload w ≡ failed e
          → P (err e, after payload w))
      → ((payload : String)
          → P (
              poll_rounds node hash left
                (min (backoff * 2) max_backoff_delay_ms)
                (pause backoff (after payload w))))
      → ((payload : String)
          → P (
              poll_rounds node hash left
                (min (backoff * 2) max_backoff_ms)
                (sleep backoff (after payload w))))
      → P (poll_rounds node hash (suc left) backoff w)
  unfolding poll_rounds
  poll_round_cases P hash left backoff w unencoded done refused later soon =
      elim (Result-cases (encode_get hash)) [
        | inr (e, q) ↦ rw (q, poll_rounds) (unencoded e)
        | inl (payload, q) ↦ elim (Verdict-cases (answer payload w)) [
          | inl (l, v) ↦ rw (q, v, poll_rounds) (done payload l v)
          | inr (inl (e, v)) ↦ rw (q, v, poll_rounds) (refused payload e v)
          | inr (inr (inl v)) ↦ rw (q, v, poll_rounds) (later payload)
          | inr (inr (inr v)) ↦ rw (q, v, poll_rounds) (soon payload)
        ]
      ]

  abbrev TimesOut : String → Result SubmitError ℕ × W → Type 0
  TimesOut hash (r, w) =
      (e : SubmitError) → r ≡ err e → may_still_confirm e ≡ true → e ≡ poll_timeout hash

  poll_rounds-timeout :
      (hash : String) (left backoff : ℕ) (w : W)
      → TimesOut hash (poll_rounds node hash left backoff w)
  unfolding poll_rounds may_still_confirm
  poll_rounds-timeout hash zero backoff w = λ e h m. cc
  poll_rounds-timeout hash (suc left) backoff w =
      poll_round_cases (TimesOut hash) hash left backoff w (λ s e h m. ground arith)
        (λ p l v e h m. cc) (λ p x v e h m. ground (arith, read_poll-not-timeout _ x v))
        (λ p. poll_rounds-timeout hash left _ _) (λ p. poll_rounds-timeout hash left _ _)

  send_transaction_xdr-definite :
      (signed_xdr : String) (w : W) (e : SubmitError)
      → (send_transaction_xdr node signed_xdr w).0 ≡ err e
      → may_still_confirm e ≡ false
  unfolding send_transaction_xdr may_still_confirm accept_status parse_send_response
  send_transaction_xdr-definite signed_xdr w e h = ground arith

  module _ (posts : W → ℕ)
      (one : (payload : String) (w : W) → posts (http_post payload w).1 ≡ posts w + 1)
      (no_pause : (d : ℕ) (w : W) → posts (pause d w) ≡ posts w)
      (no_sleep : (d : ℕ) (w : W) → posts (sleep d w) ≡ posts w) where
    posts-after : (payload : String) (w : W) → posts (after payload w) ≡ posts w + 1
    unfolding rpc_post
    posts-after payload w = one payload w

    abbrev Spends : ℕ → W → Result SubmitError ℕ × W → Type 0
    Spends n w (r, w') =
        (posts w' ≤ posts w + n)
        × ((e : SubmitError) → r ≡ err e → may_still_confirm e ≡ true → posts w' ≡ posts w + n)

    poll_rounds-posts :
        (hash : String) (left backoff : ℕ) (w : W)
        → Spends left w (poll_rounds node hash left backoff w)
    unfolding poll_rounds may_still_confirm
    poll_rounds-posts hash zero backoff w = (omega arith, λ e h m. omega arith)
    poll_rounds-posts hash (suc left) backoff w =
        poll_round_cases (Spends (suc left) w) hash left backoff w
          (λ s. (omega arith, λ e h m. ground arith))
          (λ p l v. (omega (arith, posts-after p w), λ e h m. cc))
          (λ p x v.
            (omega (arith, posts-after p w), λ e h m. ground (arith, read_poll-not-timeout _ x v)))
          (λ p.
            deeper (pause backoff (after p w))
              (omega (arith, posts-after p w, no_pause backoff (after p w))) _
              (poll_rounds-posts hash left _ _))
          (λ p.
            deeper (sleep backoff (after p w))
              (omega (arith, posts-after p w, no_sleep backoff (after p w))) _
              (poll_rounds-posts hash left _ _))
      where
        deeper :
            (v : W)
            → posts v ≡ posts w + 1
            → (r : Result SubmitError ℕ × W) → Spends left v r
            → Spends (suc left) w r
        deeper v q (r, w') (a, b) = (omega (arith, q, a), λ e h m. omega (arith, q, b e h m))

    send_transaction_xdr-posts :
        (signed_xdr : String) (w : W)
        → posts (send_transaction_xdr node signed_xdr w).1 ≤ posts w + 3
    unfolding send_transaction_xdr
    send_transaction_xdr-posts signed_xdr w = elim (Result-cases (node.encode_send signed_xdr)) [
      | inr (e, q) ↦ rw (q, send_transaction_xdr) (omega arith)
      | inl (payload, q) ↦
          rw (q, send_transaction_xdr)
            (retry_with_backoff-calls Rpc.is_retryable pause (rpc_post http_post payload) posts 2
              100 max_backoff_delay_ms w (posts-after payload) no_pause).1
    ]

    -- For a count of requests that each POST raises by one and no sleep changes: where the result
    -- says that the transaction may still confirm, the node has accepted it, the error carries the
    -- hash that the node answered, and exactly six polls were made.
    pub submit_and_poll-may_still_confirm :
        (signed_xdr : String) (w : W) (e : SubmitError)
        → (submit_and_poll node signed_xdr w).0 ≡ err e
        → may_still_confirm e ≡ true
        → (hash : String) × ((send_transaction_xdr node signed_xdr w).0 ≡ ok hash)
          × (e ≡ poll_timeout hash)
          × (posts (submit_and_poll node signed_xdr w).1
              ≡ posts (send_transaction_xdr node signed_xdr w).1 + 6)
    unfolding submit_and_poll poll_until_confirmed
    submit_and_poll-may_still_confirm signed_xdr w e h m =
        elim (Result-cases (send_transaction_xdr node signed_xdr w).0) [
          | inr (x, q) ↦ absurd (ground (arith, send_transaction_xdr-definite signed_xdr w x q))
          | inl (hash, q) ↦
              let w' = (send_transaction_xdr node signed_xdr w).1 in
              let h' : (poll_until_confirmed node hash w').0 ≡ err e =
                rw (q, submit_and_poll) at h in
              (
                hash,
                q,
                poll_rounds-timeout hash 6 1000 w' e h' m,
                rw (q, submit_and_poll) ((poll_rounds-posts hash 6 1000 w').1 e h' m),
              )
        ]

    -- For a count of requests that each POST raises by one and no sleep changes: a submission makes
    -- at most nine requests.
    pub submit_and_poll-posts :
        (signed_xdr : String) (w : W) → posts (submit_and_poll node signed_xdr w).1 ≤ posts w + 9
    unfolding submit_and_poll poll_until_confirmed
    submit_and_poll-posts signed_xdr w =
        let sent = send_transaction_xdr-posts signed_xdr w in
        elim (Result-cases (send_transaction_xdr node signed_xdr w).0) [
          | inr (x, q) ↦ rw (q, submit_and_poll) (omega arith)
          | inl (hash, q) ↦
              rw (q, submit_and_poll)
                (omega (
                  arith,
                  sent,
                  (poll_rounds-posts hash 6 1000 (send_transaction_xdr node signed_xdr w).1).0,
                ))
        ]
