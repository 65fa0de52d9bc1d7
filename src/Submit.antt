-- ===== src/Submit.antt =====
-- submit.rs: submission of a signed transaction and the poll for its outcome. The RPC endpoint is
-- a `Node` over a world `W`: the HTTP exchange, the sleeps and the JSON codec.
pub mod Poll
use so4_oracle.Prelude.{
  ℕ, zero, suc, ◌*◌, min, Bool, true, false, Option, none, some, List, [], ◌∷◌, String, str_eq,
  if◌then◌else◌,
}
use so4_oracle.Prelude.Result.{Result, ok, err}
use so4_oracle.Prelude.Text.{concat}
use so4_oracle.Rpc
use so4_oracle.Rpc.{RpcError, JsonRpcResponse, rpc_post, take_result}
use so4_oracle.Retry.{retry_with_backoff, max_backoff_delay_ms}

-- MAX_POLL_ATTEMPTS, MAX_BACKOFF_MS, INITIAL_BACKOFF_MS
abbrev pub max_poll_attempts : ℕ
max_poll_attempts = 6

abbrev pub max_backoff_ms : ℕ
max_backoff_ms = 16_000

abbrev pub initial_backoff_ms : ℕ
initial_backoff_ms = 1_000

pub data SubmitError : Type 0 where
  rpc : RpcError → SubmitError
  json_error : String → SubmitError
  rejected : (status : String) → (error_result_xdr : Option String) → SubmitError
  retryable : String → SubmitError
  transaction_failed : (events : List String) → SubmitError
  poll_timeout : (hash : String) → SubmitError

unfoldable pub may_still_confirm : SubmitError → Bool
may_still_confirm (poll_timeout hash) = true
may_still_confirm _ = false

unfoldable pub diagnostic_events : SubmitError → List String
diagnostic_events (transaction_failed events) = events
diagnostic_events _ = []

show_rejected : String → Option String → String
show_rejected status none = concat ("transaction rejected: " ∷ status ∷ [])
show_rejected status (some xdr) =
    concat ("transaction rejected: " ∷ status ∷ " (errorResultXdr: " ∷ xdr ∷ ")" ∷ [])

-- `Display for SubmitError`; `debug` is the `Debug` form of a list of texts.
unfoldable pub display : (debug : List String → String) → SubmitError → String
unfolding show_rejected
display debug (rpc e) = concat ("RPC error: " ∷ Rpc.display e ∷ [])
display debug (json_error msg) = concat ("JSON parse error: " ∷ msg ∷ [])
display debug (rejected status xdr) = show_rejected status xdr
display debug (retryable msg) = concat ("retryable: " ∷ msg ∷ [])
display debug (transaction_failed events) =
    concat ("transaction failed on-chain; diagnostic events: " ∷ debug events ∷ [])
display debug (poll_timeout hash) = concat (
    "transaction not confirmed after 6 attempts (hash: " ∷ hash ∷ "); check status on next cycle"
    ∷ [])

pub record SendTransactionResult : Type 0 where
  pub status : String
  pub hash : String
  pub error_result_xdr : Option String

pub record GetTransactionResult : Type 0 where
  pub status : String
  pub ledger : Option ℕ
  pub diagnostic_events_xdr : Option (List String)

-- What the module calls outside the repository.
pub record Node (W : Type 0) : Type 0 where
  pub http_post : String → W → Result String (ℕ × String) × W
  -- `sleep_ms(jitter(d))` and `sleep_ms(d)`
  pub pause : ℕ → W → W
  pub sleep : ℕ → W → W
  pub encode_send : String → Result String String
  pub encode_get : String → Result String String
  pub decode_send : String → Result String (JsonRpcResponse SendTransactionResult)
  pub decode_get : String → Result String (JsonRpcResponse GetTransactionResult)

-- `serde_json::from_str(body).map_err(JsonError)?`, then the fault or the result.
unfoldable pub parse_response {ℓ} : {T : Type ℓ} → Result String T → Result SubmitError T
parse_response (ok reply) = ok reply
parse_response (err e) = err (json_error e)

-- What one reply to `getTransaction` says: the outcome, or that the poll goes on, after a sleep
-- that is jittered or not and a backoff capped accordingly.
pub data Verdict : Type 0 where
  confirmed : ℕ → Verdict
  failed : SubmitError → Verdict
  transient : Verdict
  pending : Verdict

module _ {W : Type 0} (node : Node W) where
  open node use {http_post, pause, sleep, encode_send, encode_get, decode_send, decode_get}

  unfoldable pub parse_send_response : String → Result SubmitError SendTransactionResult
  unfolding take_result parse_response
  parse_send_response body =
      take_result rpc (json_error "missing 'result' field") (parse_response (decode_send body))

  unfoldable pub parse_get_transaction_response : String → Result SubmitError GetTransactionResult
  unfolding take_result parse_response
  parse_get_transaction_response body =
      take_result rpc (json_error "missing 'result' field") (parse_response (decode_get body))

  -- The `match result.status` of `send_transaction_xdr`.
  unfoldable pub accept_status : SendTransactionResult → Result SubmitError String
  accept_status r =
      if str_eq r.status "PENDING"
      then ok r.hash
      else if str_eq r.status "DUPLICATE"
      then ok r.hash
      else if str_eq r.status "TRY_AGAIN_LATER"
      then err
          (retryable (concat ("sendTransaction returned TRY_AGAIN_LATER for hash " ∷ r.hash ∷ [])))
      else err (rejected r.status r.error_result_xdr)

  read_send : Result RpcError String → Result SubmitError String
  read_send (err e) = err (rpc e)
  read_send (ok body) = elim (parse_send_response body) [ err e ↦ err e | ok r ↦ accept_status r ]

  -- Three attempts at the POST, then the reply's status decides.
  unfoldable pub send_transaction_xdr : String → W → Result SubmitError String × W
  unfolding read_send
  send_transaction_xdr signed_xdr w = elim (encode_send signed_xdr) [
    | err e ↦ (err (json_error e), w)
    | ok payload ↦
        let (reply, w') =
          retry_with_backoff Rpc.is_retryable pause (rpc_post http_post payload) 2 100
            max_backoff_delay_ms w in
        (read_send reply, w')
  ]

  -- `result.ledger.unwrap_or(0)` and `diagnostic_events_xdr.unwrap_or_default()`
  read_status : GetTransactionResult → Verdict
  read_status r =
      if str_eq r.status "SUCCESS"
      then confirmed (elim r.ledger [ none ↦ 0 | some l ↦ l ])
      else if str_eq r.status "FAILED"
      then failed
          (transaction_failed (elim r.diagnostic_events_xdr [ none ↦ [] | some events ↦ events ]))
      else pending

  unfoldable pub read_poll : Result RpcError String → Verdict
  unfolding read_status
  read_poll (err e) = if Rpc.is_retryable e then transient else failed (rpc e)
  read_poll (ok body) = elim (parse_get_transaction_response body) [
    | err e ↦ failed e
    | ok r ↦ read_status r
  ]

  -- `for attempt in 0..MAX_POLL_ATTEMPTS`, with the number of attempts left.
  unfoldable pub poll_rounds : String → ℕ → ℕ → W → Result SubmitError ℕ × W
  poll_rounds hash zero backoff_ms w = (err (poll_timeout hash), w)
  poll_rounds hash (suc left) backoff_ms w = elim (encode_get hash) [
    | err e ↦ (err (json_error e), w)
    | ok payload ↦
        let (reply, w') = rpc_post http_post payload w in
        elim (read_poll reply) [
          | confirmed ledger ↦ (ok ledger, w')
          | failed e ↦ (err e, w')
          | transient ↦
              poll_rounds hash left (min (backoff_ms * 2) max_backoff_delay_ms)
                (pause backoff_ms w')
          | pending ↦
              poll_rounds hash left (min (backoff_ms * 2) max_backoff_ms) (sleep backoff_ms w')
        ]
  ]

  unfoldable pub poll_until_confirmed : String → W → Result SubmitError ℕ × W
  poll_until_confirmed hash w = poll_rounds hash max_poll_attempts initial_backoff_ms w

  unfoldable pub submit_and_poll : String → W → Result SubmitError ℕ × W
  submit_and_poll signed_xdr w =
      let (sent, w') = send_transaction_xdr signed_xdr w in
      elim sent [ err e ↦ (err e, w') | ok hash ↦ poll_until_confirmed hash w' ]
