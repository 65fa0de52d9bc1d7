-- ===== src/Keeper/Handler.antt =====
-- keeper_loop.rs: one contract call of the keeper, and what its error says.
use so4_oracle.Prelude.{
  ℕ, ◌+◌, ◌-◌, ◌/◌, ◌^◌, min, Bool, true, false, not, ◌&&◌, ◌||◌, Option, none, some, List, [], ◌∷◌,
  String, length, ltb, ◌==◌, if◌then◌else◌,
}
use Prim.Native.Char.{Char, code}
use so4_oracle.Prelude.Result.{Result, ok, err}
use so4_oracle.Prelude.Text.{
  concat, show_nat, contains, split, trim, all_chars, is_ascii_alphanumeric, len_bytes,
}
use so4_oracle.Retry.{retry_with_backoff, max_backoff_delay_ms}
use so4_oracle.Rpc
use so4_oracle.Rpc.{
  RpcError, JsonRpcResponse, LedgerEntryData, rpc_post, parse_account_sequence_response,
}
use so4_oracle.Submit
use so4_oracle.Submit.{
  Node, SubmitError, rejected, transaction_failed, poll_timeout, submit_and_poll,
}
use so4_oracle.Chain.ScVal.{ScVal, bytes, address, Codec, strkey_to_sc_address}
use so4_oracle.Chain.Tx.{Transaction, build_invoke_tx, tx_max_time_secs}

-- The part of `Config` that the keeper reads.
pub record KeeperConfig : Type 0 where
  pub keeper_account_id : String
  pub oracle_contract_id : String
  pub order_handler_contract_id : String
  pub deposit_handler_contract_id : String
  pub withdrawal_handler_contract_id : String
  pub keeper_tx_fee : ℕ
  pub set_prices_tx_fee : ℕ
  pub network : String

-- `TransactionResult::from_xdr_base64(..).result`, as far as it is read.
pub data TxResultCode : Type 0 where
  tx_bad_seq : TxResultCode
  tx_other : TxResultCode

-- What the keeper calls outside the repository: the RPC node, the clocks (in nanoseconds), and the
-- codecs. `sign` makes the signed envelope; `base64_text` decodes base64 that holds UTF-8 text;
-- `debug` and `to_ascii_lowercase` are the standard library's, and `too_long` is the text of the XDR
-- error for too many bytes.
pub record Chain (W : Type 0) : Type 0 where
  pub node : Node W
  pub codec : Codec
  pub now : W → ℕ
  pub wall : W → ℕ
  pub sign : Transaction → Result String String
  pub account_request : String → Result RpcError String
  pub decode_entries : String → Result String (JsonRpcResponse (List String))
  pub entry_from_xdr : String → Result String LedgerEntryData
  pub tx_result_from_xdr : String → Option TxResultCode
  pub base64_text : String → Option String
  pub debug : List String → String
  pub too_long : String
  pub to_ascii_lowercase : String → String

pub record HandlerError : Type 0 where
  pub message : String
  pub submit : Option SubmitError

-- HandlerError::local
abbrev pub local : String → HandlerError
local message = record { message = message; submit = none }

unfoldable pub may_still_confirm : HandlerError → Bool
may_still_confirm e = elim e.submit [ none ↦ false | some s ↦ Submit.may_still_confirm s ]

diagnostic_events : HandlerError → List String
diagnostic_events e = elim e.submit [ none ↦ [] | some s ↦ Submit.diagnostic_events s ]

timeout_hash : SubmitError → Option String
timeout_hash (poll_timeout hash) = some hash
timeout_hash _ = none

unfoldable pub tx_hash : HandlerError → Option String
unfolding timeout_hash
tx_hash e = elim e.submit [ none ↦ none | some s ↦ timeout_hash s ]

-- MARKET_PAUSED_PATTERN
unfoldable pub is_market_paused_error : HandlerError → Bool
is_market_paused_error e = contains e.message "MarketPaused"

-- BUDGET_EXCEEDED_PATTERN
abbrev pub budget_exceeded_pattern : String
budget_exceeded_pattern = "Budget, ExceededLimit"

any_contains : List String → String → Bool
any_contains [] pattern = false
any_contains (s ∷ ss) pattern = contains s pattern || any_contains ss pattern

abbrev is_base64_char : Char → Bool
is_base64_char c = is_ascii_alphanumeric c || code c == b'+' || code c == b'/' || code c == b'='

pub data SequenceFetchError : Type 0 where
  network : String → SequenceFetchError
  missing_or_invalid : String → SequenceFetchError

abbrev pub sequence_error_text : SequenceFetchError → String
sequence_error_text (network msg) = msg
sequence_error_text (missing_or_invalid msg) = msg

abbrev is_network : SequenceFetchError → Bool
is_network (network msg) = true
is_network (missing_or_invalid msg) = false

module _ {W : Type 0} (chain : Chain W) (cfg : KeeperConfig) where
  open chain use {node, codec, wall, sign, base64_text}

  abbrev pub submitted : String → SubmitError → HandlerError
  submitted operation e = record {
    message = concat (operation ∷ " submit failed: " ∷ Submit.display chain.debug e ∷ []);
    submit = some e;
  }

  -- One piece of the message between quotes: base64 text that holds the pattern.
  budget_in_piece : String → Bool
  budget_in_piece piece =
      let trimmed = trim piece in
      not (ltb (len_bytes trimmed) 20)
      && all_chars is_base64_char trimmed
      && elim (base64_text trimmed) [ none ↦ false | some s ↦ contains s budget_exceeded_pattern ]

  budget_in_pieces : List String → Bool
  budget_in_pieces [] = false
  budget_in_pieces (p ∷ ps) = budget_in_piece p || budget_in_pieces ps

  unfoldable pub is_budget_exceeded : HandlerError → Bool
  unfolding any_contains budget_in_pieces budget_in_piece diagnostic_events
  is_budget_exceeded e =
      any_contains (diagnostic_events e) budget_exceeded_pattern
      || budget_in_pieces (split b'"' e.message)

  unfoldable pub is_bad_sequence_error : String → Bool
  is_bad_sequence_error text =
      let lower = chain.to_ascii_lowercase text in
      contains lower "bad_sequence" || contains lower "bad_seq" || contains lower "badseq"

  unfoldable pub is_bad_sequence_xdr : String → Bool
  is_bad_sequence_xdr xdr = elim (chain.tx_result_from_xdr xdr) [
    | none ↦ false
    | some code ↦ elim code [ tx_bad_seq ↦ true | tx_other ↦ false ]
  ]

  -- `stellar_rpc::get_account_sequence`
  rpc_account_sequence : W → Result RpcError ℕ × W
  rpc_account_sequence w = elim (chain.account_request cfg.keeper_account_id) [
    | err e ↦ (err e, w)
    | ok payload ↦
        let (reply, w') = rpc_post node.http_post payload w in
        (
          elim reply [
            | err e ↦ err e
            | ok body ↦
                parse_account_sequence_response chain.decode_entries chain.entry_from_xdr body
          ],
          w',
        )
  ]

  sequence_error : RpcError → SequenceFetchError
  sequence_error e =
      let message = concat ("getLedgerEntries request failed: " ∷ Rpc.display e ∷ []) in
      if Rpc.is_retryable e then network message else missing_or_invalid message

  get_account_sequence_once : W → Result SequenceFetchError ℕ × W
  unfolding rpc_account_sequence sequence_error
  get_account_sequence_once w =
      let (reply, w') = rpc_account_sequence w in
      (elim reply [ ok seq ↦ ok seq | err e ↦ err (sequence_error e) ], w')

  unfoldable pub get_account_sequence : W → Result SequenceFetchError ℕ × W
  unfolding get_account_sequence_once
  get_account_sequence w =
      retry_with_backoff is_network node.pause get_account_sequence_once 2 100 max_backoff_delay_ms
        w

  -- `SystemTime::now() + TX_MAX_TIME_SECS`, in seconds and saturating at 2^64 - 1.
  abbrev pub max_time : W → ℕ
  max_time w = min (wall w / 10 ^ 9 + tx_max_time_secs) (2 ^ 64 - 1)

  -- A `BytesM` holds at most 2^32 - 1 bytes.
  unfoldable pub key_scval : String → Result HandlerError ScVal
  key_scval key = elim (codec.hex_decode key) [
    | err e ↦ err (local (concat ("invalid key hex: " ∷ e ∷ [])))
    | ok key_bytes ↦
        if ltb (length key_bytes) (2 ^ 32)
        then ok (bytes key_bytes)
        else err (local (concat ("key bytes conversion failed: " ∷ chain.too_long ∷ [])))
  ]

  -- The call's transaction, signed: two arguments, the keeper's address and the key.
  unfoldable pub signed_call :
      (contract_id method : String) → ScVal → (sequence deadline : ℕ) → Result HandlerError String
  signed_call contract_id method key_arg sequence deadline =
      elim (strkey_to_sc_address codec cfg.keeper_account_id) [
        | err e ↦ err (local e)
        | ok keeper ↦
            elim (build_invoke_tx codec cfg.keeper_account_id contract_id method
              (address keeper ∷ key_arg ∷ []) cfg.keeper_tx_fee sequence deadline) [
                | err e ↦ err (local e)
                | ok tx ↦ elim (sign tx) [ err e ↦ err (local e) | ok xdr ↦ ok xdr ]
              ]
      ]

  abbrev rejected_for_sequence : SubmitError → Bool
  rejected_for_sequence (rejected status (some xdr)) = is_bad_sequence_xdr xdr
  rejected_for_sequence _ = false

  -- A transaction that landed and failed has used up its number; after a timeout nobody knows.
  abbrev cache_by_error : ℕ → SubmitError → Option ℕ
  cache_by_error sequence (transaction_failed events) = some (sequence + 1)
  cache_by_error sequence (poll_timeout hash) = none
  cache_by_error sequence _ = some sequence

  -- What the sequence cache holds behind a failed submission with `sequence`.
  unfoldable pub cache_after_error : ℕ → SubmitError → Option ℕ
  cache_after_error sequence e =
      if is_bad_sequence_error (Submit.display chain.debug e) || rejected_for_sequence e
      then none
      else cache_by_error sequence e

  -- The submission itself: the number, the cache and the result that are left.
  unfoldable pub submit_call :
      (method signed_xdr : String) → ℕ → W → Result HandlerError String × Option ℕ × W
  submit_call method signed_xdr sequence w =
      let (result, w') = submit_and_poll node signed_xdr w in
      elim result [
        | ok ledger ↦
            (ok (concat ("confirmed on ledger " ∷ show_nat ledger ∷ [])), some (sequence + 1), w')
        | err e ↦ (err (submitted method e), cache_after_error sequence e, w')
      ]

  -- Behind the sequence number.
  unfoldable pub call_with :
      (contract_id method : String) → ScVal → ℕ → W → Result HandlerError String × Option ℕ × W
  call_with contract_id method key_arg sequence w =
      elim (signed_call contract_id method key_arg sequence (max_time w)) [
        | err e ↦ (err e, some sequence, w)
        | ok signed_xdr ↦ submit_call method signed_xdr sequence w
      ]

  -- The number is fetched only where the cache is empty.
  unfoldable pub execute_handler :
      (contract_id method key : String) → Option ℕ → W → Result HandlerError String × Option ℕ × W
  execute_handler contract_id method key cache w = elim (key_scval key) [
    | err e ↦ (err e, cache, w)
    | ok key_arg ↦ elim cache [
      | some sequence ↦ call_with contract_id method key_arg sequence w
      | none ↦
          let (fetched, w') = get_account_sequence w in
          elim fetched [
            | err e ↦ (err (local (sequence_error_text e)), none, w')
            | ok sequence ↦ call_with contract_id method key_arg sequence w'
          ]
    ]
  ]
