-- ===== src/Rpc.antt =====
-- stellar_rpc.rs: the RPC error, the POST helper, and the replies that the keeper reads. The HTTP
-- client and the JSON and XDR decoders are third-party code and enter as arguments.
use so4_oracle.Prelude.{
  ℕ, ◌+◌, ◌-◌, ◌^◌, min, Bool, true, false, ◌||◌, not, Option, none, some, List, [], ◌∷◌, String,
  leb, ◌==◌, if◌then◌else◌,
}
use so4_oracle.Prelude.Int.{ℤ, pos, negsuc}
use so4_oracle.Prelude.Text.{show_nat, concat, trim, count_chars, take_chars}
use so4_oracle.Prelude.Result.{Result, ok, err, ◌>>=◌, ok_or, map_err}

-- The two `f64` fields of `balance_below_minimum` are kept as they are displayed.
pub data RpcError : Type 0 where
  network_error : String → RpcError
  unfunded_account : String → RpcError
  http_error : ℕ → String → RpcError
  json_error : String → RpcError
  rpc_fault : ℤ → String → RpcError
  balance_below_minimum : ℤ → String → String → RpcError

unfoldable pub is_retryable : RpcError → Bool
is_retryable (network_error msg) = true
is_retryable (http_error status body) = leb 500 status || status == 429
is_retryable (json_error msg) = false
is_retryable (rpc_fault code message) = false
is_retryable (balance_below_minimum stroops balance_xlm min_xlm) = false
is_retryable (unfunded_account msg) = false

unfoldable pub show_int : ℤ → String
show_int (pos n) = show_nat n
show_int (negsuc n) = concat ("-" ∷ show_nat (n + 1) ∷ [])

unfoldable pub show_http : String → String → String
show_http status String.[] = concat ("HTTP " ∷ status ∷ [])
show_http status body = concat ("HTTP " ∷ status ∷ ": " ∷ body ∷ [])

-- `Display for RpcError`
unfoldable pub display : RpcError → String
unfolding show_int show_http
display (network_error msg) = concat ("network error: " ∷ msg ∷ [])
display (http_error status body) = show_http (show_nat status) body
display (json_error msg) = concat ("JSON parse error: " ∷ msg ∷ [])
display (unfunded_account msg) = concat ("unfunded account: " ∷ msg ∷ [])
display (rpc_fault code message) = concat ("RPC fault " ∷ show_int code ∷ ": " ∷ message ∷ [])
display (balance_below_minimum stroops balance_xlm min_xlm) =
    concat ("balance " ∷ balance_xlm ∷ " XLM is below minimum " ∷ min_xlm ∷ " XLM" ∷ [])

pub record JsonRpcFault : Type 0 where
  pub code : ℤ
  pub message : String

pub record JsonRpcResponse (T : Type 0) : Type 0 where
  pub result : Option T
  pub error : Option JsonRpcFault

-- A JSON-RPC reply that decodes: a fault wins over a result, and one of them must be there. The
-- three `parse_*_response` functions begin with it, each with the error type of its module.
unfoldable pub take_result {ℓ} :
    {E : Type ℓ} {T : Type 0} (fault_error : RpcError → E) (missing : E)
    → Result E (JsonRpcResponse T)
    → Result E T
take_result fault_error missing decoded = do
  resp ← decoded
  elim resp.error [
    | some fault ↦ err (fault_error (rpc_fault fault.code fault.message))
    | none ↦ ok_or resp.result missing
  ]

-- What `LedgerEntryData::from_xdr_base64` makes of an entry.
pub data LedgerEntryData : Type 0 where
  account : ℤ → LedgerEntryData
  other : LedgerEntryData

-- u64::try_from(seq_num)?.saturating_add(1)
next_sequence : LedgerEntryData → Result RpcError ℕ
unfolding show_int
next_sequence (account (pos n)) = ok (min (n + 1) (2 ^ 64 - 1))
next_sequence (account (negsuc n)) =
    err
      (json_error (concat ("account sequence number " ∷ show_int (negsuc n) ∷ " is negative" ∷ [])))
next_sequence other = err (json_error "ledger entry is not an account")

first_entry : List String → Result RpcError String
first_entry [] = err (json_error "account ledger entry not found")
first_entry (entry ∷ rest) = ok entry

-- `decode` is `serde_json::from_str` at the reply's type, with the entries given by their `xdr`
-- field, and `from_xdr` is `LedgerEntryData::from_xdr_base64`.
unfoldable pub parse_account_sequence_response :
    (String → Result String (JsonRpcResponse (List String)))
    → (String → Result String LedgerEntryData)
    → String
    → Result RpcError ℕ
unfolding take_result next_sequence first_entry
parse_account_sequence_response decode from_xdr body = do
  entries ←
      take_result (λ e. e) (json_error "missing 'result' field")
        (elim (decode body) [ ok r ↦ ok r | err e ↦ err (json_error e) ])
  entry ← first_entry entries
  data_entry ← elim (from_xdr entry) [
    | ok d ↦ ok d
    | err e ↦ err (json_error (concat ("invalid ledger entry XDR: " ∷ e ∷ [])))
  ]
  next_sequence data_entry

-- http.rs: a response body in an error is trimmed and cut to 512 characters.
unfoldable pub truncate_error_body : String → String
truncate_error_body body =
    let trimmed = trim body in
    if leb (count_chars trimmed) 512 then trimmed else take_chars 512 trimmed

-- `http_post` answers a status and a body, or a transport error.
unfoldable pub rpc_post :
    {W : Type 0} (http_post : String → W → Result String (ℕ × String) × W)
    → String
    → W
    → Result RpcError String × W
rpc_post http_post payload w =
    let (reply, w') = http_post payload w in
    (
      elim reply [
        | err e ↦ err (network_error e)
        | ok (status, body) ↦
            if not (status == 200)
            then err (http_error status (truncate_error_body body))
            else ok body
      ],
      w',
    )

-- `decode` is `serde_json::from_str` at the reply's type, with the result given by its sequence.
unfoldable pub parse_latest_ledger_response :
    (String → Result String (JsonRpcResponse ℕ)) → String → Result RpcError ℕ
unfolding take_result
parse_latest_ledger_response decode body =
    take_result (λ e. e) (json_error "missing 'result' field") (map_err json_error (decode body))

-- `request` is the serialised request.
unfoldable pub get_latest_ledger_sequence :
    {W : Type 0} (http_post : String → W → Result String (ℕ × String) × W)
    → (String → Result String (JsonRpcResponse ℕ))
    → (request : Result String String) → W
    → Result RpcError ℕ × W
unfolding parse_latest_ledger_response
get_latest_ledger_sequence http_post decode (err e) w = (err (json_error e), w)
get_latest_ledger_sequence http_post decode (ok payload) w =
    let (reply, w') = rpc_post http_post payload w in
    (reply >>= parse_latest_ledger_response decode, w')
