-- ===== src/Keeper/Simulate.antt =====
-- keeper_loop.rs: the read-only contract calls, and what their answers say. `serde_json::Value` is
-- written out; its parser and its printer are third-party code.
use Prim.Native.String.{String}
use Prim.Native.Char.{code}
use text.Mathlib.Text.{get?}
use so4_oracle.Prelude.{
  ℕ, ◌^◌, ltb, leb, Bool, false, ◌||◌, ◌==◌, Option, none, some, List, [], ◌∷◌, str_eq,
  if◌then◌else◌,
}
use so4_oracle.Prelude.Result.{Result, ok, err, ◌>>=◌, ok_or, map_err}
use so4_oracle.Prelude.Text.{concat, len_bytes}
use so4_oracle.Retry.{retry_with_backoff, max_backoff_delay_ms}
use so4_oracle.Rpc
use so4_oracle.Rpc.{RpcError, rpc_post}
use so4_oracle.Prices.Median.{Checked}
use so4_oracle.Chain.ScVal.{ScVal, symbol, address, strkey_to_sc_address}
use so4_oracle.Chain.Tx.{Transaction, build_invoke_tx}
use so4_oracle.Keeper.Handler.{Chain, KeeperConfig}

mutual
  -- A number is kept as its `as_u64`.
  pub data Json : Type 0 where
    null : Json
    bool : Bool → Json
    number : Option ℕ → Json
    string : String → Json
    array : Items → Json
    object : Fields → Json

  pub data Items : Type 0 where
    nil : Items
    cons : Json → Items → Items

  pub data Fields : Type 0 where
    end : Fields
    field : String → Json → Fields → Fields

-- `simulate_request` is the unsigned envelope's XDR in base64 inside the JSON request.
pub record Reader : Type 0 where
  pub simulate_request : Transaction → Result String String
  pub decode_json : String → Result String Json
  pub show_json : Json → String

abbrev find_field : String → Fields → Option Json
find_field name end = none
find_field name (field k v rest) = if str_eq k name then some v else find_field name rest

-- `value.get(name)`: only objects have fields.
abbrev pub get : String → Json → Option Json
get name (object fields) = find_field name fields
get name null = none
get name (bool b) = none
get name (number n) = none
get name (string s) = none
get name (array items) = none

-- `first.or_else(|| second)`
abbrev pub or_else : {A : Type 0} → Option A → Option A → Option A
or_else (some a) second = some a
or_else none second = second

pub data SimulateError : Type 0 where
  build : String → SimulateError
  transport : RpcError → SimulateError
  response : String → SimulateError
  simulation : String → SimulateError
  -- Not an error of the source: the call has panicked.
  panicked : SimulateError

unfoldable pub is_retryable : SimulateError → Bool
is_retryable (build msg) = false
is_retryable (transport e) = Rpc.is_retryable e
is_retryable (response msg) = false
is_retryable (simulation msg) = false
is_retryable panicked = false

-- The text of the error; a panic has none.
unfoldable pub display : SimulateError → Checked String
display (build msg) = some msg
display (transport e) = some (Rpc.display e)
display (response msg) = some msg
display (simulation msg) = some (concat ("Simulation error: " ∷ msg ∷ []))
display panicked = none

-- MAX_RPC_ERROR_LOG_LEN
abbrev pub max_rpc_error_log_len : ℕ
max_rpc_error_log_len = 256

-- `none` is the panic of a slice that ends inside a character.
unfoldable pub truncate_rpc_error : String → Checked String
truncate_rpc_error s =
    if ltb max_rpc_error_log_len (len_bytes s)
    then (elim (get? s 0 max_rpc_error_log_len) [
      | none ↦ none
      | some cut ↦ some (concat (cut ∷ "…" ∷ []))
    ])
    else some s

abbrev simulation_error : Checked String → SimulateError
simulation_error none = panicked
simulation_error (some s) = simulation s

abbrev begins_as_address : String → Bool
begins_as_address String.[] = false
begins_as_address (String.◌∷◌ c s) = code c == b'C' || code c == b'G'

abbrev as_u32 : Json → Option ℕ
as_u32 (number (some n)) = if ltb n (2 ^ 32) then some n else none
as_u32 (number none) = none
as_u32 null = none
as_u32 (bool b) = none
as_u32 (string s) = none
as_u32 (array items) = none
as_u32 (object fields) = none

abbrev as_str : Json → Option String
as_str (string s) = some s
as_str null = none
as_str (bool b) = none
as_str (number n) = none
as_str (array items) = none
as_str (object fields) = none

module _ (reader : Reader) where
  unfoldable pub parse_u32_from_result : String → Result String ℕ
  parse_u32_from_result result = do
    value ← map_err (λ e. concat ("failed to parse result: " ∷ e ∷ [])) (reader.decode_json result)
    ok_or (or_else (as_u32 value) (elim (get "u32" value) [ none ↦ none | some v ↦ as_u32 v ]))
        (concat ("expected u32 value, got: " ∷ reader.show_json value ∷ []))

  unfoldable pub parse_key : Json → Result String String
  parse_key item = do
    bytes ←
        ok_or (or_else (get "bytes" item) (get "Bytes" item))
          (concat ("vector entry missing 'bytes' field: " ∷ reader.show_json item ∷ []))
    ok_or (as_str bytes) (concat ("'bytes' field is not a string: " ∷ reader.show_json item ∷ []))

  unfoldable pub parse_keys : Items → Result String (List String)
  unfolding parse_key
  parse_keys nil = ok []
  parse_keys (cons item rest) = do key ← parse_key item; keys ← parse_keys rest; ok (key ∷ keys)

  abbrev keys_of : Json → Result String (List String)
  keys_of (array items) = parse_keys items
  keys_of null = err (concat ("expected array, got: " ∷ reader.show_json null ∷ []))
  keys_of (bool b) = err (concat ("expected array, got: " ∷ reader.show_json (bool b) ∷ []))
  keys_of (number n) = err (concat ("expected array, got: " ∷ reader.show_json (number n) ∷ []))
  keys_of (string s) = err (concat ("expected array, got: " ∷ reader.show_json (string s) ∷ []))
  keys_of (object o) = err (concat ("expected array, got: " ∷ reader.show_json (object o) ∷ []))

  -- The vector stands under "vec" or "Vec", or is the value itself.
  unfoldable pub parse_bytes_vec_from_result : String → Result String (List String)
  parse_bytes_vec_from_result result = do
    value ← map_err (λ e. concat ("failed to parse result: " ∷ e ∷ [])) (reader.decode_json result)
    elim (or_else (get "vec" value) (get "Vec" value)) [ some v ↦ keys_of v | none ↦ keys_of value ]

  -- An error in the reply wins over a result.
  unfoldable pub read_simulation : String → Result SimulateError String
  read_simulation body = do
    reply ←
        map_err (λ e. response (concat ("Failed to parse RPC response: " ∷ e ∷ [])))
          (reader.decode_json body)
    elim (get "error" reply) [
      | some e ↦ err (simulation_error (truncate_rpc_error (reader.show_json e)))
      | none ↦ elim (get "result" reply) [
        | none ↦ err (response "Missing result in simulation response")
        | some v ↦ ok (reader.show_json v)
      ]
    ]

  module _ {W : Type 0} (chain : Chain W) (cfg : KeeperConfig) where
    -- What looks like a contract or an account is an address, and all else a symbol.
    unfoldable pub argument : String → Result String ScVal
    argument arg =
        if begins_as_address arg
        then (elim (strkey_to_sc_address chain.codec arg) [ ok a ↦ ok (address a) | err e ↦ err e ])
        else if leb (len_bytes arg) 32
        then ok (symbol arg)
        else err (concat ("arg '" ∷ arg ∷ "' too long for ScSymbol" ∷ []))

    unfoldable pub arguments : List String → Result String (List ScVal)
    unfolding argument
    arguments [] = ok []
    arguments (arg ∷ rest) = do val ← argument arg; vals ← arguments rest; ok (val ∷ vals)

    -- No time bound, and a sequence number that a simulation does not read.
    unfoldable pub simulation_payload :
        (contract_id method : String) → List String → Result SimulateError String
    unfolding arguments
    simulation_payload contract_id method args = do
      vals ← map_err build (arguments args)
      tx ←
          map_err build
            (build_invoke_tx chain.codec cfg.keeper_account_id contract_id method vals 100 0 0)
      map_err build (reader.simulate_request tx)

    unfoldable pub simulate_contract_call_once :
        (contract_id method : String) → List String → W → Result SimulateError String × W
    simulate_contract_call_once contract_id method args w =
        elim (simulation_payload contract_id method args) [
          | err e ↦ (err e, w)
          | ok payload ↦
              let (reply, w') = rpc_post chain.node.http_post payload w in
              (map_err transport reply >>= read_simulation, w')
        ]

    abbrev answered : Result SimulateError String → Checked (Result String String)
    answered (ok s) = some (ok s)
    answered (err e) = elim (display e) [ none ↦ none | some msg ↦ some (err msg) ]

    -- SIMULATE_RETRY_ATTEMPTS = 3, SIMULATE_RETRY_BASE_DELAY_MS = 100
    unfoldable pub simulate_contract_call :
        (contract_id method : String) → List String → W → Checked (Result String String) × W
    simulate_contract_call contract_id method args w =
        let (result, w') =
          retry_with_backoff is_retryable chain.node.pause
            (simulate_contract_call_once contract_id method args) 2 100 max_backoff_delay_ms w in
        (answered result, w')
