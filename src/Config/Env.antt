-- ===== src/Config/Env.antt =====
-- config.rs, `Config::from_lookup`: the environment's variables, with every problem reported at once.
-- `lookup` is the environment. A field that is wrong has its default, and its error is on the list.
pub mod Load
use Prim.Native.Char.{Char, code}
use Prim.Native.String.{String as Text}
use so4_oracle.Prelude.{
  ℕ, ◌==◌, leb, ltb, not, Bool, true, false, ◌&&◌, ◌||◌, Option, none, some, List, [], ◌∷◌, ◌++◌,
  String, str_eq, is_empty, length, if◌then◌else◌,
}
use so4_oracle.Prelude.Map.{Map, lookup as find, insert}
use so4_oracle.Prelude.Number.Unsigned.{parse_unsigned}
use so4_oracle.Prelude.Result.{Result, ok, err, ◌>>=◌, ◌>>◌, ensure, ok_or, map_err}
use so4_oracle.Prelude.Text.{concat, show_nat, trim, count_chars, len_bytes}
use so4_oracle.Sources.Token.{TokenConfig}
use so4_oracle.Config.{ConfigError, show_config_error}
use so4_oracle.Config.Feed.{load_price_feed_config}

pub data Network : Type 0 where
  testnet : Network
  mainnet : Network

-- EnvError
pub data EnvError : Type 0 where
  missing_var : String → EnvError
  invalid_var : (var reason : String) → EnvError
  token_config : ConfigError → EnvError

unfoldable pub show_env_error : EnvError → String
show_env_error (missing_var var) = concat ("required env var '" ∷ var ∷ "' is not set" ∷ [])
show_env_error (invalid_var var reason) = concat ("invalid env var '" ∷ var ∷ "': " ∷ reason ∷ [])
show_env_error (token_config error) =
    concat ("invalid PRICE_FEED_CONFIG: " ∷ show_config_error error ∷ [])

abbrev pub Env : Type 0
Env = String → Option String

-- A value, and the errors that were met on the way.
abbrev pub Collected : Type 0 → Type 0
Collected A = A × List EnvError

-- `collect_or_default!`
abbrev pub collect : {A : Type 0} → Result EnvError A → A → Collected A
collect (ok value) default = (value, [])
collect (err e) default = (default, e ∷ [])

abbrev pub is_blank : String → Bool
is_blank value = str_eq (trim value) ""

abbrev unless_blank : Option String → Option String
unless_blank none = none
unless_blank (some value) = if is_blank value then none else some value

abbrev or_else : Option String → Option String → Option String
or_else none second = second
or_else (some s) second = some s

abbrev or_text : Option String → String → String
or_text none default = default
or_text (some s) default = s

unfoldable pub required : Env → String → Result EnvError String
required env var = ok_or (unless_blank (env var)) (missing_var var)

unfoldable pub required_any : Env → (primary fallback : String) → Result EnvError String
required_any env primary fallback =
    ok_or (or_else (unless_blank (env primary)) (unless_blank (env fallback)))
      (missing_var "ORACLE_CONTRACT_ID' (or fallback alias 'ORACLE')")

unfoldable pub parse_or_default :
    {A : Type 0} → (String → Result String A) → Env → (var default : String) → Result EnvError A
parse_or_default parse env var default =
    map_err (invalid_var var) (parse (or_text (unless_blank (env var)) default))

-- An integer of the environment that must not be 0.
unfoldable pub parse_positive : (bits : ℕ) → Env → (var default : String) → Result EnvError ℕ
parse_positive bits env var default = do
  n ← parse_or_default (parse_unsigned bits) env var default
  ensure (not (n == 0)) (invalid_var var "must be greater than 0")
  ok n

-- `hex_decode` is `hex::decode`.
unfoldable pub validate_hex_key :
    (hex_decode : String → Result String (List ℕ))
    → (var value : String) → (expected_len : ℕ) → Result EnvError String
validate_hex_key hex_decode var value expected_len = do
  bytes ← map_err (invalid_var var) (hex_decode value)
  ensure (length bytes == expected_len) (
      invalid_var var (
        concat
          ("expected " ∷ show_nat expected_len ∷ " bytes, got " ∷ show_nat (length bytes) ∷ [])))
  ok value

abbrev is_base32 : Char → Bool
is_base32 c = (leb b'A' (code c) && leb (code c) b'Z') || (leb b'2' (code c) && leb (code c) b'7')

-- `value.chars().find(..)`
unfoldable pub find_bad : String → Option Char
find_bad Text.[] = none
find_bad (Text.◌∷◌ c s) = let rest = find_bad s in if is_base32 c then rest else some c

unfoldable pub starts_with : ℕ → String → Bool
starts_with prefix Text.[] = false
starts_with prefix (Text.◌∷◌ c s) = code c == prefix

-- Only the shape of a strkey: its length, its first letter and its alphabet.
unfoldable pub validate_strkey :
    (var value : String) → (prefix : ℕ) → (prefix_text : String) → Result EnvError String
validate_strkey var value prefix prefix_text = do
  ensure (len_bytes value == 56)
      (invalid_var var (concat ("expected 56 characters, got " ∷ show_nat (len_bytes value) ∷ [])))
  ensure (starts_with prefix value)
      (invalid_var var (concat ("must start with '" ∷ prefix_text ∷ "'" ∷ [])))
  elim (find_bad value) [
    | none ↦ ok value
    | some bad ↦ err (
        invalid_var var
          (concat ("invalid base32 character '" ∷ Text.◌∷◌ bad "" ∷ "' (expected A-Z, 2-7)" ∷ [])))
  ]

-- MIN_ADMIN_API_TOKEN_LEN, ADMIN_API_TOKEN_PLACEHOLDER
abbrev pub min_admin_api_token_len : ℕ
min_admin_api_token_len = 32

abbrev admin_api_token_placeholder : String
admin_api_token_placeholder = "your-admin-api-token-here"

unfoldable pub validate_admin_api_token : String → Result String (Unit {0})
validate_admin_api_token token = do
  ensure (not (str_eq (trim token) admin_api_token_placeholder))
      "is still the .env.example placeholder; generate a random token"
  ensure (not (ltb (count_chars (trim token)) min_admin_api_token_len))
      "must be at least 32 characters (e.g. `openssl rand -hex 32`)"

-- What the standard library and the crates read for the configuration: socket addresses `A`, floats
-- `F`, hex, JSON, letters and contract strkeys.
pub record Parsers (A F : Type 0) : Type 0 where
  pub parse_addr : String → Result String A
  pub default_addr : A
  pub parse_f64 : String → Result String F
  pub default_balance : F
  pub is_finite : F → Bool
  pub is_negative : F → Bool
  pub show_f64 : F → String
  pub hex_decode : String → Result String (List ℕ)
  pub from_json : String → Result String (List TokenConfig)
  pub to_lowercase : String → String
  pub is_contract : String → Bool
  pub default_tokens : String

-- The seven contracts, in the order of their check.
pub record Contracts : Type 0 where
  pub oracle_contract_id : String
  pub role_store_contract_id : String
  pub data_store_contract_id : String
  pub order_handler_contract_id : String
  pub deposit_handler_contract_id : String
  pub withdrawal_handler_contract_id : String
  pub reader_contract_id : String

pub record Config (A F : Type 0) : Type 0 where
  pub bind_addr : A
  pub network : Network
  pub network_passphrase : String
  pub stellar_rpc_url : String
  pub horizon_url : String
  pub contracts : Contracts
  pub keeper_private_key : String
  pub keeper_secret_key : String
  pub keeper_account_id : String
  pub keeper_index : ℕ
  pub admin_api_token : Option String
  pub pyth_api_key : Option String
  pub min_keeper_balance_xlm : F
  pub set_prices_tx_fee : ℕ
  pub keeper_tx_fee : ℕ
  pub price_loop_ms : ℕ
  pub keeper_loop_ms : ℕ
  pub tokens : List TokenConfig
  pub coinbase_base_url : String
  pub binance_base_url : String

abbrev pub roles_of : Contracts → List (String × String)
roles_of c =
    ("ORACLE_CONTRACT_ID", c.oracle_contract_id)
    ∷ ("ROLE_STORE", c.role_store_contract_id)
    ∷ ("DATA_STORE", c.data_store_contract_id)
    ∷ ("ORDER_HANDLER", c.order_handler_contract_id)
    ∷ ("DEPOSIT_HANDLER", c.deposit_handler_contract_id)
    ∷ ("WITHDRAWAL_HANDLER", c.withdrawal_handler_contract_id)
    ∷ ("READER", c.reader_contract_id)
    ∷ []

abbrev same_contract : (var previous value : String) → EnvError
same_contract var previous value = invalid_var var (
    concat (
      "is set to the same contract ID as " ∷ previous ∷ " (" ∷ value
      ∷ "); each contract role must point at a distinct contract" ∷ []))

-- `for (var, value) in contract_roles`
unfoldable pub check_roles : Map String → List (String × String) → List EnvError
check_roles seen [] = []
check_roles seen ((var, value) ∷ rest) =
    let skipped = check_roles seen rest in
    let noted = check_roles (insert (trim value) var seen) rest in
    if is_blank value then skipped else elim (find (trim value) seen) [
      | some previous ↦ same_contract var previous (trim value) ∷ skipped
      | none ↦ noted
    ]
