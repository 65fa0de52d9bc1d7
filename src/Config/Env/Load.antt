-- ===== src/Config/Env/Load.antt =====
-- config.rs, `Config::from_lookup`: the fields in their order, and what is returned.
pub mod Distinct
pub mod Ready
pub mod Sound
use so4_oracle.Prelude.{
  ℕ, not, Bool, true, false, Option, none, some, List, [], ◌∷◌, ◌++◌, String, str_eq, is_empty,
  if◌then◌else◌,
}
use so4_oracle.Prelude.Number.Unsigned.{parse_unsigned}
use so4_oracle.Prelude.Result.{Result, ok, err, ◌>>=◌, ◌>>◌, ensure, map_err}
use so4_oracle.Prelude.Text.{concat}
use so4_oracle.Sources.Token.{TokenConfig}
use so4_oracle.Config.Feed.{load_price_feed_config}
use so4_oracle.Config.Env.{
  Network, testnet, mainnet, EnvError, invalid_var, token_config, Env, Collected, collect,
  unless_blank, or_text, required, required_any, parse_or_default, parse_positive, validate_hex_key,
  validate_strkey, validate_admin_api_token, Parsers, Contracts, Config, roles_of, check_roles,
}

unfoldable pub network_of : Env → Collected Network
network_of env =
    let raw = or_text (env "STELLAR_NETWORK") "testnet" in
    if str_eq raw "testnet"
    then (testnet, [])
    else if str_eq raw "mainnet"
    then (mainnet, [])
    else (
      testnet,
      invalid_var "STELLAR_NETWORK"
            (concat ("unknown network '" ∷ raw ∷ "'; expected 'testnet' or 'mainnet'" ∷ []))
          ∷ [],
    )

abbrev coinbase_exchange_rates_url : String
coinbase_exchange_rates_url = "https://api.coinbase.com/v2/exchange-rates?currency="

abbrev binance_ticker_price_url : String
binance_ticker_price_url = "https://data-api.binance.vision/api/v3/ticker/price"

abbrev passphrase_of : Network → String
passphrase_of testnet = "Test SDF Network ; September 2015"
passphrase_of mainnet = "Public Global Stellar Network ; November 2015"

-- Mainnet has no default for its RPC node.
abbrev rpc_url_of : Env → Network → Collected String
rpc_url_of env testnet = (or_text (env "STELLAR_RPC_URL") "https://soroban-testnet.stellar.org", [])
rpc_url_of env mainnet = collect (required env "STELLAR_RPC_URL") ""

abbrev horizon_url_of : Env → Network → String
horizon_url_of env testnet = or_text (env "HORIZON_URL") "https://horizon-testnet.stellar.org"
horizon_url_of env mainnet = or_text (env "HORIZON_URL") "https://horizon.stellar.org"

-- The alias is for the testnet only.
abbrev oracle_of : Env → Network → Collected String
oracle_of env mainnet = collect (required env "ORACLE_CONTRACT_ID") ""
oracle_of env testnet = collect (required_any env "ORACLE_CONTRACT_ID" "ORACLE") ""

abbrev contract_of : Env → String → Collected String
contract_of env var = collect (required env var) ""

-- A secret that is set is checked.
unfoldable pub checked_of :
    Result EnvError String → (String → Result EnvError String) → Collected String
checked_of (err e) check = ("", e ∷ [])
checked_of (ok raw) check = if str_eq raw "" then ("", []) else collect (check raw) ""

-- A token that is blank is none.
unfoldable pub admin_api_token_of : Option String → Collected (Option String)
admin_api_token_of none = (none, [])
admin_api_token_of (some value) = elim (validate_admin_api_token value) [
  | ok _ ↦ (some value, [])
  | err reason ↦ (none, invalid_var "ADMIN_API_TOKEN" reason ∷ [])
]

unfoldable pub flatten : List (List EnvError) → List EnvError
flatten [] = []
flatten (es ∷ rest) = es ++ flatten rest

module _ {A F : Type 0} (p : Parsers A F) (env : Env) where
  abbrev network : Collected Network
  network = network_of env

  abbrev bind_addr : Collected A
  bind_addr = collect (parse_or_default p.parse_addr env "BIND_ADDR" "0.0.0.0:8080") p.default_addr

  abbrev tokens : Collected (List TokenConfig)
  tokens =
      collect
        (map_err token_config (
          load_price_feed_config p.from_json p.to_lowercase p.is_contract p.default_tokens
            (env "PRICE_FEED_CONFIG")))
        []

  abbrev keeper_private_key : Collected String
  keeper_private_key =
      checked_of (required env "KEEPER_PRIVATE_KEY")
        (λ raw. validate_hex_key p.hex_decode "KEEPER_PRIVATE_KEY" raw 32)

  abbrev keeper_secret_key : Collected String
  keeper_secret_key =
      checked_of (required env "KEEPER_SECRET_KEY")
        (λ raw. validate_strkey "KEEPER_SECRET_KEY" raw b'S' "S")

  abbrev keeper_account_id : Collected String
  keeper_account_id =
      checked_of (required env "KEEPER_ACCOUNT_ID")
        (λ raw. validate_strkey "KEEPER_ACCOUNT_ID" raw b'G' "G")

  abbrev keeper_index : Collected ℕ
  keeper_index = collect (parse_or_default (parse_unsigned 32) env "KEEPER_INDEX" "0") 0

  abbrev admin_api_token : Collected (Option String)
  admin_api_token = admin_api_token_of (unless_blank (env "ADMIN_API_TOKEN"))

  unfoldable pub parse_balance : Result EnvError F
  parse_balance = do
    value ← parse_or_default p.parse_f64 env "MIN_KEEPER_BALANCE_XLM" (p.show_f64 p.default_balance)
    ensure (p.is_finite value) (
        invalid_var "MIN_KEEPER_BALANCE_XLM"
          (concat ("must be a finite, non-negative number, got " ∷ p.show_f64 value ∷ [])))
    ensure (not (p.is_negative value)) (
        invalid_var "MIN_KEEPER_BALANCE_XLM"
          (concat ("must be a finite, non-negative number, got " ∷ p.show_f64 value ∷ [])))
    ok value

  abbrev min_keeper_balance_xlm : Collected F
  min_keeper_balance_xlm = collect parse_balance p.default_balance

  -- DEFAULT_SET_PRICES_TX_FEE, DEFAULT_KEEPER_TX_FEE, DEFAULT_PRICE_LOOP_MS, DEFAULT_KEEPER_LOOP_MS
  abbrev set_prices_tx_fee : Collected ℕ
  set_prices_tx_fee = collect (parse_positive 32 env "SET_PRICES_TX_FEE" "1000000") 1_000_000

  abbrev keeper_tx_fee : Collected ℕ
  keeper_tx_fee = collect (parse_positive 32 env "KEEPER_TX_FEE" "2000000") 2_000_000

  abbrev price_loop_ms : Collected ℕ
  price_loop_ms = collect (parse_positive 64 env "PRICE_LOOP_MS" "1000") 1_000

  abbrev keeper_loop_ms : Collected ℕ
  keeper_loop_ms = collect (parse_positive 64 env "KEEPER_LOOP_MS" "1500") 1_500

  abbrev contracts : Contracts
  contracts = record {
    oracle_contract_id = (oracle_of env network.0).0;
    role_store_contract_id = (contract_of env "ROLE_STORE").0;
    data_store_contract_id = (contract_of env "DATA_STORE").0;
    order_handler_contract_id = (contract_of env "ORDER_HANDLER").0;
    deposit_handler_contract_id = (contract_of env "DEPOSIT_HANDLER").0;
    withdrawal_handler_contract_id = (contract_of env "WITHDRAWAL_HANDLER").0;
    reader_contract_id = (contract_of env "READER").0;
  }

  -- Every error, in the order in which the fields are read.
  abbrev all_errors : List (List EnvError)
  all_errors =
      network.1
      ∷ bind_addr.1
      ∷ (rpc_url_of env network.0).1
      ∷ (oracle_of env network.0).1
      ∷ tokens.1
      ∷ (contract_of env "ROLE_STORE").1
      ∷ (contract_of env "DATA_STORE").1
      ∷ (contract_of env "ORDER_HANDLER").1
      ∷ (contract_of env "DEPOSIT_HANDLER").1
      ∷ (contract_of env "WITHDRAWAL_HANDLER").1
      ∷ (contract_of env "READER").1
      ∷ keeper_private_key.1
      ∷ keeper_secret_key.1
      ∷ keeper_account_id.1
      ∷ keeper_index.1
      ∷ admin_api_token.1
      ∷ min_keeper_balance_xlm.1
      ∷ set_prices_tx_fee.1
      ∷ keeper_tx_fee.1
      ∷ price_loop_ms.1
      ∷ keeper_loop_ms.1
      ∷ check_roles [] (roles_of contracts)
      ∷ []

  unfoldable pub settings : Config A F
  settings = record {
    bind_addr = bind_addr.0;
    network = network.0;
    network_passphrase = passphrase_of network.0;
    stellar_rpc_url = (rpc_url_of env network.0).0;
    horizon_url = horizon_url_of env network.0;
    contracts = contracts;
    keeper_private_key = keeper_private_key.0;
    keeper_secret_key = keeper_secret_key.0;
    keeper_account_id = keeper_account_id.0;
    keeper_index = keeper_index.0;
    admin_api_token = admin_api_token.0;
    pyth_api_key = unless_blank (env "PYTH_API_KEY");
    min_keeper_balance_xlm = min_keeper_balance_xlm.0;
    set_prices_tx_fee = set_prices_tx_fee.0;
    keeper_tx_fee = keeper_tx_fee.0;
    price_loop_ms = price_loop_ms.0;
    keeper_loop_ms = keeper_loop_ms.0;
    tokens = tokens.0;
    coinbase_base_url = coinbase_exchange_rates_url;
    binance_base_url = binance_ticker_price_url;
  }

  -- The configuration is returned only where there is no error at all.
  unfoldable pub from_lookup : Result (List EnvError) (Config A F)
  from_lookup =
      let errors = flatten all_errors in if is_empty errors then ok settings else err errors
