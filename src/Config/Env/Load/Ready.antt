-- ===== src/Config/Env/Load/Ready.antt =====
-- config.rs: what an accepted environment gives.
use so4_oracle.Prelude.{
  ◌≤◌, ◌<◌, ◌≡◌, arith, false, Bool-cases, inl, inr, some, [], String, is_empty, All,
}
use so4_oracle.Prelude.Result.{ok, transfer_ok}
use so4_oracle.Prelude.Text.{trim, count_chars}
use so4_oracle.Config.Feed.{load_price_feed_config}
use so4_oracle.Config.Env.{token_config, Env, is_blank, required, Parsers, Config, roles_of}
use so4_oracle.Config.Env.Load.{flatten, all_errors, settings, from_lookup}
use so4_oracle.Config.Env.Load.Distinct.{AreDistinct, check_roles-AreDistinct}
use so4_oracle.Config.Env.Load.Sound.{
  AllEmpty, is_empty-eq, flatten-AllEmpty, collect-ok, parse_positive-positive, IsHexKey,
  validate_hex_key-IsHexKey, checked_of-ok, filled_of_not_blank, required-not_blank,
  admin_api_token_of-long, map_err-eq-ok, oracle_of-not_blank, contract_of-not_blank,
}

pub record IsReady {A F : Type 0} (p : Parsers A F) (env : Env) (config : Config A F) : Type 0 where
  pub contracts_filled : All (λ role. is_blank role.1 ≡ false) (roles_of config.contracts)
  pub contracts_distinct : AreDistinct [] (roles_of config.contracts)
  pub private_key : IsHexKey p.hex_decode 32 config.keeper_private_key
  pub admin_token :
      (token : String) → config.admin_api_token ≡ some token → 32 ≤ count_chars (trim token)
  pub set_prices_fee : 0 < config.set_prices_tx_fee
  pub keeper_fee : 0 < config.keeper_tx_fee
  pub price_interval : 0 < config.price_loop_ms
  pub keeper_interval : 0 < config.keeper_loop_ms
  pub tokens_loaded :
      load_price_feed_config p.from_json p.to_lowercase p.is_contract p.default_tokens
        (env "PRICE_FEED_CONFIG")
      ≡ ok config.tokens

module _ {A F : Type 0} (p : Parsers A F) (env : Env) where
  settings-IsReady : AllEmpty (all_errors p env) → IsReady p env (settings p env)
  unfolding settings
  settings-IsReady
        (
          network,
          (
            bind,
            (
              rpc,
              (
                oracle,
                (
                  tokens,
                  (
                    role_store,
                    (
                      data_store,
                      (
                        order,
                        (
                          deposit,
                          (
                            withdrawal,
                            (
                              reader,
                              (
                                private_key,
                                (
                                  secret_key,
                                  (
                                    account,
                                    (
                                      index,
                                      (
                                        token,
                                        (
                                          balance,
                                          (
                                            prices_fee,
                                            (keeper_fee, (price_loop, (keeper_loop, (roles, end)))),
                                          ),
                                        ),
                                      ),
                                    ),
                                  ),
                                ),
                              ),
                            ),
                          ),
                        ),
                      ),
                    ),
                  ),
                ),
              ),
            ),
          ),
        ) =
      let (raw, decoded) =
        checked_of-ok (required env "KEEPER_PRIVATE_KEY") _
          (λ s h. filled_of_not_blank s (required-not_blank env _ s h)) private_key in
      record {
        contracts_filled = (
          oracle_of-not_blank env _ oracle,
          (
            contract_of-not_blank env "ROLE_STORE" role_store,
            (
              contract_of-not_blank env "DATA_STORE" data_store,
              (
                contract_of-not_blank env "ORDER_HANDLER" order,
                (
                  contract_of-not_blank env "DEPOSIT_HANDLER" deposit,
                  (
                    contract_of-not_blank env "WITHDRAWAL_HANDLER" withdrawal,
                    (contract_of-not_blank env "READER" reader, tt),
                  ),
                ),
              ),
            ),
          ),
        );
        contracts_distinct = check_roles-AreDistinct [] _ roles;
        private_key = validate_hex_key-IsHexKey p.hex_decode _ raw 32 _ decoded;
        admin_token = λ t h. admin_api_token_of-long _ t token h;
        set_prices_fee = parse_positive-positive 32 env _ _ _ (collect-ok _ _ prices_fee);
        keeper_fee = parse_positive-positive 32 env _ _ _ (collect-ok _ _ keeper_fee);
        price_interval = parse_positive-positive 64 env _ _ _ (collect-ok _ _ price_loop);
        keeper_interval = parse_positive-positive 64 env _ _ _ (collect-ok _ _ keeper_loop);
        tokens_loaded = map_err-eq-ok token_config _ _ (collect-ok _ _ tokens);
      }

  -- Where the environment is accepted, the settings are complete: every contract has an ID, no two
  -- contracts have the same one up to blanks round it, the private key is 32 bytes in hexadecimal, an
  -- admin token has at least 32 characters, no fee and no interval is 0, and the tokens are those of
  -- an accepted price feed configuration.
  pub from_lookup-IsReady :
      (config : Config A F) → from_lookup p env ≡ ok config → IsReady p env config
  unfolding from_lookup
  from_lookup-IsReady config h = elim (Bool-cases (is_empty (flatten (all_errors p env)))) [
    | inl none_met ↦
        transfer_ok (IsReady p env) (rw none_met at h)
          (settings-IsReady (flatten-AllEmpty _ (is_empty-eq _ none_met)))
    | inr some_met ↦ absurd (ground arith)
  ]
