-- ===== src/Keeper/Publish.antt =====
-- keeper_loop.rs, `set_prices_on_chain`: the transaction that writes prices to the contract.
use so4_oracle.Prelude.{ℕ, [], ◌∷◌, map, String}
use so4_oracle.Prelude.Result.{Result, ok, err}
use so4_oracle.Prelude.Text.{concat, show_nat}
use so4_oracle.Prelude.Map.{Map}
use so4_oracle.State.{CachedPrice}
use so4_oracle.Submit.{submit_and_poll}
use so4_oracle.Chain.ScVal.{ScVal, encode_prices_vec}
use so4_oracle.Chain.Tx.{build_invoke_tx}
use so4_oracle.Keeper.Handler.{
  Chain, KeeperConfig, HandlerError, local, submitted, get_account_sequence, sequence_error_text,
  max_time,
}

module _ {W : Type 0} (chain : Chain W) (cfg : KeeperConfig) where
  -- The signed call `set_prices(prices)`.
  unfoldable pub signed_prices : ScVal → (sequence deadline : ℕ) → Result HandlerError String
  signed_prices prices_scval sequence deadline =
      elim (build_invoke_tx chain.codec cfg.keeper_account_id cfg.oracle_contract_id "set_prices"
        (prices_scval ∷ []) cfg.set_prices_tx_fee sequence deadline) [
          | err e ↦ err (local e)
          | ok tx ↦ elim (chain.sign tx) [ err e ↦ err (local e) | ok xdr ↦ ok xdr ]
        ]

  abbrev confirmed : ℕ → String
  confirmed ledger = concat ("confirmed on ledger " ∷ show_nat ledger ∷ [])

  -- Prices that cannot be encoded are reported before the sequence number is fetched.
  unfoldable pub set_prices_on_chain : Map CachedPrice → W → Result HandlerError String × W
  set_prices_on_chain prices w = elim (encode_prices_vec chain.codec (map (λ e. e.1) prices)) [
    | err e ↦ (err (local e), w)
    | ok prices_scval ↦
        let (fetched, w1) = get_account_sequence chain cfg w in
        elim fetched [
          | err e ↦ (err (local (sequence_error_text e)), w1)
          | ok sequence ↦ elim (signed_prices prices_scval sequence (max_time chain cfg w1)) [
            | err e ↦ (err e, w1)
            | ok signed_xdr ↦
                let (result, w2) = submit_and_poll chain.node signed_xdr w1 in
                elim result [
                  | err e ↦ (err (submitted chain cfg "set_prices" e), w2)
                  | ok ledger ↦ (ok (confirmed ledger), w2)
                ]
          ]
        ]
  ]
