-- ===== src/Keeper/Pending/Fetch.antt =====
-- keeper_loop.rs, `get_pending_keys`: the keys of one kind that wait on the contract.
use so4_oracle.Prelude.{ℕ, ◌==◌, none, some, List, [], ◌∷◌, String, length, if◌then◌else◌}
use so4_oracle.Prelude.Result.{Result, ok, err}
use so4_oracle.Prelude.Text.{concat, show_nat}
use so4_oracle.Prices.Median.{Checked}
use so4_oracle.State.{Loop}
use so4_oracle.Keeper.Handler.{Chain, KeeperConfig}
use so4_oracle.Keeper.Pending.{next_start, rotate}
use so4_oracle.Keeper.Simulate.{
  Reader, simulate_contract_call, parse_u32_from_result, parse_bytes_vec_from_result,
}

-- The contract that is read, and the one whose data it reads.
pub record ReaderConfig : Type 0 where
  pub reader_contract_id : String
  pub data_store_contract_id : String

-- A panic, or an answer with the state that is left.
abbrev pub Outcome : Type 0 → Type 0
Outcome W = Checked (Result String (List String) × Loop W)

module _ {W : Type 0} (chain : Chain W) (cfg : KeeperConfig) (reader : Reader)
    (rc : ReaderConfig) where
  abbrev pub simulate : String → List String → W → Checked (Result String String) × W
  simulate method args = simulate_contract_call reader chain cfg rc.reader_contract_id method args

  -- The keys are read, counted against `count`, and turned so that `start` comes first.
  unfoldable pub accept_keys :
      (keys_method : String) → (count start : ℕ) → String → Result String (List String)
  accept_keys keys_method count start result = elim (parse_bytes_vec_from_result reader result) [
    | err e ↦ err e
    | ok keys ↦
        if length keys == count
        then ok (rotate start keys)
        else err (
            concat (
              "expected "
              ∷ show_nat count
              ∷ " keys from "
              ∷ keys_method
              ∷ ", got "
              ∷ show_nat (length keys)
              ∷ []))
  ]

  -- With a count that is not 0: the shared start index moves on, and its previous value is used.
  unfoldable pub fetch_keys : (keys_method : String) → (count : ℕ) → Loop W → Outcome W
  fetch_keys keys_method count s =
      let start = s.app.pending_key_start_index in
      let app = record s.app { pending_key_start_index = next_start count start } in
      let (reply, w) =
        simulate keys_method (rc.data_store_contract_id ∷ show_nat start ∷ show_nat count ∷ [])
          s.world in
      let s' : Loop W = record { app = app; world = w } in
      elim reply [
        | none ↦ none
        | some (err e) ↦ some (err e, s')
        | some (ok result) ↦ some (accept_keys keys_method count start result, s')
      ]

  unfoldable pub get_pending_keys : (count_method keys_method : String) → Loop W → Outcome W
  get_pending_keys count_method keys_method s =
      let (reply, w) = simulate count_method (rc.data_store_contract_id ∷ []) s.world in
      let s' : Loop W = record s { world = w } in
      elim reply [
        | none ↦ none
        | some (err e) ↦ some (err e, s')
        | some (ok result) ↦ elim (parse_u32_from_result reader result) [
          | err e ↦ some (err e, s')
          | ok count ↦ if count == 0 then some (ok [], s') else fetch_keys keys_method count s'
        ]
      ]
