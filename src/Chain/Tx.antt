-- ===== src/Chain/Tx.antt =====
-- chain/tx_builder.rs: the invocation that a keeper transaction carries. Its XDR form, its hash and
-- its signature are made by third-party crates, which enter as `sign`.
use so4_oracle.Prelude.{ℕ, ◌-◌, ◌^◌, Option, none, some, List, String, ltb, leb, if◌then◌else◌}
use so4_oracle.Prelude.Int.{ℤ, pos, negsuc}
use so4_oracle.Prelude.Result.{Result, ok, ◌>>=◌, ◌>>◌, ensure}
use so4_oracle.Prelude.Text.{len_bytes}
use so4_oracle.Chain.ScVal.{ScVal, ScAddress, Codec, account_strkey_to_muxed, strkey_to_sc_address}

-- TX_MAX_TIME_SECS
abbrev pub tx_max_time_secs : ℕ
tx_max_time_secs = 60

-- One `InvokeHostFunction` operation with no auth, no memo and no Soroban data, which is all that
-- the repository builds. `max_time` is `none` where there is no time bound; else the lower bound
-- is 0.
pub record Transaction : Type 0 where
  pub source_account : List ℕ
  pub fee : ℕ
  pub seq_num : ℤ
  pub max_time : Option ℕ
  pub contract_address : ScAddress
  pub function_name : String
  pub args : List ScVal

-- `sequence as i64`
abbrev as_i64 : ℕ → ℤ
as_i64 n = if ltb n (2 ^ 63) then pos n else negsuc (2 ^ 64 - 1 - n)

-- An `ScSymbol` has at most 32 bytes.
unfoldable pub build_invoke_tx :
    Codec
    → (source_account contract_id method : String) → (args : List ScVal)
    → (fee sequence max_time : ℕ) → Result String Transaction
build_invoke_tx codec source_account contract_id method args fee sequence max_time = do
  source_muxed ← account_strkey_to_muxed codec source_account
  contract_addr ← strkey_to_sc_address codec contract_id
  ensure (leb (len_bytes method) 32) "method name too long for ScSymbol"
  ok (record {
    source_account = source_muxed;
    fee = fee;
    seq_num = as_i64 sequence;
    max_time = if ltb 0 max_time then some max_time else none;
    contract_address = contract_addr;
    function_name = method;
    args = args;
  })
