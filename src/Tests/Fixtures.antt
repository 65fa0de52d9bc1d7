-- ===== src/Tests/Fixtures.antt =====
-- A node that echoes what is posted, and whose verdict depends on the method that was called. The
-- world counts the posts, and is its own clock.
use so4_oracle.Keeper.Item.View.{is_some}
use so4_oracle.Prelude.{
  ℕ, ◌+◌, ◌≡◌, refl, Bool, true, Option, false, none, some, List, [], ◌∷◌, String, str_eq,
  if◌then◌else◌,
}
use so4_oracle.Prelude.Result.{Result, ok, err}
use so4_oracle.Metrics.{Metrics}
use so4_oracle.State.{KeyTables}
use so4_oracle.Rpc.{JsonRpcResponse}
use so4_oracle.Submit.{Node, GetTransactionResult}
use so4_oracle.Chain.ScVal.{Codec, public_key_ed25519, contract}
use so4_oracle.Keeper.Handler.{Chain, KeeperConfig}
use so4_oracle.Keeper.Run.{Run, skipped}

abbrev pub replied : {T : Type 0} → T → Result String (JsonRpcResponse T)
replied t = ok (record { result = some t; error = none })

abbrev pub with_status : String → List String → GetTransactionResult
with_status status events = record {
  status = status;
  ledger = some 7;
  diagnostic_events_xdr = some events;
}

-- `verdict` is the reply to a poll for an execution; freezes succeed.
abbrev pub echo : Result String (JsonRpcResponse GetTransactionResult) → Node ℕ
echo verdict = record {
  http_post = λ payload w. (ok (200, payload), w + 1);
  pause = λ d w. w;
  sleep = λ d w. w;
  encode_send = λ xdr. ok xdr;
  encode_get = λ hash. ok hash;
  decode_send =
      λ body. replied (record { status = "PENDING"; hash = body; error_result_xdr = none });
  decode_get =
      λ body. if str_eq body "freeze_order" then replied (with_status "SUCCESS" []) else verdict;
}

-- The key "no hex" is not hexadecimal.
abbrev codec : Codec
codec = record {
  strkey_from_string =
      λ s. if str_eq s "GKEEPER" then ok (public_key_ed25519 (1 ∷ [])) else ok (contract (2 ∷ []));
  hex_decode = λ s. if str_eq s "no hex" then err "odd length" else ok (171 ∷ []);
}

abbrev pub chain : Result String (JsonRpcResponse GetTransactionResult) → Chain ℕ
chain verdict = record {
  node = echo verdict;
  codec = codec;
  now = λ w. w;
  wall = λ w. w;
  sign = λ tx. ok tx.function_name;
  account_request = λ account. ok account;
  decode_entries = λ body. err "no entries";
  entry_from_xdr = λ xdr. err "no entry";
  tx_result_from_xdr = λ xdr. none;
  base64_text = λ s. none;
  debug = λ events. elim events [ [] ↦ "no events" | e ∷ es ↦ e ];
  too_long = "too long";
  to_ascii_lowercase = λ s. s;
}

abbrev pub confirming : Chain ℕ
confirming = chain (replied (with_status "SUCCESS" []))

abbrev pub silent : Chain ℕ
silent = chain (replied (with_status "NOT_FOUND" []))

abbrev pub refusing : Chain ℕ
refusing = chain (replied (with_status "FAILED" []))

abbrev pub over_budget : Chain ℕ
over_budget = chain (replied (with_status "FAILED" ("Budget, ExceededLimit" ∷ [])))

abbrev pub paused : Chain ℕ
paused = chain (replied (with_status "FAILED" ("MarketPaused" ∷ [])))

abbrev pub cfg : KeeperConfig
cfg = record {
  keeper_account_id = "GKEEPER";
  oracle_contract_id = "CORACLE";
  order_handler_contract_id = "CORDERS";
  deposit_handler_contract_id = "CDEPOSITS";
  withdrawal_handler_contract_id = "CWITHDRAWALS";
  keeper_tx_fee = 100;
  set_prices_tx_fee = 100;
  network = "testnet";
}

abbrev pub no_keys : KeyTables
no_keys = record {
  in_flight_keys = [];
  freeze_failure_counts = [];
  frozen_order_blacklist = [];
  execution_failure_counts = [];
}

abbrev no_metrics : Metrics
no_metrics = record {
  counters = record {
    price_cycle_count = 0;
    price_cycle_latency_ms = 0;
    token_fetch_ok = 0;
    token_fetch_failures = 0;
    keeper_cycle_count = 0;
    keeper_cycle_latency_ms = 0;
    orders_executed = 0;
    deposits_executed = 0;
    withdrawals_executed = 0;
    submit_failures = 0;
    keeper_balance_low_count = 0;
    prices_stale_count = 0;
    last_metrics_update = 0;
  };
  token_source_fetch_failures = [];
  token_source_outlier_rejections = [];
}

abbrev pub start : Run ℕ
start = record {
  app = record {
    keys = no_keys;
    failures = record { capacity = 256; items = [] };
    keeper_status = record {
      pending_orders = 0;
      pending_deposits = 0;
      pending_withdrawals = 0;
      last_executions = [];
    };
    price_cache = record {
      prices = [];
      last_updated = none;
      last_submitted_medians = none;
      last_full_submission = none;
    };
    pending_key_start_index = 0;
    cycle_status = record {
      price_cycle_running = false;
      keeper_cycle_running = false;
      last_price_cycle_at = none;
      last_keeper_cycle_at = none;
      last_keeper_cycle_latency_ms = none;
    };
    metrics = no_metrics;
    keeper_balance_below_min = false;
    keeper_cycle_generation = 0;
  };
  summary = skipped false false;
  sequence_cache = some 41;
  world = 0;
}

pub true_ne_false : ◌≡◌ {A = Bool} false true → ⊥
true_ne_false e = cc

-- The value of a run that ends.
unfoldable pub force : {A : Type 0} (o : Option A) → is_some o ≡ true → A
force none e = absurd (true_ne_false e)
force (some a) e = a

pub force-eq : {A : Type 0} (o : Option A) (e : is_some o ≡ true) → o ≡ some (force o e)
unfolding force
force-eq none e = absurd (true_ne_false e)
force-eq (some a) e = refl
