-- ===== src/Lib.antt =====
-- Verification library of so4-oracle, the price oracle and keeper of the SO4 markets.
--
-- The service runs two loops. The price loop asks its sources for the price of each token, aggregates
-- the answers (oracle/src/prices.rs) and caches them signed. The keeper loop (oracle/src/keeper_loop.rs)
-- writes the cached prices on-chain and then executes the pending orders, deposits and withdrawals, one
-- transaction each. A transaction is built (oracle/src/chain), sent and polled for
-- (oracle/src/submit.rs) over the Soroban RPC (oracle/src/stellar_rpc.rs), with retries
-- (oracle/src/retry.rs). What the service remembers between cycles is in oracle/src/state.rs.
--
-- Prelude      Boolean tests, lists, association lists, signed integers, texts and results.
-- Retry        oracle/src/retry.rs: `retry_with_backoff`. A world `W` stands for everything outside the
--              program that the closure and the sleeps change. `left` is `max_attempts - 1`.
-- Rpc          oracle/src/stellar_rpc.rs and oracle/src/http.rs: `RpcError`, `rpc_post`,
--              `parse_account_sequence_response`, `get_latest_ledger_sequence`.
-- Submit       oracle/src/submit.rs: `send_transaction_xdr`, `poll_until_confirmed`, `submit_and_poll`.
--              The record `Node` is the HTTP client, the sleeps and the JSON codec.
-- Chain        oracle/src/chain/scval.rs and oracle/src/chain/tx_builder.rs. The record `Codec` is the
--              strkey and hex decoding.
-- State        oracle/src/state.rs: the records, the ring of failures (State.Ring) and the limiter of
--              admin logins (State.Limiter).
-- Metrics      oracle/src/metrics.rs: the counters of the two loops; Metrics.Http the counters of HTTP
--              requests with `track_metrics` of oracle/src/api/mod.rs, and Metrics.Labels the escaping
--              of a label's value.
-- Signing      oracle/src/signing.rs: the message that is signed for a price, and the keys. The record
--              `Signer` is hex and ed25519.
-- Keeper       oracle/src/keeper_loop.rs. Keeper.Handler is `execute_handler` with the errors and the
--              sequence cache; the record `Chain` is the node, the clocks, the codecs and the signer.
--              Keeper.Run is what a cycle carries along. Keeper.Item holds the loops of
--              `execute_keeper_cycle` over orders, deposits and withdrawals: `process_order` is the body
--              of the first, `process_item` of the two others. Below it, Tables and View say what an
--              item does to the tables, Moves lists the changes of the tables, Invariant, Outcomes and
--              Abandon prove from that, and Machine is the abstract machine of a key, whose steps the
--              items make in Steps. Keeper.Threshold is the choice of the prices to write, and
--              Keeper.Publish the transaction that writes them. Keeper.Pending is the order of the
--              pending keys and the sweep of expired claims, Keeper.Simulate the simulated reads with
--              their parsers, and Keeper.Pending.Fetch `get_pending_keys`. Keeper.Balance is
--              oracle/src/keeper.rs with the balance parser of stellar_rpc.rs. Keeper.Cycle puts them
--              together as `execute_keeper_cycle`; Keeper.Cycle.Timed is `run_keeper_cycle`, Keeper.Cycle.Rounds
--              `run_keeper_loop` up to the shutdown, Keeper.Cycle.Gates about the cycles that must not
--              submit, and Keeper.Cycle.Bounded and Keeper.Cycle.Sustained about the key tables. Keeper.Snapshot is `keeper_status_snapshot` of oracle/src/state.rs beside
--              the single writes of the loops, which Keeper.Snapshot.Steps has as a step relation.
-- Float        The `f64` operations as a record, a parameter. The theorems that need a law of them, those
--              of the price window and of the latencies' histogram, name it as a hypothesis.
-- Prices       oracle/src/prices.rs: Sort, Median, Cluster, Outliers and Aggregate, in the order in which
--              `aggregate_prices` calls them. `none` of `Checked` is a panic of the source: an overflow
--              of `i128`, an index out of bounds or a slice that ends inside a character.
-- Sources      Sources.Token is the token's settings (shared/config/src/lib.rs), Sources.Web the replies
--              of the price services and the record `Web` of the HTTP client, the clocks and the JSON
--              codecs. Sources.Decimal is `parse_price_to_precision`; Sources.Binance, Sources.Coinbase,
--              Sources.Pyth and Sources.Fixed are oracle/src/binance.rs, coinbase.rs, pyth.rs and fixed.rs.
-- PriceLoop    oracle/src/price_loop.rs. PriceLoop.Source is one price of one source with its retries,
--              PriceLoop.Build the signed price of one token, PriceLoop.Cycle `execute_price_cycle` and
--              `run_price_cycle`, and PriceLoop.Cycle.Traced what its cache rests on.
-- Auth         oracle/src/auth.rs: `constant_time_eq`, on bytes.
-- Api          oracle/src/api: the gate `AdminAuth` in front of the admin's routes, the clearing of a
--              blacklisted key and the list of prices; Api.Ready is readiness with the cache of its
--              outside checks, without the counters that its answer shows; Api.Submissions the list of
--              failures, and Api.Status the states of the loops and the balance, where a float is shown
--              as its text.
-- Config       shared/config/src/lib.rs (Config.Tokens) and oracle/src/config.rs (Config.Feed is
--              `parse_price_feed_config`; Config.Env the checks of single variables, Config.Env.Load
--              `Config::from_lookup`). The environment is a function, and every problem in it is on one
--              list. Config.Feed.Sources says what the price loop has of an accepted configuration.
-- Tests        A concrete node and concrete prices, on which the theorems are applied.
--
-- Integers are exact, and `i128` and `i64` arithmetic says where it overflows, saturates or wraps.
-- Counters of `u32` and `u64` and the sequence number are not bounded: they grow by one per failure,
-- cycle or transaction. Times are nanoseconds or, where the source has seconds, seconds. The loops of
-- the source are bounded, so that they need no fuel: six polls and the number of attempts are
-- structural; a number is shown with fuel for 64 digits, where the source's have at most 39, and
-- `trim_end_matches` has the length of its text as fuel, since each round cuts a piece off.
--
-- An `async` task that holds a lock is one step. Requests that the source makes at once (`join!`,
-- `join_all`) are made one after another, in the order of the program, and each hands the world on.
-- A timeout around a cycle enters as the state in which it dropped the cycle, where it did. A keeper
-- cycle runs its items one after the other, as the source does. Log lines are left out.
--
-- Not modelled: the loop around the price cycle, which only sleeps, the routing of the HTTP API, the
-- texts that show the metrics, the bytes of a signed transaction, and logging.
mod Prelude
pub mod Retry
pub mod Rpc
pub mod Submit
pub mod Chain
pub mod Metrics
pub mod Signing
pub mod State
pub mod Keeper
pub mod Float
pub mod Prices
pub mod Sources
pub mod PriceLoop
pub mod Auth
pub mod Api
pub mod Config
mod Tests
