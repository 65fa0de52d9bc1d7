-- ===== src/Tests/Readiness.antt =====
-- The theorem on readiness: prices of a moment ago, and checks that pass.
use so4_oracle.Prelude.Map.{Map}
use so4_oracle.Prelude.{String, ℕ, ◌+◌, ◌*◌, ◌^◌, ◌≡◌, refl, some, none, [], ◌∷◌}
use so4_oracle.Prelude.Int.{pos}
use so4_oracle.Prelude.Result.{ok}
use so4_oracle.State.{CachedPrice, PriceCache, CycleStatus}
use so4_oracle.Api.Ready.{
  ReadyCache, Outside, ready, check_cached, check_outside, perform_external_ready_checks,
  retry_ready_probe, probe_rpc_reachability, balance_verdict, probe_rounds, remember,
}
use so4_oracle.Api.Ready.Sound.{Reachable, at_start, asked, RanLately, IsBacked, ready-IsBacked}
use so4_oracle.Tests.Fixtures.{start}

-- The clock is the world, and each request takes a second.
abbrev outside : Outside ℕ
outside = record {
  http_get_rpc = λ w. (ok 200, w + 10 ^ 9);
  check_keeper_balance = λ w. (ok (pos 900_000_000), w + 10 ^ 9);
  sleep = λ d w. w + d;
  instant = λ w. w;
  wall = λ w. w;
}

abbrev price : CachedPrice
price = record {
  token_address = "CBTC";
  symbol = "TBTC";
  display_symbol = "BTC";
  keeper_index = 1;
  min_price = pos 99;
  max_price = pos 101;
  median = pos 100;
  timestamp = 99;
  ledger_seq = 7;
  sources_used = [];
  signature = "";
}

abbrev cached : PriceCache
cached = record start.app.price_cache { prices = ("cbtc", price) ∷ [] }

abbrev status : CycleStatus
status = record start.app.cycle_status {
  last_price_cycle_at = some (98 * 10 ^ 9);
  last_keeper_cycle_at = some (97 * 10 ^ 9);
}

abbrev early : CycleStatus
early = record start.app.cycle_status {
  last_price_cycle_at = some (93 * 10 ^ 9);
  last_keeper_cycle_at = some (93 * 10 ^ 9);
}

-- The last check is four seconds old, so that it is made again.
abbrev cache : ReadyCache
cache = record { last_checked = some (96 * 10 ^ 9); last_error = none }

answers : (ready outside (10 ^ 9) (2 * 10 ^ 9) cached status none cache (100 * 10 ^ 9)).0 ≡ ok tt
unfolding ready check_cached check_outside perform_external_ready_checks retry_ready_probe
    probe_rpc_reachability balance_verdict
answers = refl

-- That last check was made when the service started.
earlier : Reachable outside cache
unfolding ready check_cached check_outside perform_external_ready_checks retry_ready_probe
    probe_rpc_reachability balance_verdict probe_rounds remember
earlier = asked (10 ^ 9) (2 * 10 ^ 9) cached early none (94 * 10 ^ 9) at_start

ready-IsBacked_example :
    ((entry : String × CachedPrice) × (rest : Map CachedPrice) × (cached.prices ≡ entry ∷ rest))
    × RanLately outside (10 ^ 9) (100 * 10 ^ 9) status.last_price_cycle_at
    × RanLately outside (2 * 10 ^ 9) (100 * 10 ^ 9) status.last_keeper_cycle_at
    × IsBacked outside
        (100 * 10 ^ 9)
        (ready outside (10 ^ 9) (2 * 10 ^ 9) cached status none cache (100 * 10 ^ 9)).1.1
ready-IsBacked_example =
    ready-IsBacked outside (10 ^ 9) (2 * 10 ^ 9) cached status none cache (100 * 10 ^ 9) earlier
      answers
