-- ===== src/Tests/Thresholds.antt =====
-- The choice of prices to write, on two prices.
use so4_oracle.Prelude.{ℕ, ◌*◌, ◌≡◌, refl, false, none, [], ◌∷◌, String, ltb, arith}
use so4_oracle.Prelude.Int.{pos, ◌-ℤ◌, abs, checked, fits_i128, ◌*ℤ◌}
use so4_oracle.Prelude.Map.{Map, Unique, lookup}
use so4_oracle.State.{CachedPrice, PriceCache}
use so4_oracle.Keeper.Threshold.{
  move_exceeds_bps, filter_prices_by_threshold, update_submitted_prices,
}
use so4_oracle.Keeper.Threshold.Moves.{
  Throttled, move_exceeds_bps-exact, filter_prices_by_threshold-update_submitted_prices,
}

small_move : move_exceeds_bps (pos 1_000) (pos 1_004) 50 ≡ false
unfolding move_exceeds_bps checked fits_i128 ◌-ℤ◌ abs ◌*ℤ◌
small_move = refl

move_exceeds_bps-exact_example :
    move_exceeds_bps (pos 1_000) (pos 1_006) 50
    ≡ ltb (abs (pos 1_000) * 50) (abs (pos 1_006 -ℤ pos 1_000) * 10_000)
unfolding abs ◌-ℤ◌
move_exceeds_bps-exact_example =
    move_exceeds_bps-exact (pos 1_000) (pos 1_006) 50 (omega arith) (omega arith) (omega arith)

abbrev price : String → ℕ → CachedPrice
price token median = record {
  token_address = token;
  symbol = "TOKEN";
  display_symbol = "TOKEN";
  keeper_index = 0;
  min_price = pos median;
  max_price = pos median;
  median = pos median;
  timestamp = 1;
  ledger_seq = 1;
  sources_used = "pyth" ∷ [];
  signature = "";
}

abbrev two_prices : Map CachedPrice
two_prices = ("ca", price "CA" 1_000) ∷ ("cb", price "CB" 2_000) ∷ []

abbrev thresholds : Map ℕ
thresholds = ("ca", 50) ∷ ("cb", 25) ∷ []

abbrev cache : PriceCache
cache = record {
  prices = two_prices;
  last_updated = none;
  last_submitted_medians = none;
  last_full_submission = none;
}

two_prices-Unique : Unique two_prices
unfolding lookup
two_prices-Unique = (refl, (refl, tt))

two_prices-Throttled : Throttled thresholds two_prices
unfolding lookup
two_prices-Throttled = ((λ e. omega (arith, e)), ((λ e. omega (arith, e)), tt))

filter_prices_by_threshold-update_submitted_prices_example :
    filter_prices_by_threshold thresholds
      (update_submitted_prices two_prices 5 false cache)
      two_prices
      false
    ≡ []
filter_prices_by_threshold-update_submitted_prices_example =
    filter_prices_by_threshold-update_submitted_prices thresholds two_prices 5 false cache
      two_prices-Unique two_prices-Throttled
