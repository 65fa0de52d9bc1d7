-- ===== src/Sources/Token.antt =====
-- shared/config/src/lib.rs: one token of the price feed.
use so4_oracle.Prelude.{ℕ, Option, none, some, List, String, str_eq, if◌then◌else◌}

pub record TokenConfig : Type 0 where
  pub symbol : String
  pub display_symbol : Option String
  pub stellar_address : String
  pub sources : List String
  pub binance_symbol : Option String
  pub coinbase_symbol : Option String
  pub pyth_feed_id : Option String
  pub fixed_price : Option String
  pub min_sources : ℕ
  pub max_deviation_bps : ℕ
  pub stale_after_seconds : ℕ
  pub submit_threshold_bps : ℕ
  pub pyth_max_confidence_bps : ℕ

-- `str::to_lowercase` is the standard library's table of letters, an argument.
unfoldable pub lookup_key : (to_lowercase : String → String) → TokenConfig → String
lookup_key to_lowercase token =
    if str_eq token.stellar_address ""
    then to_lowercase token.symbol
    else to_lowercase token.stellar_address

-- `TokenConfig::display_symbol`
unfoldable pub shown_symbol : TokenConfig → String
shown_symbol token = elim token.display_symbol [
  | none ↦ token.symbol
  | some s ↦ if str_eq s "" then token.symbol else s
]
