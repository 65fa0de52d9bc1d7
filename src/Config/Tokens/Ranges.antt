-- ===== src/Config/Tokens/Ranges.antt =====
-- shared/config/src/lib.rs: what a token that passes the checks satisfies.
use so4_oracle.Prelude.{◌≤◌, ◌≡◌, arith}
use so4_oracle.Prelude.Result.{ok}
use so4_oracle.Sources.Token.{TokenConfig}
use so4_oracle.Config.Tokens.{check_ranges}

pub record InRange (token : TokenConfig) : Type 0 where
  pub deviation_lower : 1 ≤ token.max_deviation_bps
  pub deviation_upper : token.max_deviation_bps ≤ 10_000
  pub stale : 1 ≤ token.stale_after_seconds
  pub threshold : token.submit_threshold_bps ≤ 10_000
  pub quorum : 1 ≤ token.min_sources
  pub confidence : token.pyth_max_confidence_bps ≤ 10_000

pub check_ranges-InRange : (token : TokenConfig) → check_ranges token ≡ ok tt → InRange token
unfolding check_ranges
check_ranges-InRange token h = ground arith
