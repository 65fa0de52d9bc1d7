-- ===== src/PriceLoop/Cycle/Traced.antt =====
-- price_loop.rs: what every price in the cache rests on, kept by each cycle, and how a cycle counts.
use mathlib.Core.List.{Mem}
use so4_oracle.Prelude.{ℕ, ◌+◌, ◌≡◌, All, List, String, length}
use so4_oracle.Prelude.Map.{Map, AllEntries}
use so4_oracle.Prelude.Result.{Result, ok, err}
use so4_oracle.Float.{Float}
use so4_oracle.Signing.{Signer}
use so4_oracle.State.{Loop, CachedPrice, PriceCache}
use so4_oracle.Sources.Token.{TokenConfig}
use so4_oracle.Sources.Web.{Web}
use so4_oracle.Rpc.{RpcError}
use so4_oracle.PriceLoop.Build.{PriceConfig}
use so4_oracle.PriceLoop.Build.Signed.{IsQuote}
use so4_oracle.PriceLoop.Cycle.{
  fetch_binance_batch, fetch_tokens, count_stale, asked_for, batches_of, fetch_binance_batch,
  fetch_tokens, count_stale, asked_for, batches_of, Harvest, Tally, Built, key_of,
}

module _ {K W F : Type 0} (f : Float F) (web : Web W F) (signer : Signer K)
    (cfg : PriceConfig K) where
  -- A price under the key of a configured token, signed and with the token's quorum.
  abbrev pub IsPublished : String → CachedPrice → Type 0
  IsPublished k p =
      (token : TokenConfig) × Mem token cfg.tokens
      × (key_of f web signer cfg token ≡ k)
      × IsQuote f web signer cfg token p

  abbrev IsAnswer : Built → Type 0
  IsAnswer b =
      Mem b.0 cfg.tokens × ((p : CachedPrice) → b.1 ≡ ok p → IsQuote f web signer cfg b.0 p)

  abbrev cache_of : Loop W → PriceCache
  cache_of s = s.app.price_cache

  -- What the turns of a list of tokens leave.
  abbrev Turns : List TokenConfig → Loop W → List Built × Loop W → Type 0
  Turns tokens s r = (cache_of r.1 ≡ cache_of s) × (length r.0 ≡ length tokens) × All IsAnswer r.0

  abbrev pub AllPublished : Map CachedPrice → Type 0
  AllPublished = AllEntries IsPublished

  abbrev counted : Harvest → ℕ
  counted h = h.tokens_ok + h.tokens_failed

  -- One more token is counted, the cache stays, and what was published so far stays published.
  abbrev Settled : ℕ → Harvest → Loop W → Harvest × Loop W → Type 0
  Settled n h s r =
      (cache_of r.1 ≡ cache_of s) × (counted r.0 ≡ counted h + n) × AllPublished r.0.new_prices

  -- The outcome of a cycle: its tokens are counted, and its cache is published.
  abbrev Outcome : ℕ → Tally × Loop W → Type 0
  Outcome n r = (r.0.tokens_ok + r.0.tokens_failed ≡ n) × AllPublished (cache_of r.1).prices

  -- How many tokens a cycle reports: all of them, or one where the ledger could not be read.
  abbrev pub reported : Result RpcError ℕ → ℕ
  reported (ok ledger_seq) = length cfg.tokens
  reported (err error) = 1
