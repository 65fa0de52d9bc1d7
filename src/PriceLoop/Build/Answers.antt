-- ===== src/PriceLoop/Build/Answers.antt =====
-- price_loop.rs: what asking the sources of a token adds to the observations.
use so4_oracle.Prelude.{ℕ, ◌≡◌, refl, ◌∙◌, List, [], ◌∷◌, String, sym, ◌++◌}
use mathlib.Core.List.{append-nil, append_assoc}
use so4_oracle.Prelude.Int.{ℤ}
use so4_oracle.Prelude.Result.{Result, ok, err}
use so4_oracle.Float.{Float}
use so4_oracle.Signing.{Signer}
use so4_oracle.State.{Loop}
use so4_oracle.Sources.Token.{TokenConfig}
use so4_oracle.Sources.Web.{Web}
use so4_oracle.PriceLoop.Source.{
  PriceSourceError, PriceWithObservationTime, Batches, fetch_source_with_retry,
}
use so4_oracle.PriceLoop.Build.{PriceConfig, Observations, observe, collect_sources}

module _ {K W F : Type 0} (f : Float F) (web : Web W F) (signer : Signer K)
    (cfg : PriceConfig K) where
  -- The answers of a list of sources, each asked once: the sources that gave a price, and the prices.
  pub data Answers (token : TokenConfig) : List String → List String → List ℤ → Type 0 where
    nobody : Answers token [] [] []
    gave :
        {source : String} {rest sources : List String} {prices : List ℤ} (batches : Batches) (w : W)
        (p : PriceWithObservationTime)
        → (fetch_source_with_retry f web cfg.pyth_api_key cfg.coinbase_base_url batches source token
            w).0
          ≡ ok p
        → Answers token rest sources prices
        → Answers token (source ∷ rest) (source ∷ sources) (p.price ∷ prices)
    failed :
        {source : String} {rest sources : List String} {prices : List ℤ} (batches : Batches) (w : W)
        (e : PriceSourceError F)
        → (fetch_source_with_retry f web cfg.pyth_api_key cfg.coinbase_base_url batches source token
            w).0
          ≡ err e
        → Answers token rest sources prices
        → Answers token (source ∷ rest) sources prices

  -- What asking a list of sources adds to the observations.
  abbrev pub Collected : TokenConfig → List String → Observations → Observations → Type 0
  Collected token sources obs obs' =
      (answered : List String) × (prices : List ℤ) × Answers token sources answered prices
      × (obs'.sources ≡ obs.sources ++ answered)
      × (obs'.prices ≡ obs.prices ++ prices)

  observe-Collected :
      (token : TokenConfig) (seq : ℕ) (batches : Batches) (source : String) (rest : List String)
      (w : W) (answer : Result (PriceSourceError F) PriceWithObservationTime)
      (obs last : Observations) (s : Loop W)
      → (fetch_source_with_retry f web cfg.pyth_api_key cfg.coinbase_base_url batches source token
          w).0
        ≡ answer
      → Collected token rest (observe f web signer cfg token seq source answer obs s).0 last
      → Collected token (source ∷ rest) obs last
  unfolding observe
  observe-Collected token seq batches source rest w (ok p) obs last s q c = (
    source ∷ c.0,
    p.price ∷ c.1,
    gave batches w p q c.2,
    c.3 ∙ append_assoc obs.sources (source ∷ []) c.0,
    c.4 ∙ append_assoc obs.prices (p.price ∷ []) c.1,
  )
  observe-Collected token seq batches source rest w (err e) obs last s q c =
      (c.0, c.1, failed batches w e q c.2, c.3, c.4)

  pub collect_sources-Collected :
      (token : TokenConfig) (seq : ℕ) (batches : Batches) (sources : List String)
      (obs : Observations) (s : Loop W)
      → Collected token sources obs
          (collect_sources f web signer cfg token seq batches sources obs s).0
  unfolding collect_sources
  collect_sources-Collected token seq batches [] obs s =
      ([], [], nobody, sym (append-nil obs.sources), sym (append-nil obs.prices))
  collect_sources-Collected token seq batches (source ∷ rest) obs s =
      let answer =
        fetch_source_with_retry f web cfg.pyth_api_key cfg.coinbase_base_url batches source token
          s.world in
      let asked : Loop W = record s { world = answer.1 } in
      let next = observe f web signer cfg token seq source answer.0 obs asked in
      observe-Collected token seq batches source rest s.world answer.0 obs
        (collect_sources f web signer cfg token seq batches rest next.0 next.1).0 asked refl
        (collect_sources-Collected token seq batches rest next.0 next.1)
