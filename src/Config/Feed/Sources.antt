-- ===== src/Config/Feed/Sources.antt =====
-- config.rs and price_loop.rs: a token of an accepted configuration meets no missing setting and no
-- unknown source in the price loop.
use so4_oracle.Prelude.{◌≡◌, refl, Bool, String, List, Option, some, All, All-map, ◌⊎◌, inl, inr}
use so4_oracle.Prelude.Int.{ℤ}
use so4_oracle.Prelude.Result.{Result, ok}
use so4_oracle.Float.{Float}
use so4_oracle.Sources.Token.{TokenConfig}
use so4_oracle.Sources.Price.{IsPrice}
use so4_oracle.Sources.Web.{Web}
use so4_oracle.PriceLoop.Source.{
  Batches, observed, from_binance, from_coinbase, from_pyth, fetch_source_price,
}
use so4_oracle.Sources.Fixed.{configured_price}
use so4_oracle.Config.Feed.{parse_price_feed_config}
use so4_oracle.Config.Feed.Valid.{
  HasSetting, binance, coinbase, pyth, fixed, IsValid, parse_price_feed_config-IsValid,
}

module _ {W F : Type 0} (f : Float F) (web : Web W F) (pyth_api_key : Option String)
    (coinbase_base_url : String) (batches : Batches) (w : W) where
  -- The source is asked with the token's own setting, or gives the configured price.
  abbrev pub IsServed : TokenConfig → String → Type 0
  IsServed token source =
      let answer = fetch_source_price f web pyth_api_key coinbase_base_url batches source token w in
      ((symbol : String) × (source ≡ "binance")
        × (token.binance_symbol ≡ some symbol)
        × (answer
            ≡ from_binance f web pyth_api_key coinbase_base_url (web.now w) batches.binance_prices
                symbol w))
      ⊎ ((symbol : String) × (source ≡ "coinbase")
          × (token.coinbase_symbol ≡ some symbol)
          × (answer ≡ from_coinbase f web pyth_api_key coinbase_base_url (web.now w) symbol w))
      ⊎ ((id : String) × (source ≡ "pyth")
          × (token.pyth_feed_id ≡ some id)
          × (answer
              ≡ from_pyth f web pyth_api_key coinbase_base_url (web.now w) batches token id w))
      ⊎ ((price : ℤ) × (source ≡ "fixed")
          × (configured_price token ≡ ok price)
          × IsPrice price
          × (answer ≡ (ok (observed (web.now w) price), w)))

  HasSetting-IsServed :
      (token : TokenConfig) (source : String) → HasSetting token source → IsServed token source
  unfolding fetch_source_price
  HasSetting-IsServed token source (binance symbol e u) =
      inl (symbol, e, u, rw (e, u, fetch_source_price) refl)
  HasSetting-IsServed token source (coinbase symbol e u) =
      inr (inl (symbol, e, u, rw (e, u, fetch_source_price) refl))
  HasSetting-IsServed token source (pyth id e u) =
      inr (inr (inl (id, e, u, rw (e, u, fetch_source_price) refl)))
  HasSetting-IsServed token source (fixed price e u p) =
      inr (inr (inr (price, e, u, p, rw (e, u, fetch_source_price) refl)))

  -- Whatever the network answers: each source of a token of an accepted configuration is `binance`,
  -- `coinbase` or `pyth`, and is asked with the setting that the token gives for it, or it is `fixed`,
  -- and the answer is the price configured for the token at the present time, with no request made,
  -- and that price is positive and fits an `i128`.
  pub parse_price_feed_config-IsServed :
      (from_json : String → Result String (List TokenConfig)) (to_lowercase : String → String)
      (is_contract : String → Bool) (raw : String) (tokens : List TokenConfig)
      → parse_price_feed_config from_json to_lowercase is_contract raw ≡ ok tokens
      → All (λ token. All (IsServed token) token.sources) tokens
  parse_price_feed_config-IsServed from_json to_lowercase is_contract raw tokens h =
      All-map
        (λ token (v : IsValid is_contract token).
          All-map (HasSetting-IsServed token) token.sources v.settings)
        tokens (parse_price_feed_config-IsValid from_json to_lowercase is_contract raw tokens h)
