-- ===== src/Config.antt =====
-- config.rs and shared/config/src/lib.rs: what the service reads of its environment at its start, and
-- the checks that stand between a configuration and the two loops.
pub mod Tokens
pub mod Feed
pub mod Env
use so4_oracle.Prelude.{
  ℕ, Bool, true, false, ◌||◌, not, Option, none, some, List, [], ◌∷◌, String, str_eq, if◌then◌else◌,
}
use so4_oracle.Prelude.Text.{concat}

-- ConfigError
pub data ConfigError : Type 0 where
  malformed_json : String → ConfigError
  empty_token_list : ConfigError
  invalid_token : (symbol reason : String) → ConfigError
  io_error : String → ConfigError

unfoldable pub show_config_error : ConfigError → String
show_config_error (malformed_json msg) = concat ("PRICE_FEED_CONFIG is not valid JSON: " ∷ msg ∷ [])
show_config_error empty_token_list = "PRICE_FEED_CONFIG must contain at least one token"
show_config_error (invalid_token symbol reason) =
    concat ("invalid token config for '" ∷ symbol ∷ "': " ∷ reason ∷ [])
show_config_error (io_error msg) = concat ("failed to read token config file: " ∷ msg ∷ [])

-- Membership in a `HashSet` of texts.
abbrev pub has : String → List String → Bool
has s [] = false
has s (t ∷ ts) = str_eq t s || has s ts

-- `values.iter().collect::<HashSet<_>>()`
unfoldable pub collect_set : List String → List String
collect_set [] = []
collect_set (s ∷ ss) = let rest = collect_set ss in if has s rest then rest else s ∷ rest

abbrev pub is_unset : Option String → Bool
is_unset none = true
is_unset (some s) = false
