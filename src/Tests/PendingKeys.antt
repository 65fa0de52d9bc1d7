-- ===== src/Tests/PendingKeys.antt =====
-- The sweep and the rotation on a few keys.
use so4_oracle.Prelude.{ℕ, ◌*◌, ◌^◌, ◌≡◌, refl, List, [], ◌∷◌, String, arith}
use so4_oracle.Prelude.Map.{Map, Unique, lookup}
use so4_oracle.Keeper.Item.{claim_key}
use so4_oracle.Keeper.Item.View.{is_some}
use so4_oracle.Keeper.Pending.{sweep_expired_in_flight_keys}
use so4_oracle.Keeper.Pending.Sweep.{claim_key-sweep_expired_in_flight_keys}

abbrev claims : Map ℕ
claims = ("ab", 0) ∷ ("cd", 400 * 10 ^ 9) ∷ []

claims-Unique : Unique claims
unfolding lookup
claims-Unique = (refl, (refl, tt))

claim_key-sweep_expired_in_flight_keys_example :
    is_some (claim_key (450 * 10 ^ 9) "cd" (sweep_expired_in_flight_keys (410 * 10 ^ 9) claims))
    ≡ is_some (claim_key (450 * 10 ^ 9) "cd" claims)
claim_key-sweep_expired_in_flight_keys_example =
    claim_key-sweep_expired_in_flight_keys (410 * 10 ^ 9) (450 * 10 ^ 9) "cd" claims claims-Unique
      (omega arith)

abbrev work : List String
work = "ab" ∷ "cd" ∷ "ef" ∷ []
