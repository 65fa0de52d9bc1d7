-- ===== src/Keeper/Pending.antt =====
-- keeper_loop.rs: the keys that a cycle works on, in which order, and the sweep of expired claims.
pub mod Sweep
pub mod Fetch
use so4_oracle.Prelude.{
  ℕ, ◌+◌, ◌-◌, ◌%◌, ◌==◌, ◌&&◌, not, leb, ltb, Bool, Option, none, some, List, [], ◌++◌, String,
  length, take, drop, if◌then◌else◌,
}
use so4_oracle.Prelude.Map.{Map, retain}
use so4_oracle.State.{in_flight_expiry}

-- The closure of `in_flight.retain`, at the moment `now`.
abbrev pub is_live : ℕ → String → ℕ → Bool
is_live now key inserted_at = not (ltb in_flight_expiry (now - inserted_at))

unfoldable pub sweep_expired_in_flight_keys : ℕ → Map ℕ → Map ℕ
sweep_expired_in_flight_keys now in_flight = retain (is_live now) in_flight

-- The closure of `fetch_update`: the index that is stored; the index that is used is the previous one.
unfoldable pub next_start : (count prev : ℕ) → ℕ
next_start count prev = if leb count 1 then 0 else (prev + 1) % count

-- The keys from `start` on, and then those before it.
unfoldable pub rotate : {A : Type 0} → ℕ → List A → List A
rotate start keys =
    if ltb 0 start && ltb start (length keys) then drop start keys ++ take start keys else keys
