-- ===== src/Keeper/Cycle/Sustained.antt =====
-- keeper_loop.rs, `run_keeper_loop`: what the rounds of the keeper keep.
use so4_oracle.Prelude.{ℕ, ◌≡◌, Bool, none}
use so4_oracle.Prelude.Result.{Result}
use so4_oracle.State.{Loop}
use so4_oracle.Keeper.Cycle.{Setup}
use so4_oracle.Keeper.Cycle.Rounds.{Turn, back_off}

-- A round whose cycle, where it starts one, is neither shut down nor dropped by its timeout.
abbrev pub IsWhole : {W : Type 0} → Turn W → Type 0
IsWhole t = (t.at_cycle ≡ none) × (t.cut ≡ none)

module _ {W F : Type 0} (setup : Setup W F) (sleep : ℕ → W → W) (keeper_loop_ms : ℕ) where
  abbrev pause : Bool → Loop W → Loop W
  pause = back_off setup sleep keeper_loop_ms
