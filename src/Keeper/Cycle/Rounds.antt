-- ===== src/Keeper/Cycle/Rounds.antt =====
-- keeper_loop.rs, `run_keeper_loop`: the rounds around the cycle, up to the shutdown.
use so4_oracle.Prelude.{
  ℕ, ◌*◌, ◌==◌, Bool, false, ◌&&◌, ◌||◌, Option, none, some, List, [], ◌∷◌, String, if◌then◌else◌,
}
use so4_oracle.Prelude.Result.{Result, ok, err}
use so4_oracle.State.{Loop}
use so4_oracle.Prices.Median.{Checked}
use so4_oracle.Keeper.Run.{CycleSummary}
use so4_oracle.Keeper.Cycle.{Setup}
use so4_oracle.Keeper.Cycle.Timed.{run_keeper_cycle}

-- What a round meets: whether the shutdown wins its first, its second and its third `select!`, the
-- state in which the third one then drops the cycle, and what `run_keeper_cycle` takes otherwise.
pub record Turn (W : Type 0) : Type 0 where
  pub at_tick : Bool
  pub at_backoff : Bool
  pub at_cycle : Option (Loop W)
  pub cut : Option (Loop W)
  pub latency_ms : ℕ

pub data Ending : Type 0 where
  stopped : Ending
  goes_on : (was_idle : Bool) → Ending

abbrev idle_backoff_multiplier : ℕ
idle_backoff_multiplier = 4

-- `was_idle`
abbrev pub found_idle : Result String CycleSummary → Bool
found_idle (ok s) =
    s.orders_executed == 0 && s.deposits_executed == 0 && s.withdrawals_executed == 0
found_idle (err e) = false

-- `sleep` is the runtime's, for so many milliseconds.
module _ {W F : Type 0} (setup : Setup W F) (sleep : ℕ → W → W) (keeper_loop_ms : ℕ) where
  abbrev pub back_off : Bool → Loop W → Loop W
  back_off was_idle s =
      if was_idle
      then record s { world = sleep (keeper_loop_ms * idle_backoff_multiplier) s.world }
      else s

  abbrev go_on :
      Checked (Result String CycleSummary × Loop W)
      → (Bool → Loop W → Checked (Ending × Loop W))
      → Checked (Ending × Loop W)
  go_on none next = none
  go_on (some (result, s)) next = next (found_idle result) s

  -- The rounds of the loop, for the turns that the runtime has given it so far.
  unfoldable pub run_rounds : List (Turn W) → (was_idle : Bool) → Loop W → Checked (Ending × Loop W)
  run_rounds [] was_idle s = some (goes_on was_idle, s)
  run_rounds (t ∷ rest) was_idle s =
      let s' = back_off was_idle s in
      let later =
        go_on (run_keeper_cycle setup t.cut t.latency_ms s') (λ idle v. run_rounds rest idle v) in
      if t.at_tick || (was_idle && t.at_backoff)
      then some (stopped, s)
      else elim t.at_cycle [ some dropped ↦ some (stopped, dropped) | none ↦ later ]

  unfoldable pub run_keeper_loop : List (Turn W) → Loop W → Checked (Ending × Loop W)
  run_keeper_loop turns s = run_rounds turns false s
