-- ===== src/Keeper/Snapshot/Window.antt =====
-- keeper_loop.rs, `run_keeper_cycle`: its writes are steps of the machine that a reader meets.
use so4_oracle.Prelude.{ℕ, refl, String}
use so4_oracle.Prelude.Result.{Result, ok, err}
use so4_oracle.State.{Loop}
use so4_oracle.Keeper.Run.{CycleSummary, record_error}
use so4_oracle.Keeper.Cycle.{Setup}
use so4_oracle.Keeper.Cycle.Timed.{begin_cycle, report as report_cycle, end_cycle}
use so4_oracle.Keeper.Snapshot.Steps.{
  idle, busy, open_window, start, finish, report, close_window, Run, here, next,
}

module _ {W F : Type 0} (setup : Setup W F) where
  -- The beginning of a cycle opens the window and sets the flag.
  begin_cycle-Run : (s : Loop W) → Run 2 (idle, s.app) (busy, (begin_cycle setup s).app)
  unfolding begin_cycle
  begin_cycle-Run s = next (next here open_window) start

  -- Its end stamps the times, reports, and closes the window.
  end_cycle-Run :
      (latency_ms : ℕ) (result : Result String CycleSummary) (s : Loop W)
      → Run 3 (busy, s.app) (idle, (end_cycle setup latency_ms result s).app)
  unfolding end_cycle report_cycle record_error
  end_cycle-Run latency_ms (ok summary) s =
      next (next (next here (finish _ latency_ms)) (report refl refl refl)) close_window
  end_cycle-Run latency_ms (err e) s =
      next (next (next here (finish _ latency_ms)) (report refl refl refl)) close_window
