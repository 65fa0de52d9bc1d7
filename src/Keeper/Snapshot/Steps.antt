-- ===== src/Keeper/Snapshot/Steps.antt =====
-- keeper_loop.rs and price_loop.rs: the writes that a reader of the status may meet, one by one.
use so4_oracle.Prelude.{ℕ, suc, ◌+◌, ◌%◌, ◌^◌, ◌≡◌, true, false, some}
use so4_oracle.State.{AppState}
use so4_oracle.Keeper.Snapshot.{Reading}

-- Where the keeper loop stands: between two cycles, behind the first bump, in `execute_keeper_cycle`,
-- or behind the write of the times.
pub data Phase : Type 0 where
  idle : Phase
  opened : Phase
  busy : Phase
  stamped : Phase

abbrev pub System : Type 0
System = Phase × AppState

-- `keeper_cycle_generation.fetch_add(1)`
abbrev pub bump_generation : AppState → AppState
bump_generation app = record app {
  keeper_cycle_generation = (app.keeper_cycle_generation + 1) % 2 ^ 64;
}

abbrev pub mark_running : AppState → AppState
mark_running app = record app {
  cycle_status = record app.cycle_status { keeper_cycle_running = true };
}

abbrev pub stamp_cycle : (at latency_ms : ℕ) → AppState → AppState
stamp_cycle at latency_ms app = record app {
  cycle_status = record app.cycle_status {
    keeper_cycle_running = false;
    last_keeper_cycle_at = some at;
    last_keeper_cycle_latency_ms = some latency_ms;
  };
}

-- What the keeper loop does within a cycle leaves the cycle's times and the generation alone, its
-- report leaves the keeper's status alone as well, and the price loop, at any moment, leaves the
-- keeper's status and the generation alone.
pub data Step : System → System → Type 0 where
  open_window : {app : AppState} → Step (idle, app) (opened, bump_generation app)
  start : {app : AppState} → Step (opened, app) (busy, mark_running app)
  work :
      {app app' : AppState}
      → app'.cycle_status ≡ app.cycle_status
      → app'.keeper_cycle_generation ≡ app.keeper_cycle_generation
      → Step (busy, app) (busy, app')
  finish :
      {app : AppState} (at latency_ms : ℕ)
      → Step (busy, app) (stamped, stamp_cycle at latency_ms app)
  report :
      {app app' : AppState}
      → app'.keeper_status ≡ app.keeper_status
      → app'.cycle_status ≡ app.cycle_status
      → app'.keeper_cycle_generation ≡ app.keeper_cycle_generation
      → Step (stamped, app) (stamped, app')
  close_window : {app : AppState} → Step (stamped, app) (idle, bump_generation app)
  aside :
      {phase : Phase} {app app' : AppState}
      → app'.keeper_status ≡ app.keeper_status
      → app'.keeper_cycle_generation ≡ app.keeper_cycle_generation
      → Step (phase, app) (phase, app')

-- So many steps.
pub data Run : ℕ → System → System → Type 0 where
  here : {s : System} → Run 0 s s
  next : {n : ℕ} {s t u : System} → Run n s t → Step t u → Run (suc n) s u

-- What a reader reads while the loops take `n` steps from `s` to `t`.
pub data Observed : ℕ → System → Reading → System → Type 0 where
  loads :
      {i j k : ℕ} {s t u v : System}
      → Run i s t
      → Run j t u
      → Run k u v
      → Observed
          (i + j + k)
          s
          (record {
            before = s.1.keeper_cycle_generation;
            keeper_status = t.1.keeper_status;
            cycle_status = u.1.cycle_status;
            after = v.1.keeper_cycle_generation;
          })
          v
