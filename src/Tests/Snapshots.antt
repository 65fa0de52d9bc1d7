-- ===== src/Tests/Snapshots.antt =====
-- Readings of the keeper's status beside a running cycle.
use so4_oracle.Prelude.{◌≡◌, ◌≢◌, refl, arith, [], ◌∷◌, All, ◌⊎◌}
use so4_oracle.State.{AppState, KeeperStatus}
use so4_oracle.Keeper.Snapshot.{Reading, keeper_status_snapshot, first_settled}
use so4_oracle.Keeper.Snapshot.Steps.{
  idle, busy, stamped, open_window, start, work, finish, close_window, here, next, Observed, loads,
  bump_generation, mark_running, stamp_cycle,
}
use so4_oracle.Keeper.Snapshot.Moment.{
  IsMoment, Attempts, none_left, attempt, keeper_status_snapshot-IsMoment,
}
use so4_oracle.Tests.Fixtures.{start as run}

abbrev resting : AppState
resting = run.app

abbrev seven : KeeperStatus
seven = record resting.keeper_status { pending_orders = 7 }

abbrev counted : AppState
counted = record (mark_running (bump_generation resting)) { keeper_status = seven }

-- One attempt that the opening of a cycle crosses, and one between two cycles.
abbrev crossed : Reading
crossed = record {
  before = 0;
  keeper_status = resting.keeper_status;
  cycle_status = (mark_running (bump_generation resting)).cycle_status;
  after = 1;
}

abbrev ended : AppState
ended = bump_generation (stamp_cycle 9 4 counted)

abbrev quiet : Reading
quiet = record { before = 2; keeper_status = seven; cycle_status = ended.cycle_status; after = 2 }

two-Attempts : Attempts (idle, resting) (crossed ∷ quiet ∷ [])
two-Attempts =
    attempt here (omega arith)
      (loads here (next (next here open_window) start)
        (next here (work {app' = counted} refl refl)))
      (attempt (next (next here (finish 9 4)) close_window) (omega arith) (loads here here here)
        none_left)

keeper_status_snapshot-IsMoment_example :
    IsMoment
      (idle, resting)
      (keeper_status_snapshot (crossed ∷ quiet ∷ []) (seven, ended.cycle_status))
    ⊎ (All (λ r. r.after ≢ r.before) (crossed ∷ quiet ∷ [])
        × (keeper_status_snapshot (crossed ∷ quiet ∷ []) (seven, ended.cycle_status)
            ≡ (seven, ended.cycle_status)))
keeper_status_snapshot-IsMoment_example =
    keeper_status_snapshot-IsMoment (idle, resting) (crossed ∷ quiet ∷ [])
      (seven, ended.cycle_status) (record { below = omega arith; window = refl }) two-Attempts
      (refl, (refl, tt))

-- A reader that begins within a cycle may pair the counts from before the cycle's fetch with the times
-- from behind it, though the generation is the same at both loads.
abbrev torn : Reading
torn = record {
  before = 1;
  keeper_status = resting.keeper_status;
  cycle_status = (stamp_cycle 9 4 counted).cycle_status;
  after = 1;
}

torn-Observed :
    Observed 2
      (busy, mark_running (bump_generation resting))
      torn
      (stamped, stamp_cycle 9 4 counted)
torn-Observed = loads here (next (next here (work refl refl)) (finish 9 4)) here

torn_is_taken :
    keeper_status_snapshot (torn ∷ []) (seven, ended.cycle_status)
    ≡ (resting.keeper_status, (stamp_cycle 9 4 counted).cycle_status)
unfolding keeper_status_snapshot first_settled
torn_is_taken = refl
