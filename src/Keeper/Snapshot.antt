-- ===== src/Keeper/Snapshot.antt =====
-- state.rs, `keeper_status_snapshot`: a pair that two locks guard, read without holding both.
pub mod Steps
pub mod Moment
pub mod Window
use so4_oracle.Prelude.{ℕ, ◌==◌, List, [], ◌∷◌, if◌then◌else◌, take}
use so4_oracle.State.{KeeperStatus, CycleStatus}

-- The four loads of one attempt.
pub record Reading : Type 0 where
  pub before : ℕ
  pub keeper_status : KeeperStatus
  pub cycle_status : CycleStatus
  pub after : ℕ

-- The number of attempts
abbrev pub snapshot_attempts : ℕ
snapshot_attempts = 8

-- The loop over the attempts; `last` is the pair that is read behind them.
unfoldable pub first_settled :
    (attempts : List Reading) → (last : KeeperStatus × CycleStatus) → KeeperStatus × CycleStatus
first_settled [] last = last
first_settled (r ∷ rest) last =
    let later = first_settled rest last in
    if r.after == r.before then (r.keeper_status, r.cycle_status) else later

-- `readings` are what the attempts would read, one after the other; eight of them are made at most.
unfoldable pub keeper_status_snapshot :
    (readings : List Reading) → (last : KeeperStatus × CycleStatus) → KeeperStatus × CycleStatus
keeper_status_snapshot readings last = first_settled (take snapshot_attempts readings) last
