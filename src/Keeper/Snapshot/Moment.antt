-- ===== src/Keeper/Snapshot/Moment.antt =====
-- state.rs, `keeper_status_snapshot`: where the generation tells that the pair is of one moment.
use native.Mathlib.Numerals.{unary_clauses}
use so4_oracle.Prelude.{
  ℕ, suc, ◌+◌, ◌%◌, ◌^◌, ◌≤◌, ◌<◌, ◌≡◌, ◌≢◌, ◌==◌, refl, arith, Bool-cases, List, [], ◌∷◌, All, ◌⊎◌,
  inl, inr, ◌∙◌, sym, take,
}
use so4_oracle.State.{KeeperStatus, CycleStatus}
use so4_oracle.Keeper.Snapshot.{Reading, keeper_status_snapshot, snapshot_attempts, first_settled}
use so4_oracle.Keeper.Snapshot.Steps.{
  Phase, idle, opened, busy, stamped, System, Step, open_window, start, work, finish, report,
  close_window, aside, Run, here, next, Observed, loads,
}

abbrev parity : Phase → ℕ
parity idle = 0
parity opened = 1
parity busy = 1
parity stamped = 1

-- The generation is even between two cycles, and odd within one.
pub record IsSound (s : System) : Type 0 where
  pub below : s.1.keeper_cycle_generation < 2 ^ 64
  pub window : s.1.keeper_cycle_generation % 2 ≡ parity s.0

Step-IsSound : {s t : System} → Step s t → IsSound s → IsSound t
Step-IsSound (open_window {app}) i = record {
  below = omega (arith, i.below);
  window = omega (arith, i.below, i.window);
}
Step-IsSound start i = record { below = i.below; window = i.window }
Step-IsSound (work c g) i = record { below = rw g i.below; window = rw g i.window }
Step-IsSound (finish at ms) i = record { below = i.below; window = i.window }
Step-IsSound (report k c g) i = record { below = rw g i.below; window = rw g i.window }
Step-IsSound close_window i = record {
  below = omega (arith, i.below);
  window = omega (arith, i.below, i.window);
}
Step-IsSound (aside k g) i = record { below = rw g i.below; window = rw g i.window }

pub Run-IsSound : {n : ℕ} {s t : System} → Run n s t → IsSound s → IsSound t
Run-IsSound here i = i
Run-IsSound (next r st) i = Step-IsSound st (Run-IsSound r i)

-- How often the generation was bumped on the way, and what stays where it was not.
record Progress (n : ℕ) (s t : System) : Type 0 where
  bumps : ℕ
  few : bumps ≤ n
  counted : t.1.keeper_cycle_generation ≡ (s.1.keeper_cycle_generation + bumps) % 2 ^ 64
  still : bumps ≡ 0 → s.0 ≡ idle → (t.0 ≡ idle) × (t.1.keeper_status ≡ s.1.keeper_status)

no_bump :
    {n : ℕ} {s t u : System}
    → Progress n s t
    → u.1.keeper_cycle_generation ≡ t.1.keeper_cycle_generation
    → (t.0 ≡ idle → (u.0 ≡ idle) × (u.1.keeper_status ≡ t.1.keeper_status))
    → Progress (suc n) s u
no_bump p g kept = record {
  bumps = p.bumps;
  few = omega (arith, p.few);
  counted = rw g p.counted;
  still =
      λ z i. let before = p.still z i in let step = kept before.0 in (step.0, step.1 ∙ before.1);
}

one_bump :
    {n : ℕ} {s t u : System}
    → Progress n s t
    → u.1.keeper_cycle_generation ≡ (t.1.keeper_cycle_generation + 1) % 2 ^ 64
    → Progress (suc n) s u
one_bump p g = record {
  bumps = suc p.bumps;
  few = omega (arith, p.few);
  counted = omega (arith, p.counted, g);
  still = λ z i. absurd (omega arith);
}

Step-Progress : {n : ℕ} {s t u : System} → Step t u → Progress n s t → Progress (suc n) s u
Step-Progress open_window p = one_bump p refl
Step-Progress start p = no_bump p refl (λ i. absurd (cc i))
Step-Progress (work c g) p = no_bump p g (λ i. absurd (cc i))
Step-Progress (finish at ms) p = no_bump p refl (λ i. absurd (cc i))
Step-Progress (report k c g) p = no_bump p g (λ i. absurd (cc i))
Step-Progress close_window p = one_bump p refl
Step-Progress (aside k g) p = no_bump p g (λ i. (i, k))

Run-Progress : {n : ℕ} {s t : System} → IsSound s → Run n s t → Progress n s t
Run-Progress i here = record {
  bumps = 0;
  few = omega arith;
  counted = omega (arith, i.below);
  still = λ z e. (e, refl);
}
Run-Progress i (next r st) = Step-Progress st (Run-Progress i r)

idle_of_even : (s : System) → IsSound s → s.1.keeper_cycle_generation % 2 ≡ 0 → s.0 ≡ idle
idle_of_even (idle, app) i e = refl
idle_of_even (opened, app) i e = absurd (omega (arith, i.window, e))
idle_of_even (busy, app) i e = absurd (omega (arith, i.window, e))
idle_of_even (stamped, app) i e = absurd (omega (arith, i.window, e))

-- The pair is what the two locks guarded in one state that the loops passed through.
pub record IsMoment (s : System) (pair : KeeperStatus × CycleStatus) : Type 0 where
  pub steps : ℕ
  pub moment : System
  pub reached : Run steps s moment
  pub keeper_eq : pair.0 ≡ moment.1.keeper_status
  pub cycle_eq : pair.1 ≡ moment.1.cycle_status

Run-append : {m n : ℕ} {s t u : System} → Run m s t → Run n t u → Run (m + n) s u
Run-append r here = simp unary_clauses r
Run-append r (next q st) = simp unary_clauses (next (Run-append r q) st)

Observed-IsMoment :
    {n : ℕ} {s t : System} {r : Reading}
    → IsSound s
    → n < 2 ^ 64
    → Observed n s r t
    → r.before % 2 ≡ 0
    → r.after ≡ r.before
    → IsMoment s (r.keeper_status, r.cycle_status)
Observed-IsMoment {s} i small (loads {i = m} {j} {k} {t} {u} {v} a b c) even same =
    let p = Run-Progress i a in
    let q = Run-Progress (Run-IsSound a i) b in
    let r = Run-Progress (Run-IsSound b (Run-IsSound a i)) c in
    let none : (p.bumps ≡ 0) × (q.bumps ≡ 0) =
      omega (arith, p.few, q.few, r.few, p.counted, q.counted, r.counted, i.below) in
    let first = p.still none.0 (idle_of_even s i even) in
    record {
      steps = m + j;
      moment = u;
      reached = Run-append a b;
      keeper_eq = sym (q.still none.1 first.0).1;
      cycle_eq = refl;
    }

-- The attempts, one after the other, with steps of the loops between them; each takes less than 2^64.
pub data Attempts : System → List Reading → Type 0 where
  none_left : {s : System} → Attempts s []
  attempt :
      {m n : ℕ} {s t u : System} {r : Reading} {rest : List Reading}
      → Run m s t
      → n < 2 ^ 64
      → Observed n t r u
      → Attempts u rest
      → Attempts s (r ∷ rest)

Observed-Run : {n : ℕ} {s t : System} {r : Reading} → Observed n s r t → Run n s t
Observed-Run (loads a b c) = Run-append (Run-append a b) c

IsMoment-later :
    {n : ℕ} {s t : System} {pair : KeeperStatus × CycleStatus}
    → Run n s t
    → IsMoment t pair
    → IsMoment s pair
IsMoment-later {n} r m = record {
  steps = n + m.steps;
  moment = m.moment;
  reached = Run-append r m.reached;
  keeper_eq = m.keeper_eq;
  cycle_eq = m.cycle_eq;
}

first_settled-IsMoment :
    (s : System) (readings : List Reading) (last : KeeperStatus × CycleStatus)
    → IsSound s
    → Attempts s readings
    → All (λ r. r.before % 2 ≡ 0) readings
    → IsMoment s (first_settled readings last)
      ⊎ (All (λ r. r.after ≢ r.before) readings × (first_settled readings last ≡ last))
unfolding first_settled
first_settled-IsMoment s [] last i none_left even = inr (tt, refl)
first_settled-IsMoment s (r ∷ rest) last i (attempt {u} gap small o later) even =
    let begun = Run-IsSound gap i in
    elim (Bool-cases (r.after == r.before)) [
      | inl same ↦
          inl (IsMoment-later gap (rw same (Observed-IsMoment begun small o even.0 (ground arith))))
      | inr changed ↦
          elim (first_settled-IsMoment u rest last (Run-IsSound (Observed-Run o) begun) later
            even.1) [
              | inl m ↦ inl (rw changed (IsMoment-later gap (IsMoment-later (Observed-Run o) m)))
              | inr fell ↦ inr (rw changed (((λ e. ground arith), fell.0), fell.1))
            ]
    ]

-- Where no attempt begins within a keeper cycle (its first generation is even) and each of them lasts
-- for less than 2^64 steps of the loops, the snapshot is a pair that the two locks guarded at one
-- moment, or every attempt saw the generation change and the pair is that of the fallback.
pub keeper_status_snapshot-IsMoment :
    (s : System) (readings : List Reading) (last : KeeperStatus × CycleStatus)
    → IsSound s
    → Attempts s (take snapshot_attempts readings)
    → All (λ r. r.before % 2 ≡ 0) (take snapshot_attempts readings)
    → IsMoment s (keeper_status_snapshot readings last)
      ⊎ (All (λ r. r.after ≢ r.before) (take snapshot_attempts readings)
          × (keeper_status_snapshot readings last ≡ last))
unfolding keeper_status_snapshot
keeper_status_snapshot-IsMoment s readings last i attempts even =
    first_settled-IsMoment s (take snapshot_attempts readings) last i attempts even
