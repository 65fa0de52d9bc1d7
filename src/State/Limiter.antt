-- ===== src/State/Limiter.antt =====
-- `AdminAuthLimiter` of state.rs: failed admin logins per client. `now` is the caller's `Instant`
-- in nanoseconds; `duration_since` stops at 0, as `-` does.
use so4_oracle.Prelude.{
  ℕ, ◌+◌, ◌-◌, ◌*◌, ◌^◌, ◌≤◌, ◌<◌, ◌≡◌, refl, Bool, false, ◌&&◌, Option, none, some, List, [], ◌∷◌,
  String, length, All, arith, ltb, leb, str_eq, str_eq_iff, str_eq_refl, if◌then◌else◌, Bool-cases,
  inl, inr, ap, ◌∙◌, ◌≢◌,
}
use so4_oracle.Prelude.Map.{
  Map, lookup, insert, remove, retain, Unique, insert-Unique, retain-Unique, lookup-insert,
  lookup-remove, lookup-retain, kept,
}

-- MAX_ADMIN_AUTH_FAILURES, ADMIN_AUTH_WINDOW, MAX_TRACKED_ADMIN_CLIENTS
abbrev pub max_admin_auth_failures : ℕ
max_admin_auth_failures = 5

abbrev pub admin_auth_window : ℕ
admin_auth_window = 60 * 10 ^ 9

abbrev pub max_tracked_admin_clients : ℕ
max_tracked_admin_clients = 10_000

-- For each client the failures of the current window, and when it started.
abbrev pub Failures : Type 0
Failures = Map (ℕ × ℕ)

abbrev spent : ℕ → Option (ℕ × ℕ) → Bool
spent now none = false
spent now (some (failed, start)) =
    leb max_admin_auth_failures failed && ltb (now - start) admin_auth_window

unfoldable pub is_blocked : Failures → String → ℕ → Bool
is_blocked failures client now = spent now (lookup client failures)

abbrev is_current : ℕ → String → ℕ × ℕ → Bool
is_current now client (failed, start) = ltb (now - start) admin_auth_window

-- `entry(client).or_insert((0, now))`, a new window where the old one is over, and one failure more.
abbrev counted : ℕ → Option (ℕ × ℕ) → ℕ × ℕ
counted now none = (1, now)
counted now (some (failed, start)) =
    if leb admin_auth_window (now - start) then (1, now) else (failed + 1, start)

unfoldable pub record_failure : Failures → String → ℕ → Failures
record_failure failures client now =
    let tracked =
      if leb max_tracked_admin_clients (length failures)
      then retain (is_current now) failures
      else failures in
    insert client (counted now (lookup client tracked)) tracked

unfoldable pub record_success : Failures → String → Failures
record_success failures client = remove client failures

pub record_failures : String → List ℕ → Failures → Failures
record_failures client [] failures = failures
record_failures client (t ∷ ts) failures =
    record_failures client ts (record_failure failures client t)

lookup-record_failure :
    (failures : Failures) (client : String) (now : ℕ) (other : String)
    → Unique failures
    → lookup other (record_failure failures client now) ≡ (
        if str_eq client other
        then some (counted now (lookup client failures))
        else (if leb max_tracked_admin_clients (length failures)
            then kept (is_current now) other (lookup other failures)
            else lookup other failures))
unfolding record_failure
lookup-record_failure failures client now other u = ground (
  arith,
  lookup-insert other client (counted now (lookup client failures)) failures,
  lookup-insert other client (counted now (lookup client (retain (is_current now) failures)))
      (retain (is_current now) failures),
  lookup-retain (is_current now) client failures u,
  lookup-retain (is_current now) other failures u,
)

record_failure-Unique :
    (failures : Failures) (client : String) (now : ℕ)
    → Unique failures
    → Unique (record_failure failures client now)
unfolding record_failure
record_failure-Unique failures client now u =
    elim (Bool-cases (leb max_tracked_admin_clients (length failures))) [
      | inl full ↦ rw full (insert-Unique client _ _ (retain-Unique (is_current now) failures u))
      | inr room ↦ rw room (insert-Unique client _ failures u)
    ]

-- The times of a run of failures that fall into the window that began at `start`.
abbrev InWindow : ℕ → List ℕ → Type 0
InWindow start = All λ t. (start ≤ t) × (t < start + admin_auth_window)

lookup-record_failures :
    (client : String) (ts : List ℕ) (failures : Failures) (n start : ℕ)
    → Unique failures
    → InWindow start ts
    → lookup client failures ≡ some (n, start)
    → lookup client (record_failures client ts failures) ≡ some (n + length ts, start)
unfolding record_failures
lookup-record_failures client [] failures n start u w h = h ∙ ground arith
lookup-record_failures client (t ∷ ts) failures n start u w h =
    lookup-record_failures client ts (record_failure failures client t) (n + 1) start
      (record_failure-Unique failures client t u) w.1
      (lookup-record_failure failures client t client u ∙ rw (str_eq_refl client, h) (ground arith))
    ∙ ground arith

-- Where the table holds one record per client: a client that had no record and fails at the times
-- `t ∷ ts`, all within one window, is blocked at a later moment exactly if the failures are five or
-- more and the window is not over.
pub is_blocked-record_failures :
    (client : String) (t : ℕ) (ts : List ℕ) (failures : Failures) (now : ℕ)
    → Unique failures
    → lookup client failures ≡ none
    → InWindow t ts
    → is_blocked (record_failures client (t ∷ ts) failures) client now
      ≡ (leb 5 (1 + length ts) && ltb (now - t) admin_auth_window)
unfolding is_blocked record_failures
is_blocked-record_failures client t ts failures now u new w = ap (spent now) (
    lookup-record_failures client ts (record_failure failures client t) 1 t
      (record_failure-Unique failures client t u) w
      (lookup-record_failure failures client t client u ∙ rw (str_eq_refl client, new) refl))

-- Where the table holds one record per client, a failure of one client changes for no other whether
-- it is blocked at that moment or later, also when the table is full and old records are dropped.
pub is_blocked-record_failure_other :
    (failures : Failures) (client other : String) (now later : ℕ)
    → Unique failures
    → client ≢ other
    → now ≤ later
    → is_blocked (record_failure failures client now) other later ≡ is_blocked failures other later
unfolding is_blocked
is_blocked-record_failure_other failures client other now later u ne h =
    ap (spent later) (lookup-record_failure failures client now other u)
    ∙ ground (arith, str_eq_iff client other, lookup other failures)

-- A successful login clears the client's record and no other's.
pub is_blocked-record_success :
    (failures : Failures) (client other : String) (now : ℕ)
    → is_blocked (record_success failures client) other now
      ≡ (if str_eq client other then false else is_blocked failures other now)
unfolding is_blocked record_success
is_blocked-record_success failures client other now =
    ap (spent now) (lookup-remove other client failures) ∙ ground arith
