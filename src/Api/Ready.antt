-- ===== src/Api/Ready.antt =====
-- api/prices.rs: readiness, with the cache in front of its outside checks. Times are nanoseconds.
pub mod Checks
pub mod Sound
use so4_oracle.Prelude.{
  ℕ, zero, suc, ◌+◌, ◌-◌, ◌*◌, ◌^◌, ltb, leb, not, ◌&&◌, Bool, true, false, Option, none, some,
  String, is_empty, if◌then◌else◌,
}
use so4_oracle.Prelude.Int.{ℤ}
use so4_oracle.Prelude.Result.{Result, ok, err}
use so4_oracle.Rpc.{RpcError, balance_below_minimum}
use so4_oracle.State.{PriceCache, CycleStatus}
use so4_oracle.Keeper.Cycle.{is_balance_low}
use so4_oracle.Api.{ApiError}

abbrev pub unavailable : String → ApiError
unavailable message = record { status = 503; message = message }

-- `last_error` is the status and the message.
pub record ReadyCache : Type 0 where
  pub last_checked : Option ℕ
  pub last_error : Option ApiError

-- The rounds of `retry_ready_probe`; behind the last attempt there is no sleep.
unfoldable pub probe_rounds :
    {S E T : Type 0} (sleep : ℕ → S → S)
    → (probe : S → Result E T × S) → (is_terminal : E → Bool) → (left delay_ms : ℕ) → S
    → Result E T × S
probe_rounds sleep probe is_terminal zero delay_ms s = probe s
probe_rounds sleep probe is_terminal (suc left) delay_ms s =
    let (result, s') = probe s in
    elim result [
      | ok value ↦ (ok value, s')
      | err error ↦
          let rest = probe_rounds sleep probe is_terminal left (delay_ms * 2) (sleep delay_ms s') in
          if is_terminal error then (err error, s') else rest
    ]

-- READY_BALANCE_RETRY_ATTEMPTS = 3, READY_BALANCE_RETRY_BASE_DELAY_MS = 100
unfoldable pub retry_ready_probe :
    {S E T : Type 0} → (ℕ → S → S) → (S → Result E T × S) → (E → Bool) → S → Result E T × S
unfolding probe_rounds
retry_ready_probe sleep probe is_terminal s = probe_rounds sleep probe is_terminal 2 100 s

-- What readiness looks at outside, in a state `S`: the GET of the RPC's address under its timeout, the
-- balance check, the sleep between attempts and the clocks.
pub record Outside (S : Type 0) : Type 0 where
  pub http_get_rpc : S → Result String ℕ × S
  pub check_keeper_balance : S → Result RpcError ℤ × S
  pub sleep : ℕ → S → S
  pub instant : S → ℕ
  pub wall : S → ℕ

unfoldable pub probe_rpc_reachability : Result String ℕ → Result ApiError (Unit {0})
probe_rpc_reachability (err e) = err (unavailable "rpc_unreachable")
probe_rpc_reachability (ok status) =
    if leb 200 status && ltb status 300 then ok tt else err (unavailable "rpc_unhealthy")

abbrev pub is_below_minimum : RpcError → Bool
is_below_minimum e = is_balance_low (err e)

unfoldable pub balance_verdict : Result RpcError ℤ → Result ApiError (Unit {0})
balance_verdict (ok stroops) = ok tt
balance_verdict (err e) =
    if is_below_minimum e
    then err (unavailable "keeper_balance_low")
    else err (unavailable "keeper_balance_check_failed")

-- A loop that has not run within three of its intervals, or never.
abbrev pub is_loop_stale : (interval now : ℕ) → Option ℕ → Bool
is_loop_stale interval now none = true
is_loop_stale interval now (some last) = ltb (interval * 3) (now - last)

-- Checked less than three seconds ago.
abbrev pub is_recent : (now : ℕ) → ReadyCache → Bool
is_recent now cache = elim cache.last_checked [
  | none ↦ false
  | some last ↦ ltb (now - last) (3 * 10 ^ 9)
]

module _ {S : Type 0} (outside : Outside S) where
  abbrev pub probe_rpc : S → Result ApiError (Unit {0}) × S
  probe_rpc s = let (r, s') = outside.http_get_rpc s in (probe_rpc_reachability r, s')

  unfoldable pub perform_external_ready_checks : S → Result ApiError (Unit {0}) × S
  perform_external_ready_checks s =
      let (reached, s1) = retry_ready_probe outside.sleep probe_rpc (λ e. false) s in
      elim reached [
        | err e ↦ (err e, s1)
        | ok _ ↦
            let (balance, s2) =
              retry_ready_probe outside.sleep outside.check_keeper_balance is_below_minimum s1 in
            (balance_verdict balance, s2)
      ]

  -- `cut` is the state in which the timeout of 15 seconds has dropped the checks, where it has.
  unfoldable pub check_outside : (cut : Option S) → S → Result ApiError (Unit {0}) × S
  check_outside (some dropped) s = (err (unavailable "ready_check_timeout"), dropped)
  check_outside none s = perform_external_ready_checks s

  -- The verdict of a check is kept with its time.
  unfoldable pub remember : Result ApiError (Unit {0}) → S → ReadyCache
  remember (ok _) s = record { last_checked = some (outside.instant s); last_error = none }
  remember (err e) s = record { last_checked = some (outside.instant s); last_error = some e }

  abbrev cached_verdict : ReadyCache → Result ApiError (Unit {0})
  cached_verdict cache = elim cache.last_error [ none ↦ ok tt | some e ↦ err e ]

  unfoldable pub check_cached :
      (cut : Option S) → ReadyCache → S → Result ApiError (Unit {0}) × (ReadyCache × S)
  check_cached cut cache s =
      if is_recent (outside.instant s) cache
      then (cached_verdict cache, (cache, s))
      else let (result, s') = check_outside cut s in (result, (remember result s', s'))

  -- Without the body of the answer, which shows the counters.
  unfoldable pub ready :
      (price_interval keeper_interval : ℕ)
      → PriceCache
      → CycleStatus
      → (cut : Option S) → ReadyCache
      → S
      → Result ApiError (Unit {0}) × (ReadyCache × S)
  ready price_interval keeper_interval prices status cut cache s =
      if is_empty prices.prices
      then (err (unavailable "no_prices_cached"), (cache, s))
      else if is_loop_stale price_interval (outside.wall s) status.last_price_cycle_at
      then (err (unavailable "price_loop_stale"), (cache, s))
      else if is_loop_stale keeper_interval (outside.wall s) status.last_keeper_cycle_at
      then (err (unavailable "keeper_loop_stale"), (cache, s))
      else check_cached cut cache s
