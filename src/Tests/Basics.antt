-- ===== src/Tests/Basics.antt =====
-- The theorems on the retry loop, the submission, the encoding of prices, and the shared state.
use so4_oracle.Prelude.{
  ℕ, suc, ◌+◌, ◌*◌, ◌^◌, ◌-◌, ◌≤◌, ◌<◌, ◌≡◌, ◌≢◌, refl, Bool, true, false, ◌&&◌, max, none, some,
  List, [], ◌∷◌, String, arith, leb, ltb, str_eq, if◌then◌else◌, str_eq_iff,
}
use so4_oracle.Prelude.Int.{negsuc, fits_i128}
use so4_oracle.Prelude.Map.{lookup, Unique}
use so4_oracle.Prelude.Result.{Result, ok, err}
use so4_oracle.Rpc
use so4_oracle.Rpc.{RpcError, http_error, rpc_post, take_result}
use so4_oracle.Retry.{retry_with_backoff, retry_rounds}
use so4_oracle.Retry.Bounds.{retry_with_backoff-calls}
use so4_oracle.Submit.{
  Node, SubmitError, rpc, poll_timeout, may_still_confirm, submit_and_poll, send_transaction_xdr,
  accept_status, parse_send_response, poll_until_confirmed, poll_rounds, read_poll,
  parse_get_transaction_response,
}
use so4_oracle.Submit.Poll.{submit_and_poll-may_still_confirm, submit_and_poll-posts}
use so4_oracle.Chain.ScVal.{i128_to_int128_parts}
use so4_oracle.Chain.ScVal.Parts.{value, IsInt64, value-i128_to_int128_parts}
use so4_oracle.State.Limiter.{
  Failures, is_blocked, record_failures, admin_auth_window, is_blocked-record_failures,
}
use so4_oracle.Tests.Fixtures.{echo, replied, with_status}

-- A closure that fails until the world counts two calls. The other count is the longest sleep.
abbrev third_time : ℕ × ℕ → Result String ℕ × (ℕ × ℕ)
third_time (calls, slept) = (if leb 2 calls then ok calls else err "busy", (calls + 1, slept))

abbrev nap : ℕ → ℕ × ℕ → ℕ × ℕ
nap d (calls, slept) = (calls, max slept d)

retry_with_backoff-calls_example :
    let w = (retry_with_backoff (λ e. true) nap third_time 2 100 30_000 (0, 0)).1 in
    (0 + 1 ≤ w.0) × (w.0 ≤ 0 + 3)
retry_with_backoff-calls_example =
    retry_with_backoff-calls (λ e. true) nap third_time (λ w. w.0) 2 100 30_000 (0, 0) (λ v. refl)
      (λ d v. refl)

-- Two attempts are too few.
busy : (retry_with_backoff (λ e. true) nap third_time 1 100 30_000 (0, 0)).0 ≡ err "busy"
unfolding retry_with_backoff retry_rounds
busy = refl

-- A node that answers every request behind the first with status 400.
abbrev flaky : Node ℕ
flaky = record (echo (replied (with_status "NOT_FOUND" []))) {
  http_post = λ payload w. (ok (if leb 1 w then 400 else 200, payload), w + 1);
}

-- The first poll for an accepted transaction meets it.
gives_up : (submit_and_poll flaky "tx" 0).0 ≡ err (rpc (http_error 400 "tx"))
unfolding submit_and_poll send_transaction_xdr retry_with_backoff retry_rounds rpc_post
    parse_send_response accept_status poll_until_confirmed poll_rounds read_poll Rpc.is_retryable
    Rpc.truncate_error_body so4_oracle.Prelude.Text.count_chars so4_oracle.Prelude.Text.trim
gives_up = refl

abbrev slow : Node ℕ
slow = echo (replied (with_status "NOT_FOUND" []))

abbrev slow_result : Result SubmitError ℕ × ℕ
slow_result = submit_and_poll slow "tx" 0

timed_out : (submit_and_poll slow "tx" 0).0 ≡ err (poll_timeout "tx")
unfolding submit_and_poll send_transaction_xdr retry_with_backoff retry_rounds rpc_post
    parse_send_response accept_status poll_until_confirmed poll_rounds read_poll
    parse_get_transaction_response
timed_out = refl

unsettled : may_still_confirm (poll_timeout "tx") ≡ true
unfolding may_still_confirm
unsettled = refl

submit_and_poll-may_still_confirm_example :
    (hash : String) × ((send_transaction_xdr slow "tx" 0).0 ≡ ok hash)
    × (poll_timeout "tx" ≡ poll_timeout hash)
    × ((submit_and_poll slow "tx" 0).1 ≡ (send_transaction_xdr slow "tx" 0).1 + 6)
submit_and_poll-may_still_confirm_example =
    submit_and_poll-may_still_confirm slow (λ w. w) (λ payload w. refl) (λ d w. refl) (λ d w. refl)
      "tx" 0 (poll_timeout "tx") timed_out unsettled

submit_and_poll-posts_example : (submit_and_poll slow "tx" 0).1 ≤ 0 + 9
submit_and_poll-posts_example =
    submit_and_poll-posts slow (λ w. w) (λ payload w. refl) (λ d w. refl) (λ d w. refl) "tx" 0

fits : fits_i128 (negsuc 4) ≡ true
unfolding fits_i128
fits = refl

value-i128_to_int128_parts_example :
    let p = i128_to_int128_parts (negsuc 4) in IsInt64 p.hi × (p.lo < 2 ^ 64) × (value p ≡ negsuc 4)
value-i128_to_int128_parts_example = value-i128_to_int128_parts (negsuc 4) fits

abbrev one_two_three : List ℕ
one_two_three = 1 ∷ 2 ∷ 3 ∷ []

abbrev no_failures : Failures
no_failures = []

new : lookup "eve" no_failures ≡ none
unfolding lookup
new = refl

is_blocked-record_failures_example :
    is_blocked (record_failures "eve" (0 ∷ 1 ∷ 2 ∷ 3 ∷ 4 ∷ []) no_failures) "eve" 5
    ≡ (leb 5 (1 + 4) && ltb (5 - 0) admin_auth_window)
is_blocked-record_failures_example =
    is_blocked-record_failures "eve" 0 (1 ∷ 2 ∷ 3 ∷ 4 ∷ []) no_failures 5 tt new (
      (omega arith, omega arith),
      ((omega arith, omega arith), ((omega arith, omega arith), ((omega arith, omega arith), tt))),
    )

abbrev one_record : Failures
one_record = ("bob", (5, 0)) ∷ []

one_record-Unique : Unique one_record
unfolding lookup
one_record-Unique = (refl, tt)

eve-not-bob : ◌≢◌ {A = String} "eve" "bob"
eve-not-bob e = ground (arith, (str_eq_iff "eve" "bob").1 e)
