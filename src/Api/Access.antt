-- ===== src/Api/Access.antt =====
-- api/mod.rs: who is let through to the admin's routes.
use so4_oracle.Prelude.{
  ℕ, ◌≡◌, refl, true, false, Bool-cases, inl, inr, Option, none, some, String, arith,
}
use so4_oracle.Prelude.Result.{ok}
use so4_oracle.Prelude.Text.{as_bytes}
use so4_oracle.Auth.{constant_time_eq}
use so4_oracle.Auth.Equal.{constant_time_eq_sound, constant_time_eq_refl}
use so4_oracle.State.Limiter.{is_blocked, record_success}
use so4_oracle.Api.{Request, Gate, client_of, token_of, is_token, from_request_parts}

-- A token is configured, the client is not blocked, and the request carries the bytes of the token.
abbrev pub MayPass : Option String → ℕ → Request → Gate → Type 0
MayPass admin_api_token now request gate =
    (expected : String) × (actual : String) × (admin_api_token ≡ some expected)
    × (is_blocked gate.limiter (client_of request) now ≡ false)
    × (token_of request ≡ some actual)
    × (as_bytes actual ≡ as_bytes expected)

is_token-bytes :
    (expected : String) (sent : Option String)
    → is_token expected sent ≡ true
    → (actual : String) × (sent ≡ some actual) × (as_bytes actual ≡ as_bytes expected)
unfolding is_token
is_token-bytes expected none h = absurd (ground arith)
is_token-bytes expected (some actual) h =
    (actual, refl, constant_time_eq_sound (as_bytes actual) (as_bytes expected) h)

let_through :
    (token : Option String) (now : ℕ) (request : Request) (gate : Gate)
    → (from_request_parts token now request gate).0 ≡ ok tt
    → MayPass token now request gate
unfolding from_request_parts
let_through none now request gate h = absurd (cc h)
let_through (some expected) now request gate h =
    elim (Bool-cases (is_blocked gate.limiter (client_of request) now)) [
      | inl b ↦ absurd (ground arith)
      | inr free ↦ elim (Bool-cases (is_token expected (token_of request))) [
        | inr wrong ↦ absurd (ground arith)
        | inl right ↦
            let (actual, sent, same) = is_token-bytes expected (token_of request) right in
            (expected, actual, refl, free, sent, same)
      ]
    ]

-- The gate behind a login: the client's failures are forgotten.
abbrev pub after_login : Request → Gate → Gate
after_login request gate = record gate { limiter = record_success gate.limiter (client_of request) }

passes :
    (token : Option String) (now : ℕ) (request : Request) (gate : Gate)
    → MayPass token now request gate
    → from_request_parts token now request gate ≡ (ok tt, after_login request gate)
unfolding from_request_parts is_token
passes token now request gate (expected, actual, set, free, sent, same) =
    let right : constant_time_eq (as_bytes actual) (as_bytes expected) ≡ true =
      rw same (constant_time_eq_refl (as_bytes expected)) in
    rw (set, free, sent, right, from_request_parts, is_token) refl

-- A request is let through to the admin's routes exactly if a token is configured, its client is not
-- blocked for its failures, and its Authorization header is "Bearer " with the bytes of the token
-- behind it; it then leaves the client without failures on record and changes nothing else.
pub from_request_parts-MayPass :
    (token : Option String) (now : ℕ) (request : Request) (gate : Gate)
    → ((from_request_parts token now request gate).0 ≡ ok tt → MayPass token now request gate)
      × (MayPass token now request gate
          → from_request_parts token now request gate ≡ (ok tt, after_login request gate))
from_request_parts-MayPass token now request gate =
    (let_through token now request gate, passes token now request gate)
