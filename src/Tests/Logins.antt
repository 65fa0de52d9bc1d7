-- ===== src/Tests/Logins.antt =====
-- The theorem on the gate of the admin's routes: a client with two failures on record logs in.
use so4_oracle.Prelude.{◌≡◌, refl, some, [], ◌∷◌}
use so4_oracle.Prelude.Result.{ok, err}
use so4_oracle.Prelude.Map.{lookup}
use so4_oracle.Prelude.Text.{strip_prefix, as_bytes}
use so4_oracle.Auth.{constant_time_eq}
use so4_oracle.State.Limiter.{is_blocked}
use so4_oracle.Api.{Request, Gate, is_token, from_request_parts, unauthorized}
use so4_oracle.Api.Access.{MayPass, after_login, from_request_parts-MayPass}

abbrev gate : Gate
gate = record { limiter = ("10.0.0.1", (2, 100)) ∷ []; http_auth_failures = [] }

abbrev login : Request
login = record {
  ip = some "10.0.0.1";
  authorization = some "Bearer s3cret";
  route = some "/metrics";
}

from_request_parts-MayPass_example :
    ((from_request_parts (some "s3cret") 200 login gate).0 ≡ ok tt
      → MayPass (some "s3cret") 200 login gate)
    × (MayPass (some "s3cret") 200 login gate
        → from_request_parts (some "s3cret") 200 login gate ≡ (ok tt, after_login login gate))
from_request_parts-MayPass_example = from_request_parts-MayPass (some "s3cret") 200 login gate

logged_in : (from_request_parts (some "s3cret") 200 login gate).0 ≡ ok tt
unfolding from_request_parts is_blocked is_token strip_prefix as_bytes constant_time_eq lookup
logged_in = refl

-- A prefix of the token is refused.
refused : (from_request_parts (some "s3cret2") 200 login gate).0 ≡ err unauthorized
unfolding from_request_parts is_blocked is_token strip_prefix as_bytes constant_time_eq lookup
refused = refl
