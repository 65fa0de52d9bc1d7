-- ===== src/Config/Env/Load/Sound.antt =====
-- config.rs: what a field without an error satisfies.
use so4_oracle.Prelude.{
  ℕ, ◌≤◌, ◌<◌, ◌≡◌, refl, arith, ◌==◌, true, false, Bool-cases, inl, inr, Option, none, some, List,
  [], ◌∷◌, String, str_eq, str_eq_iff, is_empty, length, Option-cases, ltb, All,
}
use so4_oracle.Prelude.Number.Unsigned.{parse_unsigned}
use so4_oracle.Prelude.Result.{Result, ok, err, map_err, Result-cases, >>=-eq-ok, transfer_ok}
use so4_oracle.Prelude.Text.{trim, count_chars}
use so4_oracle.Config.Env.{
  EnvError, Env, collect, required, parse_or_default, parse_positive, validate_hex_key,
  validate_admin_api_token, unless_blank, is_blank, required_any, Network, testnet, mainnet,
}
use so4_oracle.Config.Env.Load.{flatten, checked_of, admin_api_token_of, oracle_of, contract_of}

abbrev pub AllEmpty : List (List EnvError) → Type 0
AllEmpty errors = All (λ es. es ≡ []) errors

pub is_empty-eq : {A : Type 0} (xs : List A) → is_empty xs ≡ true → xs ≡ []
is_empty-eq [] h = refl
is_empty-eq (x ∷ xs) h = absurd (cc h)

pub flatten-AllEmpty : (errors : List (List EnvError)) → flatten errors ≡ [] → AllEmpty errors
unfolding flatten
flatten-AllEmpty [] h = tt
flatten-AllEmpty ([] ∷ rest) h = (refl, flatten-AllEmpty rest h)
flatten-AllEmpty ((e ∷ es) ∷ rest) h = absurd (cc h)

pub collect-ok :
    {A : Type 0} (r : Result EnvError A) (default : A)
    → (collect r default).1 ≡ []
    → r ≡ ok (collect r default).0
collect-ok (ok value) default h = refl
collect-ok (err e) default h = absurd (cc h)

pub parse_positive-positive :
    (bits : ℕ) (env : Env) (var default : String) (n : ℕ)
    → parse_positive bits env var default ≡ ok n
    → 0 < n
unfolding parse_positive
parse_positive-positive bits env var default n h =
    let (m, parsed, rest) =
      >>=-eq-ok (parse_or_default (parse_unsigned bits) env var default) _ n h in
    elim (Bool-cases (m == 0)) [ inl e ↦ absurd (ground arith) | inr e ↦ ground arith ]

-- The key is the hexadecimal form of so many bytes.
pub record IsHexKey (hex_decode : String → Result String (List ℕ)) (size : ℕ) (value : String)
    : Type 0 where
  pub bytes : List ℕ
  pub decoded : hex_decode value ≡ ok bytes
  pub size_eq : length bytes ≡ size

pub validate_hex_key-IsHexKey :
    (hex_decode : String → Result String (List ℕ)) (var value : String) (size : ℕ) (r : String)
    → validate_hex_key hex_decode var value size ≡ ok r
    → IsHexKey hex_decode size r
unfolding validate_hex_key
validate_hex_key-IsHexKey hex_decode var value size r h = elim (Result-cases (hex_decode value)) [
  | inl (bytes, decoded) ↦ elim (Bool-cases (length bytes == size)) [
    | inl e ↦ elim (Bool-cases (str_eq value r)) [
      | inl same ↦ record {
        bytes = bytes;
        decoded = rw ((str_eq_iff value r).0 same) at decoded;
        size_eq = ground arith;
      }
      | inr other ↦ absurd (ground (arith, str_eq_iff value r))
    ]
    | inr e ↦ absurd (ground arith)
  ]
  | inr (e, failed) ↦ absurd (ground arith)
]

pub checked_of-ok :
    (raw : Result EnvError String) (check : String → Result EnvError String)
    → (empty : (s : String) → raw ≡ ok s → str_eq s "" ≡ false) → (checked_of raw check).1 ≡ []
    → (s : String) × check s ≡ ok (checked_of raw check).0
unfolding checked_of
checked_of-ok (err e) check filled h = absurd (cc h)
checked_of-ok (ok raw) check filled h =
    rw (filled raw refl) (raw, collect-ok (check raw) "" (rw (filled raw refl) at h))

trim_empty : trim "" ≡ ""
unfolding trim
trim_empty = refl

pub filled_of_not_blank : (value : String) → is_blank value ≡ false → str_eq value "" ≡ false
filled_of_not_blank value h = elim (Bool-cases (str_eq value "")) [
  | inl e ↦
      let blank : is_blank value ≡ true = rw (((str_eq_iff value "").0 e), trim_empty) refl in
      absurd (cc (h, blank))
  | inr e ↦ e
]

unless_blank-not_blank :
    (set : Option String) (value : String) → unless_blank set ≡ some value → is_blank value ≡ false
unless_blank-not_blank none value h = absurd (cc h)
unless_blank-not_blank (some v) value h = elim (Bool-cases (is_blank v)) [
  | inl blank ↦ absurd (ground arith)
  | inr filled ↦ let same : v ≡ value = cc (rw filled at h) in rw same at filled
]

pub required-not_blank :
    (env : Env) (var value : String) → required env var ≡ ok value → is_blank value ≡ false
unfolding required
required-not_blank env var value h = elim (Option-cases (unless_blank (env var))) [
  | inl none_set ↦ absurd (ground arith)
  | inr (v, set) ↦
      transfer_ok (λ s. is_blank s ≡ false) (rw set at h) (unless_blank-not_blank _ v set)
]

pub admin_api_token_of-long :
    (value : Option String) (token : String)
    → (admin_api_token_of value).1 ≡ []
    → (admin_api_token_of value).0 ≡ some token
    → 32 ≤ count_chars (trim token)
unfolding admin_api_token_of validate_admin_api_token
admin_api_token_of-long none token e h = absurd (cc h)
admin_api_token_of-long (some value) token e h =
    elim (Result-cases (validate_admin_api_token value)) [
      | inl (u, v) ↦ elim (Bool-cases (ltb (count_chars (trim value)) 32)) [
        | inl short ↦ absurd (ground arith)
        | inr long ↦
            let bound : 32 ≤ count_chars (trim value) = ground arith in
            let same : value ≡ token = cc (rw (admin_api_token_of, v) at h) in rw same at bound
      ]
      | inr (reason, v) ↦ absurd (ground arith)
    ]

pub map_err-eq-ok :
    {E F A : Type 0} (f : E → F) (r : Result E A) (a : A) → map_err f r ≡ ok a → r ≡ ok a
map_err-eq-ok f (ok x) a h = cc h
map_err-eq-ok f (err e) a h = absurd (cc h)

required_any-not_blank :
    (env : Env) (primary fallback value : String)
    → required_any env primary fallback ≡ ok value
    → is_blank value ≡ false
unfolding required_any
required_any-not_blank env primary fallback value h =
    elim (Option-cases (unless_blank (env primary))) [
      | inl none_set ↦ elim (Option-cases (unless_blank (env fallback))) [
        | inl neither ↦ absurd (ground arith)
        | inr (v, set) ↦
            transfer_ok (λ s. is_blank s ≡ false) (rw (none_set, set) at h)
              (unless_blank-not_blank _ v set)
      ]
      | inr (v, set) ↦
          transfer_ok (λ s. is_blank s ≡ false) (rw set at h) (unless_blank-not_blank _ v set)
    ]

pub oracle_of-not_blank :
    (env : Env) (network : Network)
    → (oracle_of env network).1 ≡ []
    → is_blank (oracle_of env network).0 ≡ false
oracle_of-not_blank env testnet h =
    required_any-not_blank env _ _ _
      (collect-ok (required_any env "ORACLE_CONTRACT_ID" "ORACLE") "" h)
oracle_of-not_blank env mainnet h =
    required-not_blank env _ _ (collect-ok (required env "ORACLE_CONTRACT_ID") "" h)

pub contract_of-not_blank :
    (env : Env) (var : String)
    → (contract_of env var).1 ≡ []
    → is_blank (contract_of env var).0 ≡ false
contract_of-not_blank env var h = required-not_blank env var _ (collect-ok (required env var) "" h)
