-- ===== src/Config/Env/Load/Distinct.antt =====
-- config.rs: the check that no contract has two roles.
use so4_oracle.Prelude.{
  ◌≡◌, false, arith, Bool-cases, inl, inr, none, Option-cases, String, List, [], ◌∷◌, if◌then◌else◌,
}
use so4_oracle.Prelude.Map.{Map, lookup, insert}
use so4_oracle.Prelude.Text.{trim}
use so4_oracle.Config.Env.{is_blank, check_roles}

-- No value that is not blank is the key of an entry, or equal to a later value, up to blanks round it.
abbrev pub AreDistinct : Map String → List (String × String) → Type 0
AreDistinct seen [] = Unit
AreDistinct seen ((var, value) ∷ rest) =
    (is_blank value ≡ false → lookup (trim value) seen ≡ none)
    × AreDistinct (if is_blank value then seen else insert (trim value) var seen) rest

pub check_roles-AreDistinct :
    (seen : Map String) (roles : List (String × String))
    → check_roles seen roles ≡ []
    → AreDistinct seen roles
unfolding check_roles
check_roles-AreDistinct seen [] h = tt
check_roles-AreDistinct seen ((var, value) ∷ rest) h = elim (Bool-cases (is_blank value)) [
  | inl blank ↦
      rw blank
        ((λ e. absurd (cc e)), check_roles-AreDistinct seen rest (rw (blank, check_roles) at h))
  | inr filled ↦ elim (Option-cases (lookup (trim value) seen)) [
    | inl new ↦ rw filled (
      (λ e. new),
      check_roles-AreDistinct (insert (trim value) var seen) rest
          (rw (filled, new, check_roles) at h),
    )
    | inr (previous, old) ↦ absurd (ground arith)
  ]
]
