-- ===== src/Prelude/Result.antt =====
-- `Result<A, E>` of the source, with the `?` operator as bind.
use mathlib.Core.Path.{◌≡◌, refl, subst}
use mathlib.Core.Bool.{Bool, true, false}
use mathlib.Core.Logic.{◌⊎◌, inl, inr}
use mathlib.Core.Option.{Option, none, some}

pub data Result {ℓ κ} (E : Type κ) (A : Type ℓ) : Type (ℓ ⊔ κ) where
  ok : A → Result E A
  err : E → Result E A

module _ {κ} {E : Type κ} where
  infixl 5 ◌>>=◌ ◌>>◌
  abbrev pub ◌>>=◌ {ℓ μ} : {A : Type ℓ} {B : Type μ} → Result E A → (A → Result E B) → Result E B
  ok a >>= f = f a
  err e >>= f = err e

  abbrev pub ◌>>◌ {ℓ} : {B : Type ℓ} → Result E (Unit {0}) → Result E B → Result E B
  m >> k = m >>= λ _. k

  -- `if !b { return Err(e) }`.
  abbrev pub ensure : Bool → E → Result E (Unit {0})
  ensure true e = ok tt
  ensure false e = err e

  abbrev pub ok_or {ℓ} : {A : Type ℓ} → Option A → E → Result E A
  ok_or none e = err e
  ok_or (some a) e = ok a

  pub Result-cases {ℓ} :
      {A : Type ℓ} (r : Result E A) → ((a : A) × (r ≡ ok a)) ⊎ ((e : E) × (r ≡ err e))
  Result-cases (ok a) = inl (a, refl)
  Result-cases (err e) = inr (e, refl)

abbrev pub map_err {ℓ κ μ} :
    {E : Type κ} {D : Type μ} {A : Type ℓ} → (E → D) → Result E A → Result D A
map_err f (ok a) = ok a
map_err f (err e) = err (f e)

abbrev pub map_ok {ℓ κ μ} :
    {E : Type κ} {A : Type ℓ} {B : Type μ} → (A → B) → Result E A → Result E B
map_ok f (ok a) = ok (f a)
map_ok f (err e) = err e

-- Inversion of a chain that ends well.
pub >>=-eq-ok {ℓ κ μ} :
    {E : Type κ} {A : Type ℓ} {B : Type μ} (m : Result E A) (f : A → Result E B) (b : B)
    → (m >>= f) ≡ ok b
    → (a : A) × (m ≡ ok a) × (f a ≡ ok b)
>>=-eq-ok (ok a) f b h = (a, refl, h)
>>=-eq-ok (err e) f b h = cc

pub ok_or-eq-ok {ℓ κ} :
    {E : Type κ} {A : Type ℓ} (o : Option A) (e : E) (a : A) → ok_or o e ≡ ok a → o ≡ some a
ok_or-eq-ok none e a h = cc
ok_or-eq-ok (some b) e a h = cc

pub ensure-eq-ok {κ} : {E : Type κ} (b : Bool) (e : E) (u : Unit {0}) → ensure b e ≡ ok u → b ≡ true
ensure-eq-ok true e u h = refl
ensure-eq-ok false e u h = cc

ok_injective {ℓ κ} :
    {E : Type κ} {A : Type ℓ} (x y : A) (e : ◌≡◌ {A = Result E A} (ok x) (ok y)) → x ≡ y
ok_injective x y e = cc

-- What holds of the value computed holds of the value returned.
pub transfer_ok {ℓ κ μ} :
    {E : Type κ} {A : Type ℓ} (P : A → Type μ) {a b : A} (e : ◌≡◌ {A = Result E A} (ok a) (ok b))
    → P a
    → P b
transfer_ok P {a} {b} e = subst P (ok_injective a b e)

-- The same for a chain of tests.
module _ {κ} {E : Type κ} {B : Type 0} {r : B} {m : Result E B} where
  pub step_passed : {c : Result E (Unit {0})} → (c >> m) ≡ ok r → (c ≡ ok tt) × (m ≡ ok r)
  step_passed {c = ok u} h = (refl, h)
  step_passed {c = err e} h = cc

  pub ensure_passed : {b : Bool} (e : E) → (ensure b e >> m) ≡ ok r → (b ≡ true) × (m ≡ ok r)
  ensure_passed {b = true} e h = (refl, h)
  ensure_passed {b = false} e h = cc
