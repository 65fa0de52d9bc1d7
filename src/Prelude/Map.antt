-- ===== src/Prelude/Map.antt =====
-- `HashMap<String, V>` and `BTreeMap<String, V>`, as association lists. The programs that use them
-- here read them by key; no theorem depends on the order of the entries.
use Prim.Native.String.{String}
use mathlib.Core.Path.{◌≡◌, refl, ap, subst}
use mathlib.Core.Bool.{Bool, true, false}
use mathlib.Core.Logic.{inl, inr}
use mathlib.Core.List.{List, [], ◌∷◌}
use mathlib.Core.Option.{Option, none, some}
use native.Mathlib.Omega.{arith}
use so4_oracle.Prelude.Tests.{if◌then◌else◌, str_eq, str_eq_iff, Bool-cases, transfer}
use so4_oracle.Prelude.Lists.{filter}

abbrev pub Map {ℓ} : Type ℓ → Type ℓ
Map V = List (String × V)

module _ {ℓ} {V : Type ℓ} where
  unfoldable pub lookup : String → Map V → Option V
  lookup k [] = none
  lookup k ((j, v) ∷ m) = let rest = lookup k m in if str_eq j k then some v else rest

  unfoldable pub insert : String → V → Map V → Map V
  insert k v [] = (k, v) ∷ []
  insert k v ((j, w) ∷ m) =
      let rest = insert k v m in if str_eq j k then (k, v) ∷ m else (j, w) ∷ rest

  unfoldable pub remove : String → Map V → Map V
  remove k [] = []
  remove k ((j, v) ∷ m) = let rest = remove k m in if str_eq j k then rest else (j, v) ∷ rest

  unfoldable pub contains_key : String → Map V → Bool
  contains_key k m = elim (lookup k m) [ none ↦ false | some v ↦ true ]

  unfoldable pub retain : (String → V → Bool) → Map V → Map V
  retain p m = filter (λ e. p e.0 e.1) m

  pub lookup-insert :
      (j k : String) (v : V) (m : Map V)
      → lookup j (insert k v m) ≡ (if str_eq k j then some v else lookup j m)
  unfolding lookup insert
  lookup-insert j k v [] = refl
  lookup-insert j k v ((i, w) ∷ m) =
      ground (arith, str_eq_iff k j, str_eq_iff i k, str_eq_iff i j, lookup-insert j k v m)

  pub lookup-remove :
      (j k : String) (m : Map V) → lookup j (remove k m) ≡ (if str_eq k j then none else lookup j m)
  unfolding lookup remove
  lookup-remove j k [] = ground arith
  lookup-remove j k ((i, w) ∷ m) =
      ground (arith, str_eq_iff k j, str_eq_iff i k, str_eq_iff i j, lookup-remove j k m)

  -- Each key stands once, as in the maps of the source.
  abbrev pub Unique : Map V → Type ℓ
  Unique [] = Unit
  Unique ((k, v) ∷ m) = (lookup k m ≡ none) × Unique m

  pub insert-Unique : (k : String) (v : V) (m : Map V) → Unique m → Unique (insert k v m)
  unfolding insert lookup
  insert-Unique k v [] u = (refl, tt)
  insert-Unique k v ((j, w) ∷ m) u =
      ground (arith, insert-Unique k v m u.1, lookup-insert j k v m, str_eq_iff j k, str_eq_iff k j)

  pub remove-Unique : (k : String) (m : Map V) → Unique m → Unique (remove k m)
  unfolding remove
  remove-Unique k [] u = tt
  remove-Unique k ((j, w) ∷ m) u = ground (arith, remove-Unique k m u.1, lookup-remove j k m)

  lookup-retain-none :
      (p : String → V → Bool) (k : String) (m : Map V)
      → lookup k m ≡ none
      → lookup k (retain p m) ≡ none
  unfolding lookup retain
  lookup-retain-none p k [] h = refl
  lookup-retain-none p k ((j, w) ∷ m) h = ground (arith, lookup-retain-none p k m)

  pub retain-Unique : (p : String → V → Bool) (m : Map V) → Unique m → Unique (retain p m)
  unfolding retain
  retain-Unique p [] u = tt
  retain-Unique p ((j, w) ∷ m) u =
      ground (arith, retain-Unique p m u.1, lookup-retain-none p j m u.0)

  -- What stays of a key's entry.
  abbrev pub kept : (String → V → Bool) → String → Option V → Option V
  kept p k none = none
  kept p k (some v) = if p k v then some v else none

  pub lookup-retain :
      (p : String → V → Bool) (k : String) (m : Map V)
      → Unique m
      → lookup k (retain p m) ≡ kept p k (lookup k m)
  unfolding lookup retain
  lookup-retain p k [] u = refl
  lookup-retain p k ((j, w) ∷ m) u = ground (
    arith,
    lookup-retain p k m u.1,
    lookup-retain-none p k m,
    str_eq_iff j k,
    ap (λ i. lookup i m) {x = j} {y = k},
  )

  -- What holds of every entry.
  abbrev pub AllEntries {κ} : (String → V → Type κ) → Map V → Type κ
  AllEntries P [] = Unit
  AllEntries P ((k, v) ∷ m) = P k v × AllEntries P m

  pub insert-AllEntries {κ} :
      (P : String → V → Type κ) (k : String) (v : V) (m : Map V)
      → P k v
      → AllEntries P m
      → AllEntries P (insert k v m)
  unfolding insert
  insert-AllEntries P k v [] new old = (new, tt)
  insert-AllEntries P k v ((j, w) ∷ m) new old = elim (Bool-cases (str_eq j k)) [
    | inl same ↦ rw (same, insert) (new, old.1)
    | inr other ↦ rw (other, insert) (old.0, insert-AllEntries P k v m new old.1)
  ]

  pub lookup-AllEntries {κ} :
      (P : String → V → Type κ) (k : String) (v : V) (m : Map V)
      → AllEntries P m
      → lookup k m ≡ some v
      → P k v
  unfolding lookup
  lookup-AllEntries P k v [] all e = absurd (cc e)
  lookup-AllEntries P k v ((j, w) ∷ m) all e = elim (Bool-cases (str_eq j k)) [
    | inl same ↦
        subst (λ i. P i v) ((str_eq_iff j k).0 same) (transfer (P j) (rw (same, lookup) at e) all.0)
    | inr other ↦ lookup-AllEntries P k v m all.1 (rw (other, lookup) at e)
  ]
