-- ===== src/Api/Submissions.antt =====
-- api/prices.rs, `failed_submissions`: the failures on record, the latest first.
use Prim.Native.Char.{Char, code}
use Prim.Native.String.{String as Text, ◌++◌ as append}
use text.Mathlib.TextLemmas.{cons-append, nil-append}
use mathlib.Core.List.{reverse}
use so4_oracle.Prelude.{
  ℕ, ◌≡◌, ap, ◌∙◌, min, Bool, true, false, Option, none, some, List, [], ◌∷◌, String, length, take,
  filter, refl, ◌==◌, arith, inl, inr, Bool-cases, Option-cases, sym,
}
use so4_oracle.Prelude.Reverse.{reverse-drop}
use so4_oracle.Prelude.Text.{strip_prefix}
use so4_oracle.State.{FailedSubmission}
use so4_oracle.State.Ring.{RingBuffer, push_all, push_all-last_n}
use so4_oracle.Metrics.Labels.{same_char}

pub record FailedSubmissionsQuery : Type 0 where
  pub operation : Option String
  pub limit : Option ℕ

pub record FailuresResponse : Type 0 where
  pub failures : List FailedSubmission
  pub total_count : ℕ

-- FAILURE_RING_CAPACITY
abbrev pub failure_ring_capacity : ℕ
failure_ring_capacity = 256

-- `text.starts_with(prefix)`
abbrev starts_with : String → String → Bool
starts_with text prefix = elim (strip_prefix text prefix) [ none ↦ false | some rest ↦ true ]

abbrev pub is_asked_for : Option String → FailedSubmission → Bool
is_asked_for none failure = true
is_asked_for (some op) failure = starts_with failure.operation op

abbrev pub limit_of : Option ℕ → ℕ
limit_of none = 100
limit_of (some limit) = min limit 256

-- The failures that are asked for, of a list with the latest first.
unfoldable pub respond : FailedSubmissionsQuery → List FailedSubmission → FailuresResponse
respond query latest_first =
    let filtered = filter (is_asked_for query.operation) latest_first in
    record { failures = take (limit_of query.limit) filtered; total_count = length filtered }

unfoldable pub failed_submissions :
    FailedSubmissionsQuery → RingBuffer FailedSubmission → FailuresResponse
failed_submissions query failures = respond query (reverse failures.items)

-- What the query asks for: everything, or the operations that begin with a text.
abbrev pub AsksFor : Option String → FailedSubmission → Type 0
AsksFor none failure = Unit
AsksFor (some op) failure = (rest : String) × (failure.operation ≡ append op rest)

-- `ys` are the elements of `xs` with the property, in their order.
pub data Picked {A : Type 0} (P : A → Type 0) : List A → List A → Type 0 where
  none_left : Picked P [] []
  take_it : {x : A} {xs ys : List A} → P x → Picked P xs ys → Picked P (x ∷ xs) (x ∷ ys)
  pass_by : {x : A} {xs ys : List A} → ¬ P x → Picked P xs ys → Picked P (x ∷ xs) ys

filter-Picked :
    {A : Type 0} (P : A → Type 0) (test : A → Bool)
    → ((x : A) → test x ≡ true → P x)
    → ((x : A) → test x ≡ false → ¬ P x)
    → (xs : List A) → Picked P xs (filter test xs)
filter-Picked P test sound complete [] = none_left
filter-Picked P test sound complete (x ∷ xs) =
    let rest = filter-Picked P test sound complete xs in
    elim (Bool-cases (test x)) [
      | inl q ↦ rw q (take_it (sound x q) rest)
      | inr q ↦ rw q (pass_by (complete x q) rest)
    ]

starts_with-cons :
    (c d : Char) (s p : String)
    → code c == code d ≡ true
    → starts_with (Text.◌∷◌ c s) (Text.◌∷◌ d p) ≡ starts_with s p
unfolding strip_prefix
starts_with-cons c d s p q = rw (starts_with, q) refl

starts_with-append : (op rest : String) → starts_with (append op rest) op ≡ true
unfolding strip_prefix
starts_with-append Text.[] rest = refl
starts_with-append (Text.◌∷◌ c op) rest =
    ap (λ t. starts_with t (Text.◌∷◌ c op)) (cons-append c op rest)
    ∙ starts_with-cons c c (append op rest) op (ground arith)
    ∙ starts_with-append op rest

starts_with_sound :
    (text op : String) → starts_with text op ≡ true → (rest : String) × (text ≡ append op rest)
unfolding strip_prefix
starts_with_sound text Text.[] h = (text, sym (nil-append text))
starts_with_sound Text.[] (Text.◌∷◌ d op) h = absurd (ground arith)
starts_with_sound (Text.◌∷◌ c text) (Text.◌∷◌ d op) h = elim (Bool-cases (code c == code d)) [
  | inr q ↦ absurd (ground arith)
  | inl q ↦
      let rest = starts_with_sound text op (sym (starts_with-cons c d text op q) ∙ h) in
      (
        rest.0,
        ap (λ a. Text.◌∷◌ a text) (same_char c d q)
            ∙ ap (Text.◌∷◌ d) rest.1
            ∙ sym (cons-append d op rest.0),
      )
]

is_asked_for-true :
    (op : Option String) (x : FailedSubmission) → is_asked_for op x ≡ true → AsksFor op x
is_asked_for-true none x h = tt
is_asked_for-true (some op) x h = starts_with_sound x.operation op h

is_asked_for-false :
    (op : Option String) (x : FailedSubmission) → is_asked_for op x ≡ false → ¬ AsksFor op x
is_asked_for-false none x h a = absurd (ground arith)
is_asked_for-false (some op) x h (rest, e) =
    absurd (ground (arith, starts_with-append op rest, ap (λ t. starts_with t op) e))

-- Whatever was recorded since the start: of the last 256 failures, the latest first, take those that
-- the query asks for: all of them, or those whose operation begins with the given text. The answer
-- counts them all, and lists the first 100 of them, or as many as the query's limit says, but no more
-- than 256.
pub failed_submissions-push_all :
    (query : FailedSubmissionsQuery) (history : List FailedSubmission)
    → let answer =
        failed_submissions query
          (push_all (record { capacity = failure_ring_capacity; items = [] }) history) in
      (chosen : List FailedSubmission) × Picked
        (AsksFor query.operation)
        (take 256 (reverse history))
        chosen
      × (answer.total_count ≡ length chosen)
      × (answer.failures ≡ take (elim query.limit [ none ↦ 100 | some n ↦ min n 256 ]) chosen)
unfolding failed_submissions respond
failed_submissions-push_all query history =
    let recent = take 256 (reverse history) in
    let e : reverse (push_all (record { capacity = 256; items = [] }) history).items ≡ recent =
      ap reverse (push_all-last_n 256 history) ∙ reverse-drop 256 history in
    let chosen = filter (is_asked_for query.operation) recent in
    (
      chosen,
      filter-Picked (AsksFor query.operation) (is_asked_for query.operation)
          (is_asked_for-true query.operation) (is_asked_for-false query.operation) recent,
      ap (λ l. (respond query l).total_count) e,
      ap (λ l. (respond query l).failures) e ∙ shown query chosen,
    )
  where
    shown :
        (q : FailedSubmissionsQuery) (xs : List FailedSubmission)
        → take (limit_of q.limit) xs ≡ take (elim q.limit [ none ↦ 100 | some n ↦ min n 256 ]) xs
    shown q xs = elim (Option-cases q.limit) [ inl e ↦ rw e | inr (n, e) ↦ rw e ]
