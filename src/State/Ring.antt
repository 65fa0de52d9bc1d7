-- ===== src/State/Ring.antt =====
-- `RingBuffer` of state.rs: the last failures that `/oracle/failed-submissions` serves.
use so4_oracle.Prelude.{
  ℕ, zero, suc, ◌+◌, ◌-◌, ◌≤◌, ◌≡◌, refl, List, [], ◌∷◌, ◌++◌, length, length-append, drop,
  length-drop, arith, Bool-cases, leb, ◌==◌, if◌then◌else◌, inl, inr, ap, sym, ◌∙◌,
}
use mathlib.Core.List.{append_assoc, append-nil}

pub record RingBuffer {ℓ} (A : Type ℓ) : Type ℓ where
  pub capacity : ℕ
  pub items : List A

module _ {ℓ} {A : Type ℓ} where
  -- `while self.items.len() >= self.capacity { self.items.pop_front(); }`
  make_room : ℕ → List A → List A
  make_room capacity [] = []
  make_room capacity (x ∷ xs) =
      let shorter = make_room capacity xs in
      if leb capacity (length (x ∷ xs)) then shorter else x ∷ xs

  pub push : RingBuffer A → A → RingBuffer A
  unfolding make_room
  push r item =
      if r.capacity == 0
      then r
      else record r { items = make_room r.capacity r.items ++ (item ∷ []) }

  pub push_all : RingBuffer A → List A → RingBuffer A
  push_all r [] = r
  push_all r (x ∷ xs) = push_all (push r x) xs

  -- The last `n` elements of a list.
  abbrev pub last_n : ℕ → List A → List A
  last_n n xs = drop (length xs - n) xs

  make_room-eq-last_n : (c : ℕ) (xs : List A) → make_room (suc c) xs ≡ last_n c xs
  unfolding make_room
  make_room-eq-last_n c [] = ground arith
  make_room-eq-last_n c (x ∷ xs) = elim (Bool-cases (leb (suc c) (suc (length xs)))) [
    | inl full ↦
        let e : suc (length xs) - c ≡ suc (length xs - c) = ground arith in
        rw (full, e) (make_room-eq-last_n c xs)
    | inr room ↦ let e : suc (length xs) - c ≡ 0 = ground arith in rw (room, e)
  ]

  drop-append : (n : ℕ) (xs ys : List A) → n ≤ length xs → drop n (xs ++ ys) ≡ drop n xs ++ ys
  drop-append zero xs ys h = refl
  drop-append (suc n) [] ys h = absurd (omega arith)
  drop-append (suc n) (x ∷ xs) ys h = drop-append n xs ys (omega arith)

  drop-nil : (n : ℕ) → drop {A = A} n [] ≡ []
  drop-nil zero = refl
  drop-nil (suc n) = refl

  drop_all : (xs : List A) → drop (length xs - 0) xs ≡ []
  drop_all xs = go (length xs - 0) xs (omega arith)
    where
      go : (n : ℕ) (ys : List A) → length ys ≤ n → drop n ys ≡ []
      go n [] h = drop-nil n
      go zero (y ∷ ys) h = absurd (omega arith)
      go (suc n) (y ∷ ys) h = go n ys (omega arith)

  drop-drop : (m n : ℕ) (xs : List A) → drop m (drop n xs) ≡ drop (n + m) xs
  drop-drop m zero xs = ap (λ k. drop k xs) {x = m} {y = 0 + m} (omega arith)
  drop-drop m (suc n) [] = drop-nil m ∙ sym (drop-nil (suc n + m))
  drop-drop m (suc n) (x ∷ xs) =
      drop-drop m n xs ∙ ap (λ k. drop k (x ∷ xs)) {x = suc (n + m)} {y = suc n + m} (omega arith)

  last_n-push :
      (c : ℕ) (xs : List A) (x : A)
      → last_n c (last_n (suc c) xs) ++ (x ∷ []) ≡ last_n (suc c) (xs ++ (x ∷ []))
  last_n-push c xs x =
      let n = length xs in
      let e : (n - suc c) + ((n - (n - suc c)) - c) ≡ n - c = omega arith in
      let f : (n + 1) - suc c ≡ n - c = omega arith in
      rw (length-drop (n - suc c) xs, length-append xs (x ∷ []), drop-drop, e, f)
        (sym (drop-append (n - c) xs (x ∷ []) (omega arith)))

  push-last_n :
      (c : ℕ) (xs : List A) (y : A)
      → push (record { capacity = suc c; items = last_n (suc c) xs }) y
        ≡ record { capacity = suc c; items = last_n (suc c) (xs ++ (y ∷ [])) }
  unfolding push
  push-last_n c xs y = ground (arith, make_room-eq-last_n c (last_n (suc c) xs), last_n-push c xs y)

  push_all-from :
      (c : ℕ) (xs ys : List A)
      → (push_all (record { capacity = c; items = last_n c xs }) ys).items ≡ last_n c (xs ++ ys)
  unfolding push_all push
  push_all-from c xs [] = ap (last_n c) (sym (append-nil xs))
  push_all-from zero xs (y ∷ ys) =
      push_all-from zero xs ys ∙ drop_all (xs ++ ys) ∙ sym (drop_all (xs ++ (y ∷ ys)))
  push_all-from (suc c) xs (y ∷ ys) =
      let next = push_all-from (suc c) (xs ++ (y ∷ [])) ys in
      ap (λ r. (push_all r ys).items) (push-last_n c xs y)
      ∙ next
      ∙ ap (last_n (suc c)) (append_assoc xs (y ∷ []) ys)

  -- After any pushes onto an empty buffer it holds the last `capacity` items, the oldest first.
  pub push_all-last_n :
      (capacity : ℕ) (xs : List A)
      → (push_all (record { capacity = capacity; items = [] }) xs).items ≡ last_n capacity xs
  push_all-last_n capacity xs =
      ap (λ is. (push_all (record { capacity = capacity; items = is }) xs).items)
        (sym (drop-nil (0 - capacity)))
      ∙ push_all-from capacity [] xs
