-- ===== src/Prelude/Text/Trim.antt =====
-- Where trimming and splitting leave a text as it is.
use Prim.Native.Char.{Char, code}
use Prim.Native.String.{String, ◌++◌ as append}
use Prim.Native.Nat.{ℕ}
use mathlib.Core.Path.{◌≡◌, refl, ◌∙◌}
use mathlib.Core.Bool.{Bool, true, not}
use mathlib.Core.List.{[], ◌∷◌}
use native.Mathlib.Omega.{arith}
use text.Mathlib.TextLemmas.{cons-append, nil-append, append-nil}
use so4_oracle.Prelude.Tests.{◌==◌}
use so4_oracle.Prelude.Text.{
  is_whitespace, is_ascii_digit, trim_start, reverse_onto, trim, split, split_onto, all_chars,
}

abbrev pub is_solid : Char → Bool
is_solid c = not (is_whitespace c)

abbrev pub Solid : String → Type 0
Solid s = all_chars is_solid s ≡ true

pub all_chars-append :
    (p : Char → Bool) (s t : String)
    → all_chars p s ≡ true
    → all_chars p t ≡ true
    → all_chars p (append s t) ≡ true
unfolding all_chars
all_chars-append p String.[] t hs ht = rw (nil-append t) ht
all_chars-append p (String.◌∷◌ c s) t hs ht =
    rw (cons-append c s t) (ground (arith, all_chars-append p s t))

pub all_chars_mono :
    (p q : Char → Bool) (s : String)
    → ((c : Char) → p c ≡ true → q c ≡ true)
    → all_chars p s ≡ true
    → all_chars q s ≡ true
unfolding all_chars
all_chars_mono p q String.[] f h = refl
all_chars_mono p q (String.◌∷◌ c s) f h = ground (arith, f c, all_chars_mono p q s f)

pub digit_solid : (c : Char) → is_ascii_digit c ≡ true → is_solid c ≡ true
unfolding is_ascii_digit is_whitespace
digit_solid c h = ground arith

trim_start-Solid : (s : String) → Solid s → trim_start s ≡ s
unfolding trim_start all_chars
trim_start-Solid String.[] h = refl
trim_start-Solid (String.◌∷◌ c s) h = ground arith

reverse_onto-Solid : (acc s : String) → Solid acc → Solid s → Solid (reverse_onto acc s)
unfolding reverse_onto all_chars
reverse_onto-Solid acc String.[] ha hs = ha
reverse_onto-Solid acc (String.◌∷◌ c s) ha hs =
    reverse_onto-Solid (String.◌∷◌ c acc) s (ground arith) (ground arith)

reverse_onto-reverse_onto :
    (acc b s : String) → reverse_onto acc (reverse_onto b s) ≡ reverse_onto (append s acc) b
unfolding reverse_onto
reverse_onto-reverse_onto acc b String.[] = rw (nil-append acc) refl
reverse_onto-reverse_onto acc b (String.◌∷◌ c s) =
    rw (cons-append c s acc) (reverse_onto-reverse_onto acc (String.◌∷◌ c b) s)

pub trim-Solid : (s : String) → Solid s → trim s ≡ s
unfolding trim reverse_onto all_chars
trim-Solid s h =
    let r = reverse_onto "" s in
    let solid = reverse_onto-Solid "" s refl h in
    rw (trim_start-Solid s h, trim_start-Solid r solid, reverse_onto-reverse_onto "" "" s)
      (append-nil s)

abbrev pub differs : ℕ → Char → Bool
differs separator c = not (code c == separator)

split_onto-closed :
    (separator : ℕ) (acc s : String)
    → all_chars (differs separator) s ≡ true
    → split_onto separator acc s ≡ reverse_onto "" (reverse_onto acc s) ∷ []
unfolding split_onto reverse_onto all_chars
split_onto-closed separator acc String.[] h = refl
split_onto-closed separator acc (String.◌∷◌ c s) h =
    ground (arith, split_onto-closed separator (String.◌∷◌ c acc) s)

split_onto-append :
    (separator : ℕ) (acc s : String) (c : Char) (t : String)
    → all_chars (differs separator) s ≡ true
    → code c ≡ separator
    → split_onto separator acc (append s (String.◌∷◌ c t))
      ≡ reverse_onto "" (reverse_onto acc s) ∷ split_onto separator "" t
unfolding split_onto reverse_onto all_chars
split_onto-append separator acc String.[] c t h e = rw (nil-append (String.◌∷◌ c t)) (ground arith)
split_onto-append separator acc (String.◌∷◌ d s) c t h e =
    rw (cons-append d s (String.◌∷◌ c t))
      (ground (arith, split_onto-append separator (String.◌∷◌ d acc) s c t))

reverse_twice : (s : String) → reverse_onto "" (reverse_onto "" s) ≡ s
unfolding reverse_onto
reverse_twice s = reverse_onto-reverse_onto "" "" s ∙ append-nil s

-- Two parts without the separator, and the separator between them.
pub split-append :
    (separator : ℕ) (s : String) (c : Char) (t : String)
    → all_chars (differs separator) s ≡ true
    → code c ≡ separator
    → all_chars (differs separator) t ≡ true
    → split separator (append s (String.◌∷◌ c t)) ≡ s ∷ t ∷ []
unfolding split
split-append separator s c t hs e ht =
    split_onto-append separator "" s c t hs e
    ∙ rw (reverse_twice s, split_onto-closed separator "" t ht, reverse_twice t) refl
