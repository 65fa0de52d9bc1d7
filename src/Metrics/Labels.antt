-- ===== src/Metrics/Labels.antt =====
-- metrics.rs, `escape_label_value`: a label's value between quotes.
use Prim.Native.Char.{Char, code}
use Prim.Native.String.{String as Text, ◌++◌ as append}
use text.Mathlib.TextEquality.{Char-path}
use text.Mathlib.TextLemmas.{cons-append, nil-append}
use so4_oracle.Prelude.{
  ℕ, ◌==◌, ◌≡◌, refl, ap, ◌∙◌, arith, Bool, true, false, Bool-cases, inl, inr, Option, none, some,
  String, if◌then◌else◌,
}

-- `s.replace(c, text)`, for a character of the code `from`.
unfoldable pub replace : (from : ℕ) → (text : String) → String → String
replace from text Text.[] = ""
replace from text (Text.◌∷◌ c s) =
    let rest = replace from text s in if code c == from then append text rest else Text.◌∷◌ c rest

unfoldable pub escape_label_value : String → String
unfolding replace
escape_label_value value = replace b'"' "\\\"" (replace b'\n' "\\n" (replace b'\\' "\\\\" value))

-- A character behind a backslash, in the text format of Prometheus.
abbrev escaped : Char → Option Char
escaped c =
    if code c == b'n'
    then some "\n"
    else if code c == b'\\'
    then some "\\"
    else if code c == b'"'
    then some "\""
    else none

abbrev put : Option Char → Option (String × String) → Option (String × String)
put (some c) (some (value, rest)) = some (Text.◌∷◌ c value, rest)
put (some c) none = none
put none r = none

-- What a reader of that format reads up to the closing quote, and what is left. The flag is up behind
-- a backslash.
unfoldable pub read_label : Bool → String → Option (String × String)
read_label behind Text.[] = none
read_label true (Text.◌∷◌ c s) = put (escaped c) (read_label false s)
read_label false (Text.◌∷◌ c s) =
    let behind = read_label true s in
    let next = read_label false s in
    if code c == b'"'
    then some ("", s)
    else if code c == b'\\'
    then behind
    else if code c == b'\n'
    then none
    else put (some c) next

two-append :
    (a b : Char) (s : String) → append (Text.◌∷◌ a (Text.◌∷◌ b "")) s ≡ Text.◌∷◌ a (Text.◌∷◌ b s)
two-append a b s =
    cons-append a (Text.◌∷◌ b "") s
    ∙ ap (Text.◌∷◌ a) (cons-append b "" s ∙ ap (Text.◌∷◌ b) (nil-append s))

replace-hit :
    (from : ℕ) (a b c : Char) (s : String)
    → code c == from ≡ true
    → replace from (Text.◌∷◌ a (Text.◌∷◌ b "")) (Text.◌∷◌ c s)
      ≡ Text.◌∷◌ a (Text.◌∷◌ b (replace from (Text.◌∷◌ a (Text.◌∷◌ b "")) s))
unfolding replace
replace-hit from a b c s h = rw h (two-append a b _)

replace-miss :
    (from : ℕ) (text : String) (c : Char) (s : String)
    → code c == from ≡ false
    → replace from text (Text.◌∷◌ c s) ≡ Text.◌∷◌ c (replace from text s)
unfolding replace
replace-miss from text c s h = rw h refl

escape-backslash :
    (c : Char) (s : String)
    → code c == b'\\' ≡ true
    → escape_label_value (Text.◌∷◌ c s) ≡ Text.◌∷◌ "\\" (Text.◌∷◌ "\\" (escape_label_value s))
unfolding escape_label_value replace
escape-backslash c s h =
    ap (λ t. replace b'"' "\\\"" (replace b'\n' "\\n" t)) (replace-hit b'\\' "\\" "\\" c s h)

escape-newline :
    (c : Char) (s : String)
    → code c == b'\\' ≡ false
    → code c == b'\n' ≡ true
    → escape_label_value (Text.◌∷◌ c s) ≡ Text.◌∷◌ "\\" (Text.◌∷◌ "n" (escape_label_value s))
unfolding escape_label_value replace
escape-newline c s b h =
    ap (λ t. replace b'"' "\\\"" (replace b'\n' "\\n" t)) (replace-miss b'\\' "\\\\" c s b)
    ∙ ap (replace b'"' "\\\"") (replace-hit b'\n' "\\" "n" c (replace b'\\' "\\\\" s) h)

escape-quote :
    (c : Char) (s : String)
    → code c == b'\\' ≡ false
    → code c == b'\n' ≡ false
    → code c == b'"' ≡ true
    → escape_label_value (Text.◌∷◌ c s) ≡ Text.◌∷◌ "\\" (Text.◌∷◌ "\"" (escape_label_value s))
unfolding escape_label_value
escape-quote c s b n h =
    ap (λ t. replace b'"' "\\\"" (replace b'\n' "\\n" t)) (replace-miss b'\\' "\\\\" c s b)
    ∙ ap (replace b'"' "\\\"") (replace-miss b'\n' "\\n" c (replace b'\\' "\\\\" s) n)
    ∙ replace-hit b'"' "\\" "\"" c (replace b'\n' "\\n" (replace b'\\' "\\\\" s)) h

escape-plain :
    (c : Char) (s : String)
    → code c == b'\\' ≡ false
    → code c == b'\n' ≡ false
    → code c == b'"' ≡ false
    → escape_label_value (Text.◌∷◌ c s) ≡ Text.◌∷◌ c (escape_label_value s)
unfolding escape_label_value
escape-plain c s b n q =
    ap (λ t. replace b'"' "\\\"" (replace b'\n' "\\n" t)) (replace-miss b'\\' "\\\\" c s b)
    ∙ ap (replace b'"' "\\\"") (replace-miss b'\n' "\\n" c (replace b'\\' "\\\\" s) n)
    ∙ replace-miss b'"' "\\\"" c (replace b'\n' "\\n" (replace b'\\' "\\\\" s)) q

-- A character of the code is the character.
pub same_char : (c d : Char) → code c == code d ≡ true → c ≡ d
same_char c d h = Char-path c d (ground arith)

read_after_backslash :
    (c d e : Char) (s rest : String)
    → escape_label_value (Text.◌∷◌ c s) ≡ Text.◌∷◌ "\\" (Text.◌∷◌ d (escape_label_value s))
    → escaped d ≡ some e
    → c ≡ e
    → read_label false (append (escape_label_value s) (Text.◌∷◌ "\"" rest)) ≡ some (s, rest)
    → read_label false (append (escape_label_value (Text.◌∷◌ c s)) (Text.◌∷◌ "\"" rest))
      ≡ some (Text.◌∷◌ c s, rest)
unfolding read_label
read_after_backslash c d e s rest h one same later =
    rw
      (
        h,
        cons-append "\\" (Text.◌∷◌ d (escape_label_value s)) (Text.◌∷◌ "\"" rest),
        cons-append d (escape_label_value s) (Text.◌∷◌ "\"" rest),
        same,
      )
      (rw (one, later) refl)

-- Whatever a label's value is and whatever follows its closing quote: a reader of the text format reads
-- the value back, and goes on behind the quote.
pub read_label-escape_label_value :
    (value rest : String)
    → read_label false (append (escape_label_value value) (Text.◌∷◌ "\"" rest)) ≡ some (value, rest)
unfolding read_label escape_label_value replace
read_label-escape_label_value Text.[] rest = rw (nil-append (Text.◌∷◌ "\"" rest)) refl
read_label-escape_label_value (Text.◌∷◌ c s) rest =
    let later = read_label-escape_label_value s rest in
    elim (Bool-cases (code c == b'\\')) [
      | inl h ↦
          read_after_backslash c "\\" "\\" s rest (escape-backslash c s h) refl (same_char c "\\" h)
            later
      | inr b ↦ elim (Bool-cases (code c == b'\n')) [
        | inl h ↦
            read_after_backslash c "n" "\n" s rest (escape-newline c s b h) refl
              (same_char c "\n" h) later
        | inr n ↦ elim (Bool-cases (code c == b'"')) [
          | inl h ↦
              read_after_backslash c "\"" "\"" s rest (escape-quote c s b n h) refl
                (same_char c "\"" h) later
          | inr q ↦
              rw (escape-plain c s b n q, cons-append c (escape_label_value s) (Text.◌∷◌ "\"" rest))
                (rw (q, b, n, later) refl)
        ]
      ]
    ]
