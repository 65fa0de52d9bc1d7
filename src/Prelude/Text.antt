-- ===== src/Prelude/Text.antt =====
-- The string operations of Rust's standard library that the source uses, over the native texts.
pub mod Trim
use Prim.Native.Nat.{ℕ, zero, suc, ◌+◌, ◌/◌, ◌%◌}
use Prim.Native.Char.{Char, code}
use Prim.Native.String.{String, count, len, ◌++◌ as append}
use mathlib.Core.Bool.{Bool, true, false, ◌&&◌, ◌||◌}
use mathlib.Core.List.{List, [], ◌∷◌, ◌++◌}
use mathlib.Core.Option.{Option, none, some}
use text.Mathlib.Text.{find?}
use so4_oracle.Prelude.Tests.{ltb, leb, ◌==◌, if◌then◌else◌}

-- `s.contains(pattern)`.
unfoldable pub contains : String → String → Bool
contains s pattern = elim (find? s pattern) [ none ↦ false | some i ↦ true ]

-- `format!` of texts, one after the other.
unfoldable pub concat : List String → String
concat [] = ""
concat (s ∷ ss) = append s (concat ss)

-- `char::is_whitespace`.
unfoldable pub is_whitespace : Char → Bool
is_whitespace c =
    let n = code c in
    (leb 9 n && leb n 13)
    || n == 0x20
    || n == 0x85
    || n == 0xa0
    || n == 0x1680
    || (leb 0x2000 n && leb n 0x200a)
    || n == 0x2028
    || n == 0x2029
    || n == 0x202f
    || n == 0x205f
    || n == 0x3000

unfoldable pub trim_start : String → String
unfolding is_whitespace
trim_start String.[] = ""
trim_start (String.◌∷◌ c s) =
    let rest = trim_start s in if is_whitespace c then rest else String.◌∷◌ c s

unfoldable pub reverse_onto : String → String → String
reverse_onto acc String.[] = acc
reverse_onto acc (String.◌∷◌ c s) = reverse_onto (String.◌∷◌ c acc) s

-- `s.trim()`.
unfoldable pub trim : String → String
unfolding trim_start reverse_onto
trim s = reverse_onto "" (trim_start (reverse_onto "" (trim_start s)))

unfoldable pub split_onto : ℕ → String → String → List String
unfolding reverse_onto
split_onto separator acc String.[] = reverse_onto "" acc ∷ []
split_onto separator acc (String.◌∷◌ c s) =
    let closed = reverse_onto "" acc ∷ split_onto separator "" s in
    let open_part = split_onto separator (String.◌∷◌ c acc) s in
    if code c == separator then closed else open_part

-- `s.split(separator)` at a one-byte character.
unfoldable pub split : ℕ → String → List String
unfolding split_onto
split separator s = split_onto separator "" s

-- `s.strip_prefix(prefix)`.
unfoldable pub strip_prefix : String → String → Option String
strip_prefix s String.[] = some s
strip_prefix String.[] (String.◌∷◌ p ps) = none
strip_prefix (String.◌∷◌ c s) (String.◌∷◌ p ps) =
    let rest = strip_prefix s ps in if code c == code p then rest else none

-- `s.strip_suffix(suffix)`.
unfoldable pub strip_suffix : String → String → Option String
unfolding strip_prefix reverse_onto
strip_suffix s suffix = elim (strip_prefix (reverse_onto "" s) (reverse_onto "" suffix)) [
  | none ↦ none
  | some rest ↦ some (reverse_onto "" rest)
]

-- The suffix is taken off as often as it stands there, which is less often than the text has
-- characters.
unfoldable pub strip_suffixes : ℕ → String → String → String
unfolding strip_suffix
strip_suffixes zero s suffix = s
strip_suffixes (suc fuel) s suffix = elim (strip_suffix s suffix) [
  | none ↦ s
  | some rest ↦ strip_suffixes fuel rest suffix
]

-- `s.trim_end_matches(suffix)`, for a suffix that is not empty.
unfoldable pub trim_end_matches : String → String → String
unfolding strip_suffixes
trim_end_matches s suffix = strip_suffixes (suc (count s)) s suffix

-- `parts.join(separator)`.
unfoldable pub join : String → List String → String
join separator [] = ""
join separator (s ∷ []) = s
join separator (s ∷ t ∷ rest) = append s (append separator (join separator (t ∷ rest)))

-- `s.chars().all(p)`.
unfoldable pub all_chars : (Char → Bool) → String → Bool
all_chars p String.[] = true
all_chars p (String.◌∷◌ c s) = p c && all_chars p s

unfoldable pub is_ascii_digit : Char → Bool
is_ascii_digit c = leb b'0' (code c) && leb (code c) b'9'

unfoldable pub is_ascii_alphanumeric : Char → Bool
unfolding is_ascii_digit
is_ascii_alphanumeric c =
    is_ascii_digit c
    || (leb b'a' (code c) && leb (code c) b'z')
    || (leb b'A' (code c) && leb (code c) b'Z')

-- `s.chars().take(n).collect()`.
unfoldable pub take_chars : ℕ → String → String
take_chars zero s = ""
take_chars (suc n) String.[] = ""
take_chars (suc n) (String.◌∷◌ c s) = String.◌∷◌ c (take_chars n s)

-- `padded.push(c)`.
unfoldable pub push : String → Char → String
push String.[] c = String.◌∷◌ c ""
push (String.◌∷◌ d s) c = String.◌∷◌ d (push s c)

-- `s.chars().count()`.
unfoldable pub count_chars : String → ℕ
count_chars s = count s

-- `s.len()`.
unfoldable pub len_bytes : String → ℕ
len_bytes s = len s

digit : ℕ → String
digit d =
    if d == 0
    then "0"
    else if d == 1
    then "1"
    else if d == 2
    then "2"
    else if d == 3
    then "3"
    else if d == 4
    then "4"
    else if d == 5
    then "5"
    else if d == 6
    then "6"
    else if d == 7
    then "7"
    else if d == 8
    then "8"
    else "9"

-- The digits of `n`, the last first; a number below 2^k has at most `k` of them.
show_onto : ℕ → ℕ → String → String
show_onto zero n acc = acc
show_onto (suc fuel) n acc =
    let more = show_onto fuel (n / 10) (append (digit (n % 10)) acc) in
    if ltb n 10 then append (digit n) acc else more

-- The `Display` of an unsigned integer of at most 64 bits.
unfoldable pub show_nat : ℕ → String
unfolding show_onto digit
show_nat n = show_onto 64 n ""

-- The UTF-8 of a character.
unfoldable pub utf8_char : Char → List ℕ
utf8_char c =
    let n = code c in
    if ltb n 0x80
    then n ∷ []
    else if ltb n 0x800
    then (0xc0 + n / 64) ∷ (0x80 + n % 64) ∷ []
    else if ltb n 0x10000
    then (0xe0 + n / 4096) ∷ (0x80 + n / 64 % 64) ∷ (0x80 + n % 64) ∷ []
    else (0xf0 + n / 262144) ∷ (0x80 + n / 4096 % 64) ∷ (0x80 + n / 64 % 64) ∷ (0x80 + n % 64) ∷ []

-- `s.as_bytes()`.
unfoldable pub as_bytes : String → List ℕ
unfolding utf8_char
as_bytes String.[] = []
as_bytes (String.◌∷◌ c s) = utf8_char c ++ as_bytes s
