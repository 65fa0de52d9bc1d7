-- ===== src/Prelude/Number/Unsigned.antt =====
-- `str::parse` of the standard library for unsigned integers, with its errors' texts.
use Prim.Native.Char.{code}
use Prim.Native.String.{String}
use Prim.Native.Nat.{ℕ, ◌+◌, ◌-◌, ◌*◌, ◌^◌}
use so4_oracle.Prelude.Tests.{ltb, ◌==◌, if◌then◌else◌}
use so4_oracle.Prelude.Result.{Result, ok, err}
use so4_oracle.Prelude.Text.{is_ascii_digit}

unfoldable pub read_below : (limit acc : ℕ) → String → Result String ℕ
read_below limit acc String.[] = ok acc
read_below limit acc (String.◌∷◌ c s) =
    let n = acc * 10 + (code c - b'0') in
    let rest = read_below limit n s in
    if is_ascii_digit c
    then (if ltb n limit then rest else err "number too large to fit in target type")
    else err "invalid digit found in string"

-- `s.parse::<uN>()`, with an optional plus.
unfoldable pub parse_unsigned : (bits : ℕ) → String → Result String ℕ
unfolding read_below
parse_unsigned bits String.[] = err "cannot parse integer from empty string"
parse_unsigned bits (String.◌∷◌ c String.[]) =
    if code c == b'+'
    then err "invalid digit found in string"
    else read_below (2 ^ bits) 0 (String.◌∷◌ c "")
parse_unsigned bits (String.◌∷◌ c (String.◌∷◌ d s)) =
    if code c == b'+'
    then read_below (2 ^ bits) 0 (String.◌∷◌ d s)
    else read_below (2 ^ bits) 0 (String.◌∷◌ c (String.◌∷◌ d s))
