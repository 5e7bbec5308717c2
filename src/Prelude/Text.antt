-- ===== src/Prelude/Text.antt =====
-- What the program uses of JavaScript's strings: `length`, `\s`, `\d`, `trim`, `String(n)`.
use Prim.Native.Nat.{ℕ, zero, suc, ◌+◌, ◌/◌, ◌%◌}
use Prim.Native.Char.{code}
use Prim.Native.String.{String, ◌++◌}
use mathlib.Core.Bool.{Bool, not, ◌&&◌, ◌||◌}
use mathlib.Core.List.{List, [], ◌∷◌}
use toomoki_cdac_pds.Prelude.Tests.{leb, ltb, ◌==◌, if◌then◌else◌, length, any}
use toomoki_cdac_pds.Prelude.Int.{ℤ, pos, negsuc}

-- The code points of a text.
abbrev pub codes : String → List ℕ
codes String.[] = []
codes (String.◌∷◌ c s) = code c ∷ codes s

-- `length` counts UTF-16 units: two for a code point past the basic plane.
unfoldable pub utf16_units : List ℕ → ℕ
utf16_units [] = 0
utf16_units (c ∷ cs) = (if leb 65536 c then 2 else 1) + utf16_units cs

unfoldable pub js_length : String → ℕ
unfolding utf16_units
js_length s = utf16_units (codes s)

-- `\s`: white space and line terminators, which are also what `trim` takes off.
unfoldable pub is_space : ℕ → Bool
is_space c =
    (leb 9 c && leb c 13)
    || c == 32
    || c == 160
    || c == 5760
    || (leb 8192 c && leb c 8202)
    || c == 8232
    || c == 8233
    || c == 8239
    || c == 8287
    || c == 12288
    || c == 65279

unfoldable pub has_space : String → Bool
unfolding is_space
has_space s = any is_space (codes s)

-- `!s.trim()`: nothing is left when every character is white space.
unfoldable pub is_blank : String → Bool
unfolding is_space
is_blank s = not (any (λ c. not (is_space c)) (codes s))

-- `\d`
unfoldable pub is_digit : ℕ → Bool
is_digit c = leb b'0' c && leb c b'9'

-- `/^\d{8,16}$/`
unfoldable pub is_raw_numeric_id : String → Bool
unfolding is_digit
is_raw_numeric_id s =
    let cs = codes s in
    not (any (λ c. not (is_digit c)) cs) && leb 8 (length cs) && leb (length cs) 16

digit : ℕ → String
digit n =
    if n == 0
    then "0"
    else if n == 1
    then "1"
    else if n == 2
    then "2"
    else if n == 3
    then "3"
    else if n == 4
    then "4"
    else if n == 5
    then "5"
    else if n == 6
    then "6"
    else if n == 7
    then "7"
    else if n == 8
    then "8"
    else "9"

-- One decimal digit for each round of fuel; `n + 1` rounds are more than `n` has digits.
decimal : ℕ → ℕ → String → String
decimal zero n rest = rest
decimal (suc f) n rest =
    let shorter = decimal f (n / 10) (digit (n % 10) ++ rest) in
    if ltb n 10 then digit n ++ rest else shorter

-- `String(n)` for a whole number.
unfoldable pub show : ℕ → String
unfolding decimal digit
show n = decimal (suc n) n ""

unfoldable pub show_ℤ : ℤ → String
unfolding show
show_ℤ (pos n) = show n
show_ℤ (negsuc n) = "-" ++ show (suc n)

-- `padStart(2, '0')`
unfoldable pub pad2 : ℕ → String
unfolding show
pad2 n = if ltb n 10 then "0" ++ show n else show n
