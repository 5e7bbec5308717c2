-- ===== src/Prelude/Hash.antt =====
-- `hashReference` of packages/shared-types/src/index.ts: two 32-bit FNV-1a hashes in hexadecimal.
use Prim.Native.Nat.{ℕ, zero, suc, ◌*◌, ◌-◌, ◌/◌, ◌%◌, ◌^◌, bit_xor}
use Prim.Native.String.{String, ◌++◌}
use mathlib.Core.Bool.{true, false}
use mathlib.Core.List.{List, [], ◌∷◌}
use toomoki_cdac_pds.Prelude.Tests.{◌==◌, ltb, length, if◌then◌else◌}
use toomoki_cdac_pds.Prelude.Text.{codes, show}

-- `hash ^= codePoint; hash = Math.imul(hash, 0x01000193)`, on the unsigned reading of the word.
unfoldable pub fnv1a_step : ℕ → ℕ → ℕ
fnv1a_step hash c = (bit_xor hash c * 0x01000193) % 2 ^ 32

unfoldable pub fnv1a_from : ℕ → List ℕ → ℕ
unfolding fnv1a_step
fnv1a_from hash [] = hash
fnv1a_from hash (c ∷ cs) = fnv1a_from (fnv1a_step hash c) cs

-- `fnv1a`
unfoldable pub fnv1a : String → ℕ → ℕ
unfolding fnv1a_from
fnv1a value seed = fnv1a_from (seed % 2 ^ 32) (codes value)

hex_digit : ℕ → String
hex_digit n =
    if n == 10
    then "a"
    else if n == 11
    then "b"
    else if n == 12
    then "c"
    else if n == 13
    then "d"
    else if n == 14
    then "e"
    else if n == 15
    then "f"
    else show n

-- One hexadecimal digit for each round of fuel; `n + 1` rounds are more than `n` has digits.
hexadecimal : ℕ → ℕ → String → String
unfolding hex_digit
hexadecimal zero n rest = rest
hexadecimal (suc fuel) n rest = elim (ltb n 16) [
  | true ↦ hex_digit n ++ rest
  | false ↦ hexadecimal fuel (n / 16) (hex_digit (n % 16) ++ rest)
]

-- `toString(16)`
unfoldable pub to_hex : ℕ → String
unfolding hexadecimal
to_hex n = hexadecimal (suc n) n ""

zeros : ℕ → String → String
zeros zero s = s
zeros (suc k) s = "0" ++ zeros k s

-- `padStart(8, '0')`: a text that is long enough stays as it is.
unfoldable pub pad_start : String → String
unfolding zeros
pad_start s = zeros (8 - length (codes s)) s

-- The seeds are 0x811c9dc5, and that word's exclusive or with 0x9e3779b9.
unfoldable pub hash_reference : String → String
unfolding fnv1a to_hex pad_start
hash_reference value =
    pad_start (to_hex (fnv1a value 0x811c9dc5))
    ++ pad_start (to_hex (fnv1a (value ++ ":pds") (bit_xor 0x811c9dc5 0x9e3779b9)))
