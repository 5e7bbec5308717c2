-- ===== src/TextOrder.antt =====
-- The order of `Array.prototype.sort` on texts: by their UTF-16 units.
use toomoki_cdac_pds.Prelude.{refl, sym, ◌≡◌}
use mathlib.Core.Bool.{true≢false}
use Prim.Native.String.{String}
use toomoki_cdac_pds.Prelude.{
  sym, arith, ◌≡◌, Bool, true, false, ℕ, List, [], ◌∷◌, ◌++◌, if◌then◌else◌, ltb, ◌==◌, ◌+◌, ◌-◌,
  ◌/◌, ◌%◌,
}
use toomoki_cdac_pds.Prelude.Text.{codes}

-- One unit, or a pair of surrogates past the basic plane.
abbrev units_of : ℕ → List ℕ
units_of c =
    if ltb c 65536 then c ∷ [] else (55296 + (c - 65536) / 1024) ∷ (56320 + (c - 65536) % 1024) ∷ []

unfoldable pub units : List ℕ → List ℕ
units [] = []
units (c ∷ cs) = units_of c ++ units cs

-- The lexicographic order.
unfoldable pub lex_le : List ℕ → List ℕ → Bool
lex_le [] ys = true
lex_le (x ∷ xs) [] = false
lex_le (x ∷ xs) (y ∷ ys) =
    let rest = lex_le xs ys in if ltb x y then true else if x == y then rest else false

unfoldable pub text_le : String → String → Bool
unfolding units lex_le
text_le a b = lex_le (units (codes a)) (units (codes b))

lex_total : (xs ys : List ℕ) → lex_le xs ys ≡ false → lex_le ys xs ≡ true
unfolding lex_le
lex_total [] ys e = absurd (true≢false e)
lex_total (x ∷ xs) [] e = refl
lex_total (x ∷ xs) (y ∷ ys) e = ground (arith, lex_total xs ys)

lex_trans : (xs ys zs : List ℕ) → lex_le xs ys ≡ true → lex_le ys zs ≡ true → lex_le xs zs ≡ true
unfolding lex_le
lex_trans [] ys zs e f = refl
lex_trans (x ∷ xs) [] zs e f = absurd (true≢false (sym e))
lex_trans (x ∷ xs) (y ∷ ys) [] e f = absurd (true≢false (sym f))
lex_trans (x ∷ xs) (y ∷ ys) (z ∷ zs) e f = ground (arith, lex_trans xs ys zs)

pub text_le_total : (a b : String) → text_le a b ≡ false → text_le b a ≡ true
unfolding text_le
text_le_total a b e = lex_total (units (codes a)) (units (codes b)) e

pub text_le_trans : (a b c : String) → text_le a b ≡ true → text_le b c ≡ true → text_le a c ≡ true
unfolding text_le
text_le_trans a b c e f = lex_trans (units (codes a)) (units (codes b)) (units (codes c)) e f
