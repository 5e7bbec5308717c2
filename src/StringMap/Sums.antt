-- ===== src/StringMap/Sums.antt =====
-- Sums of a quantity over the values of a map, and what one write does to them.
use toomoki_cdac_pds.Prelude.{
  Option-cases, inl, inr, ap, ◌otherwise◌, String, ◌≡◌, Option, none, some, [], ◌∷◌,
}
use toomoki_cdac_pds.Prelude.Int.{ℤ, pos, ◌+ℤ◌, ◌-ℤ◌, int_laws}
use toomoki_cdac_pds.StringMap.{StringMap, get, set}

module _ {V : Type 0} (f : V → ℤ) where
  abbrev pub sum_by : StringMap V → ℤ
  sum_by [] = pos 0
  sum_by ((_, v) ∷ m) = f v +ℤ sum_by m

  -- What a key contributes: nothing when it is absent.
  abbrev pub weight : Option V → ℤ
  weight none = pos 0
  weight (some v) = f v

  -- A write replaces what its key contributed.
  pub sum_by-set :
      (m : StringMap V) (k : String) (v : V)
      → sum_by (set m k v) +ℤ weight (get m k) ≡ sum_by m +ℤ f v
  unfolding get set
  sum_by-set [] k v = omega int_laws
  sum_by-set ((j, w) ∷ m) k v = grind (int_laws, sum_by-set m k v)

  pub sum_by-set_new :
      (m : StringMap V) (k : String) (v : V) → get m k ≡ none → sum_by (set m k v) ≡ sum_by m +ℤ f v
  sum_by-set_new m k v e = grind (int_laws, sum_by-set m k v, ap weight e)

  pub sum_by-set_old :
      (m : StringMap V) (k : String) (v : V) {w : V}
      → get m k ≡ some w
      → sum_by (set m k v) +ℤ f w ≡ sum_by m +ℤ f v
  sum_by-set_old m k v e = grind (int_laws, sum_by-set m k v, ap weight e)

  -- A write of a value of the same weight changes no sum.
  pub sum_by-set_same :
      (m : StringMap V) (k : String) (v : V) {w : V}
      → get m k ≡ some w
      → f v ≡ f w
      → sum_by (set m k v) ≡ sum_by m
  sum_by-set_same m k v e same = grind (int_laws, sum_by-set m k v, ap weight e)

-- A stock position that is missing counts as nothing.
pub sum_by-add :
    (m : StringMap ℤ) (k : String) (q : ℤ)
    → sum_by (λ x. x) (set m k ((get m k otherwise pos 0) +ℤ q)) ≡ sum_by (λ x. x) m +ℤ q
sum_by-add m k q = elim (Option-cases (get m k)) [
  | inl e ↦ rw e (grind (int_laws, sum_by-set_new (λ x. x) m k (pos 0 +ℤ q) e))
  | inr (w, e) ↦ rw e (grind (int_laws, sum_by-set_old (λ x. x) m k (w +ℤ q) e))
]

pub sum_by-take :
    (m : StringMap ℤ) (k : String) (q : ℤ)
    → sum_by (λ x. x) (set m k ((get m k otherwise pos 0) -ℤ q)) ≡ sum_by (λ x. x) m -ℤ q
sum_by-take m k q = elim (Option-cases (get m k)) [
  | inl e ↦ rw e (grind (int_laws, sum_by-set_new (λ x. x) m k (pos 0 -ℤ q) e))
  | inr (w, e) ↦ rw e (grind (int_laws, sum_by-set_old (λ x. x) m k (w -ℤ q) e))
]
