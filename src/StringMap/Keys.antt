-- ===== src/StringMap/Keys.antt =====
-- Facts that hold of every value of a map.
use toomoki_cdac_pds.Prelude.{
  eq_iff, ◌∙◌, String, ◌≡◌, Option, none, some, [], ◌∷◌, str_eq, Bool-cases, inl, inr,
}
use mathlib.Core.Path.{sym, subst}
use toomoki_cdac_pds.StringMap.{StringMap, get, set}

-- `P` of the value that was found, if one was.
abbrev pub IfFound : {V : Type 0} → (V → Type 0) → Option V → Type 0
IfFound P none = Unit
IfFound P (some v) = P v

module _ {V : Type 0} (P : V → Type 0) where
  -- Every value that the map holds satisfies `P`.
  abbrev pub AllValues : StringMap V → Type 0
  AllValues [] = Unit
  AllValues ((_, v) ∷ m) = P v × AllValues m

  AllValues-IfFound : (m : StringMap V) (k : String) → AllValues m → IfFound P (get m k)
  unfolding get
  AllValues-IfFound [] k h = tt
  AllValues-IfFound ((j, w) ∷ m) k h = elim (Bool-cases (str_eq j k)) [
    | inl hit ↦ rw hit h.0
    | inr miss ↦ rw miss (AllValues-IfFound m k h.1)
  ]

  pub AllValues-get : (m : StringMap V) (k : String) {v : V} → AllValues m → get m k ≡ some v → P v
  AllValues-get m k h e = subst (IfFound P) e (AllValues-IfFound m k h)

  pub AllValues-set :
      (m : StringMap V) (k : String) (v : V) → AllValues m → P v → AllValues (set m k v)
  unfolding set
  AllValues-set [] k v h p = (p, tt)
  AllValues-set ((j, w) ∷ m) k v h p = elim (Bool-cases (str_eq j k)) [
    | inl hit ↦ rw hit (p, h.1)
    | inr miss ↦ rw miss (h.0, AllValues-set m k v h.1 p)
  ]

module _ {V : Type 0} (id : V → String) where
  -- Every value stands under its own id.
  abbrev pub KeyedBy : StringMap V → Type 0
  KeyedBy [] = Unit
  KeyedBy ((k, v) ∷ m) = (id v ≡ k) × KeyedBy m

  pub KeyedBy-found : (m : StringMap V) (k : String) → KeyedBy m → IfFound (λ v. id v ≡ k) (get m k)
  unfolding get
  KeyedBy-found [] k h = tt
  KeyedBy-found ((j, w) ∷ m) k h = elim (Bool-cases (str_eq j k)) [
    | inl hit ↦ rw hit (h.0 ∙ (eq_iff j k).0 hit)
    | inr miss ↦ rw miss (KeyedBy-found m k h.1)
  ]

  pub KeyedBy-get : (m : StringMap V) (k : String) {v : V} → KeyedBy m → get m k ≡ some v → id v ≡ k
  KeyedBy-get m k h e = subst (IfFound (λ v. id v ≡ k)) e (KeyedBy-found m k h)

  -- A value that was found is found under its own id.
  pub get-own :
      (m : StringMap V) (k : String) {v : V} → KeyedBy m → get m k ≡ some v → get m (id v) ≡ some v
  get-own m k {v} h e = subst (λ j. get m j ≡ some v) (sym (KeyedBy-get m k h e)) e

  pub KeyedBy-set :
      (m : StringMap V) (k : String) (v : V) → KeyedBy m → id v ≡ k → KeyedBy (set m k v)
  unfolding set
  KeyedBy-set [] k v h p = (p, tt)
  KeyedBy-set ((j, w) ∷ m) k v h p = elim (Bool-cases (str_eq j k)) [
    | inl hit ↦ rw hit (p ∙ sym ((eq_iff j k).0 hit), h.1)
    | inr miss ↦ rw miss (h.0, KeyedBy-set m k v h.1 p)
  ]
