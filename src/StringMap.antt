-- ===== src/StringMap.antt =====
-- A JavaScript `Map` with string keys: the list of its entries in insertion order. Writing to a
-- key that is present keeps its place, as `Map.prototype.set` does.
pub mod Sums
pub mod Keys
use toomoki_cdac_pds.Prelude.{
  String, Bool, true, false, ◌≡◌, ◌≢◌, refl, sym, Option, none, some, List, [], ◌∷◌, arith, str_eq,
  eq_iff, eq_refl, if◌then◌else◌, ℕ, suc, Bool-cases, inl, inr,
}

abbrev pub StringMap : Type 0 → Type 0
StringMap V = List (String × V)

module _ {V : Type 0} where
  -- `get`
  unfoldable pub get : StringMap V → String → Option V
  get [] k = none
  get ((j, v) ∷ m) k = if str_eq j k then some v else get m k

  abbrev present : Option V → Bool
  present none = false
  present (some _) = true

  -- `has`
  abbrev pub has : StringMap V → String → Bool
  has m k = present (get m k)

  -- `set`
  unfoldable pub set : StringMap V → String → V → StringMap V
  set [] k v = (k, v) ∷ []
  set ((j, w) ∷ m) k v = if str_eq j k then (j, v) ∷ m else (j, w) ∷ set m k v

  -- `delete`
  unfoldable pub delete : StringMap V → String → StringMap V
  delete [] k = []
  delete ((j, w) ∷ m) k = if str_eq j k then m else (j, w) ∷ delete m k

  -- `[...keys()]`
  abbrev pub keys : StringMap V → List String
  keys [] = []
  keys ((j, _) ∷ m) = j ∷ keys m

  -- `[...values()]`
  abbrev pub values : StringMap V → List V
  values [] = []
  values ((_, v) ∷ m) = v ∷ values m

  -- A loop over the values that replaces some of them in place.
  abbrev pub map_values : (V → V) → StringMap V → StringMap V
  map_values f [] = []
  map_values f ((j, v) ∷ m) = (j, f v) ∷ map_values f m

  -- The entries whose value passes a test.
  abbrev pub keep_if : (V → Bool) → StringMap V → StringMap V
  keep_if p [] = []
  keep_if p ((j, v) ∷ m) = let rest = keep_if p m in if p v then (j, v) ∷ rest else rest

  -- The entries whose key does not pass a test.
  abbrev pub drop_keys : (String → Bool) → StringMap V → StringMap V
  drop_keys p [] = []
  drop_keys p ((j, v) ∷ m) = let rest = drop_keys p m in if p j then rest else (j, v) ∷ rest

  pub get-set :
      (m : StringMap V) (k j : String) (v : V)
      → get (set m k v) j ≡ (if str_eq k j then some v else get m j)
  unfolding get set
  get-set [] k j v = refl
  get-set ((i, w) ∷ m) k j v = ground (arith, get-set m k j v, eq_iff i k, eq_iff i j, eq_iff k j)

  pub get-set_self : (m : StringMap V) (k : String) (v : V) → get (set m k v) k ≡ some v
  get-set_self m k v = simp (get-set, eq_refl)

  pub get-set_ne : (m : StringMap V) (k j : String) (v : V) → k ≢ j → get (set m k v) j ≡ get m j
  get-set_ne m k j v h = ground (arith, get-set m k j v, eq_iff k j)

pub ruleset map_laws = (get-set_self, get-set_ne)
