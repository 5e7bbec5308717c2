-- ===== src/Contract/Sensitive/Exact.antt =====
-- The check on personal data finds every field, at any depth, and only those.
use toomoki_cdac_pds.Contract.Sensitive.{
  sensitive_entry, sensitive_item, is_prohibited, sensitive_field,
}
use toomoki_cdac_pds.Ledger.Persist.{first_some}
use toomoki_cdac_pds.Prelude.{
  is_some, String, ◌≡◌, refl, ap, some, none, inl, inr, true, false, Bool-cases, Option, ◌⊎◌,
}
use mathlib.Core.Bool.{true≢false}
use mathlib.Core.Path.{subst}
use toomoki_cdac_pds.Contract.Json.{Json, Items, Fields, Texts}

-- A field of that name stands somewhere in the value.
unfoldable mutual
  pub Occurs : String → Json → Type 0
  Occurs key Json.null = ⊥
  Occurs key (Json.bool b) = ⊥
  Occurs key (Json.num n) = ⊥
  Occurs key (Json.text s) = ⊥
  Occurs key (Json.arr xs) = OccursIn key xs
  Occurs key (Json.obj fs) = OccursAt key fs

  pub OccursIn : String → Items → Type 0
  OccursIn key Items.nil = ⊥
  OccursIn key (Items.cons x xs) = Occurs key x ⊎ OccursIn key xs

  pub OccursAt : String → Fields → Type 0
  OccursAt key Fields.end = ⊥
  OccursAt key (Fields.field k v rest) = (key ≡ k) ⊎ Occurs key v ⊎ OccursAt key rest

first_none : {A : Type 0} (x y : Option A) → first_some x y ≡ none → (x ≡ none) × (y ≡ none)
first_none none y e = (refl, e)
first_none (some a) y e = absurd (true≢false (ap is_some e))

-- What a field that was found is.
abbrev Found : Texts → (String → Type 0) → Option String → Type 0
Found t At none = Unit
Found t At (some key) = At key × (is_prohibited t key ≡ true)

Found-map :
    (t : Texts) (At To : String → Type 0) (x : Option String)
    → ((key : String) → At key → To key)
    → Found t At x
    → Found t To x
Found-map t At To none f h = tt
Found-map t At To (some key) f h = (f key h.0, h.1)

Found-first :
    (t : Texts) (At : String → Type 0) (x y : Option String)
    → Found t At x
    → Found t At y
    → Found t At (first_some x y)
Found-first t At none y h k = k
Found-first t At (some key) y h k = h

module _ (t : Texts) where
  mutual
    unfolding Occurs sensitive_field

    passed :
        (v : Json)
        → sensitive_field t v ≡ none
        → (key : String) → Occurs key v
        → is_prohibited t key ≡ false
    passed Json.null e key at = absurd at
    passed (Json.bool b) e key at = absurd at
    passed (Json.num n) e key at = absurd at
    passed (Json.text s) e key at = absurd at
    passed (Json.arr xs) e key at = passed_items xs e key at
    passed (Json.obj fs) e key at = passed_fields fs e key at

    passed_items :
        (xs : Items)
        → sensitive_item t xs ≡ none
        → (key : String) → OccursIn key xs
        → is_prohibited t key ≡ false
    passed_items Items.nil e key at = absurd at
    passed_items (Items.cons x xs) e key (inl here) =
        passed x (first_none (sensitive_field t x) (sensitive_item t xs) e).0 key here
    passed_items (Items.cons x xs) e key (inr later) =
        passed_items xs (first_none (sensitive_field t x) (sensitive_item t xs) e).1 key later

    passed_fields :
        (fs : Fields)
        → sensitive_entry t fs ≡ none
        → (key : String) → OccursAt key fs
        → is_prohibited t key ≡ false
    passed_fields Fields.end e key at = absurd at
    passed_fields (Fields.field k v rest) e key at = elim (Bool-cases (is_prohibited t k)) [
      | inl bad ↦
          let blocked : some k ≡ none = rw bad at e in absurd (true≢false (ap is_some blocked))
      | inr good ↦
          let below : first_some (sensitive_field t v) (sensitive_entry t rest) ≡ none =
            rw good at e in
          let parts = first_none (sensitive_field t v) (sensitive_entry t rest) below in
          elim at [
            | inl same ↦ rw same good
            | inr (inl inside) ↦ passed v parts.0 key inside
            | inr (inr later) ↦ passed_fields rest parts.1 key later
          ]
    ]

  mutual
    unfolding Occurs sensitive_field

    found : (v : Json) → Found t (λ key. Occurs key v) (sensitive_field t v)
    found Json.null = tt
    found (Json.bool b) = tt
    found (Json.num n) = tt
    found (Json.text s) = tt
    found (Json.arr xs) = found_item xs
    found (Json.obj fs) = found_entry fs

    found_item : (xs : Items) → Found t (λ key. OccursIn key xs) (sensitive_item t xs)
    found_item Items.nil = tt
    found_item (Items.cons x xs) =
        Found-first t _ (sensitive_field t x) (sensitive_item t xs)
          (Found-map t _ _ (sensitive_field t x) (λ key h. inl h) (found x))
          (Found-map t _ _ (sensitive_item t xs) (λ key h. inr h) (found_item xs))

    found_entry : (fs : Fields) → Found t (λ key. OccursAt key fs) (sensitive_entry t fs)
    found_entry Fields.end = tt
    found_entry (Fields.field k v rest) = elim (Bool-cases (is_prohibited t k)) [
      | inl bad ↦ rw bad (inl refl, bad)
      | inr good ↦ rw good (
          Found-first t _ (sensitive_field t v) (sensitive_entry t rest)
            (Found-map t _ _ (sensitive_field t v) (λ key h. inr (inl h)) (found v))
            (Found-map t _ _ (sensitive_entry t rest) (λ key h. inr (inr h)) (found_entry rest)))
    ]

  reported :
      (At : String → Type 0) (x : Option String) (key : String)
      → x ≡ some key
      → Found t At x
      → At key × (is_prohibited t key ≡ true)
  reported At x key e h = subst (Found t At) e h

  -- The check passes a value exactly when no field at any depth has a prohibited name: where it
  -- passes, none has, and the field that it reports stands in the value and has one.
  pub sensitive_field-exact :
      (v : Json) (key : String)
      → (sensitive_field t v ≡ none → Occurs key v → is_prohibited t key ≡ false)
        × (sensitive_field t v ≡ some key → Occurs key v × (is_prohibited t key ≡ true))
  sensitive_field-exact v key = (
    λ clean at. passed v clean key at,
    λ hit. reported (λ k. Occurs k v) (sensitive_field t v) key hit (found v),
  )
