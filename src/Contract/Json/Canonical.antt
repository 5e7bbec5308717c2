-- ===== src/Contract/Json/Canonical.antt =====
-- The canonical text of a value does not depend on the order in which its fields were written.
use toomoki_cdac_pds.Contract.Json.{
  canonical_fields, canonical_items, Fields, canonical_json, Items, Entry, Texts, Json, place,
}
use toomoki_cdac_pds.Prelude.{String, List, [], ◌∷◌, ◌≡◌, refl, ◌∙◌, false, ◌&&◌, arith}
use toomoki_cdac_pds.TextOrder.{text_le, text_le_total, text_le_trans}

-- Two different keys: neither stands at the other's place.
abbrev pub AreApart : String → String → Type 0
AreApart k j = text_le k j && text_le j k ≡ false

place_comm :
    (d e : Entry) (es : List Entry) → AreApart d.0 e.0 → place d (place e es) ≡ place e (place d es)
unfolding place
place_comm d e [] h = ground (arith, text_le_total d.0 e.0)
place_comm d e (f ∷ fs) h = ground (
  arith,
  text_le_total d.0 e.0,
  text_le_trans d.0 e.0 f.0,
  text_le_trans e.0 d.0 f.0,
  place_comm d e fs h,
)

-- The same value with the fields of its objects in another order, at any depth.
mutual
  pub data SameJson : Json → Json → Type 0 where
    same : (v : Json) → SameJson v v
    arr : {xs ys : Items} → SameItems xs ys → SameJson (Json.arr xs) (Json.arr ys)
    obj : {fs gs : Fields} → Reordered fs gs → SameJson (Json.obj fs) (Json.obj gs)

  pub data SameItems : Items → Items → Type 0 where
    nil : SameItems Items.nil Items.nil
    cons :
        {x y : Json} {xs ys : Items}
        → SameJson x y
        → SameItems xs ys
        → SameItems (Items.cons x xs) (Items.cons y ys)

  pub data Reordered : Fields → Fields → Type 0 where
    done : Reordered Fields.end Fields.end
    keep :
        {v u : Json} {fs gs : Fields} (k : String)
        → SameJson v u
        → Reordered fs gs
        → Reordered (Fields.field k v fs) (Fields.field k u gs)
    swap :
        (k j : String) (v u : Json) (fs : Fields)
        → AreApart k j
        → Reordered
            (Fields.field k v (Fields.field j u fs))
            (Fields.field j u (Fields.field k v fs))
    chain : {fs gs hs : Fields} → Reordered fs gs → Reordered gs hs → Reordered fs hs

module _ (t : Texts) where
  mutual
    unfolding canonical_json

    same_text : {v u : Json} → SameJson v u → canonical_json t v ≡ canonical_json t u
    same_text (SameJson.same v) = refl
    same_text (SameJson.arr h) = rw (same_items h) refl
    same_text (SameJson.obj h) = rw (same_fields h) refl

    same_items : {xs ys : Items} → SameItems xs ys → canonical_items t xs ≡ canonical_items t ys
    same_items SameItems.nil = refl
    same_items (SameItems.cons h rest) = rw (same_text h, same_items rest) refl

    same_fields : {fs gs : Fields} → Reordered fs gs → canonical_fields t fs ≡ canonical_fields t gs
    same_fields Reordered.done = refl
    same_fields (Reordered.keep k h rest) = rw (same_text h, same_fields rest) refl
    same_fields (Reordered.swap k j v u fs apart) = place_comm _ _ (canonical_fields t fs) apart
    same_fields (Reordered.chain h rest) = same_fields h ∙ same_fields rest

  -- Values that differ only in the order of fields with different keys, at any depth, have the same
  -- canonical text.
  pub canonical_json-reordered :
      (v u : Json) → SameJson v u → canonical_json t v ≡ canonical_json t u
  canonical_json-reordered v u h = same_text h
