-- ===== src/Contract/Json.antt =====
-- A value that `JSON.parse` gives, with `canonicalJson` and `assertNoSensitiveProofFields` of
-- blockchain/chaincode/pds-chaincode/src/contract.ts.
pub mod Canonical
use Prim.Native.String.{String, ◌++◌}
use toomoki_cdac_pds.Prelude.{Bool, ℕ, List, [], ◌∷◌, if◌then◌else◌, not, ◌||◌, ◌&&◌, leb, any}
use toomoki_cdac_pds.Prelude.Int.{ℤ}
use toomoki_cdac_pds.Prelude.Text.{codes, show_ℤ}
use toomoki_cdac_pds.TextOrder.{text_le}

-- Numbers are whole. The fields of an object are in the order in which they were written.
mutual
  pub data Json : Type 0 where
    null : Json
    bool : Bool → Json
    num : ℤ → Json
    text : String → Json
    arr : Items → Json
    obj : Fields → Json

  pub data Items : Type 0 where
    nil : Items
    cons : Json → Items → Items

  pub data Fields : Type 0 where
    end : Fields
    field : String → Json → Fields → Fields

-- What the contract uses of the platform: `JSON.stringify` of a text, and `toLowerCase`.
pub record Texts : Type 0 where
  pub quote : String → String
  pub to_lower_case : String → String

-- `parts.join(',')`
unfoldable pub join : List String → String
join [] = ""
join (x ∷ []) = x
join (x ∷ y ∷ ys) = x ++ ("," ++ join (y ∷ ys))

-- A field: its key, and its text `"key":value`.
abbrev pub Entry : Type 0
Entry = String × String

-- `.sort()` puts a key before those that are not smaller.
unfoldable pub place : Entry → List Entry → List Entry
place e [] = e ∷ []
place e (f ∷ fs) = if text_le e.0 f.0 then e ∷ f ∷ fs else f ∷ place e fs

abbrev pub texts_of : List Entry → List String
texts_of [] = []
texts_of (e ∷ es) = e.1 ∷ texts_of es

module _ (t : Texts) where
  unfoldable mutual
    unfolding join place

    pub canonical_json : Json → String
    canonical_json null = "null"
    canonical_json (bool b) = if b then "true" else "false"
    canonical_json (num n) = show_ℤ n
    canonical_json (text s) = t.quote s
    canonical_json (arr xs) = "[" ++ (join (canonical_items xs) ++ "]")
    canonical_json (obj fs) = "{" ++ (join (texts_of (canonical_fields fs)) ++ "}")

    pub canonical_items : Items → List String
    canonical_items nil = []
    canonical_items (cons x xs) = canonical_json x ∷ canonical_items xs

    -- The fields, sorted by key.
    pub canonical_fields : Fields → List Entry
    canonical_fields end = []
    canonical_fields (field k v fs) =
        place (k, t.quote k ++ (":" ++ canonical_json v)) (canonical_fields fs)
