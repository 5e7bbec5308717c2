-- ===== src/Contract/Sensitive.antt =====
-- `assertNoSensitiveProofFields` of blockchain/chaincode/pds-chaincode/src/contract.ts.
pub mod Exact
use toomoki_cdac_pds.Ledger.Persist.{first_some}
use Prim.Native.String.{String}
use toomoki_cdac_pds.Prelude.{
  if◌then◌else◌, Bool, true, false, ℕ, List, [], ◌∷◌, Option, some, none, filter, any, not, ◌&&◌,
  ◌||◌, leb, ◌==◌,
}
use toomoki_cdac_pds.Prelude.Text.{codes}
use toomoki_cdac_pds.Contract.Json.{Json, Items, Fields, Texts}

-- `startsWith` and `includes`, on code points.
abbrev pub is_prefix : List ℕ → List ℕ → Bool
is_prefix [] cs = true
is_prefix (p ∷ ps) [] = false
is_prefix (p ∷ ps) (c ∷ cs) = (p == c) && is_prefix ps cs

unfoldable pub includes : List ℕ → List ℕ → Bool
includes term [] = is_prefix term []
includes term (c ∷ cs) = is_prefix term (c ∷ cs) || includes term cs

abbrev pub same_codes : List ℕ → List ℕ → Bool
same_codes [] [] = true
same_codes [] (c ∷ cs) = false
same_codes (b ∷ bs) [] = false
same_codes (b ∷ bs) (c ∷ cs) = (b == c) && same_codes bs cs

unfoldable pub ends_with : List ℕ → List ℕ → Bool
ends_with term [] = same_codes term []
ends_with term (c ∷ cs) = same_codes term (c ∷ cs) || ends_with term cs

-- `[a-z0-9]`
abbrev pub is_key_code : ℕ → Bool
is_key_code c = (leb b'a' c && leb c b'z') || (leb b'0' c && leb c b'9')

unfoldable pub normalized_key : Texts → String → List ℕ
normalized_key t key = filter is_key_code (codes (t.to_lower_case key))

-- `/(hash|refhash|digest)$/`
abbrev pub opaque_approved : List ℕ → Bool
opaque_approved key =
    ends_with (codes "hash") key
    || ends_with (codes "refhash") key
    || ends_with (codes "digest") key

abbrev pub identity_terms : List String
identity_terms = "aadhaar" ∷ "mobile" ∷ "phone" ∷ "otp" ∷ "biometric" ∷ []

-- Whether a field of that name holds personal data in the clear.
unfoldable pub is_prohibited : Texts → String → Bool
unfolding normalized_key includes ends_with
is_prohibited t key =
    let name = normalized_key t key in
    let approved = opaque_approved name in
    (any (λ term. includes (codes term) name) identity_terms && not approved)
    || (includes (codes "rationcard") name && not approved)

module _ (t : Texts) where
  -- `assertNoSensitiveProofFields`: the first field that is prohibited, in the order of the visit.
  unfoldable mutual
    pub sensitive_field : Json → Option String
    sensitive_field Json.null = none
    sensitive_field (Json.bool b) = none
    sensitive_field (Json.num n) = none
    sensitive_field (Json.text s) = none
    sensitive_field (Json.arr xs) = sensitive_item xs
    sensitive_field (Json.obj fs) = sensitive_entry fs

    pub sensitive_item : Items → Option String
    sensitive_item Items.nil = none
    sensitive_item (Items.cons x xs) = first_some (sensitive_field x) (sensitive_item xs)

    pub sensitive_entry : Fields → Option String
    sensitive_entry Fields.end = none
    sensitive_entry (Fields.field key child rest) =
        let below = first_some (sensitive_field child) (sensitive_entry rest) in
        if is_prohibited t key then some key else below
