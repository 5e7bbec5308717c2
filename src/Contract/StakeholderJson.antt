-- ===== src/Contract/StakeholderJson.antt =====
-- A stakeholder as the JSON that `RegisterStakeholder` compares.
use toomoki_cdac_pds.Contract.Stub.{Stub}
use Prim.Native.String.{String}
use toomoki_cdac_pds.Prelude.{Bool, Option, some, none, str_eq}
use toomoki_cdac_pds.SharedTypes.{StakeholderType, StakeholderStatus, Jurisdiction, Stakeholder}
use toomoki_cdac_pds.Contract.Json.{Json, Fields, canonical_json}

abbrev pub type_text : StakeholderType → String
type_text StakeholderType.fci = "FCI"
type_text StakeholderType.transporter = "TRANSPORTER"
type_text StakeholderType.state_godown = "STATE_GODOWN"
type_text StakeholderType.block_godown = "BLOCK_GODOWN"
type_text StakeholderType.fair_price_shop = "FAIR_PRICE_SHOP"
type_text StakeholderType.district_supply_office = "DISTRICT_SUPPLY_OFFICE"
type_text StakeholderType.block_supply_office = "BLOCK_SUPPLY_OFFICE"
type_text StakeholderType.auditor = "AUDITOR"

abbrev pub status_text : StakeholderStatus → String
status_text StakeholderStatus.active = "ACTIVE"
status_text StakeholderStatus.inactive = "INACTIVE"

abbrev pub jurisdiction_text : Jurisdiction → String
jurisdiction_text Jurisdiction.central = "CENTRAL"
jurisdiction_text Jurisdiction.state = "STATE"

-- A field that is left out when it is undefined.
abbrev pub optional : {A : Type 0} → String → (A → Json) → Option A → Fields → Fields
optional key f none rest = rest
optional key f (some x) rest = Fields.field key (f x) rest

unfoldable pub stakeholder_json : Stakeholder → Json
stakeholder_json s = Json.obj (
    Fields.field "stakeholderId" (Json.text s.stakeholder_id) (
      Fields.field "stakeholderType" (Json.text (type_text s.stakeholder_type)) (
        Fields.field "name" (Json.text s.name) (
          Fields.field "district" (Json.text s.district) (
            Fields.field "licenseNo" (Json.text s.license_no) (
              Fields.field "status" (Json.text (status_text s.status)) (
                optional "jurisdiction" (λ j. Json.text (jurisdiction_text j)) s.jurisdiction
                  (optional "capacityKg" Json.num s.capacity_kg (
                    optional "dealerName" Json.text s.dealer_name (
                      optional "dealerId" Json.text s.dealer_id (
                        optional "shopNo" Json.text s.shop_no (
                          optional "blockName" Json.text s.block_name (
                            optional "tehsilName" Json.text s.tehsil_name
                              (optional "location" Json.text s.location Fields.end))))))))))))))

abbrev pub same_stakeholder : Stub → Stakeholder → Stakeholder → Bool
same_stakeholder stub a b =
    str_eq (canonical_json stub.texts (stakeholder_json a))
      (canonical_json stub.texts (stakeholder_json b))
