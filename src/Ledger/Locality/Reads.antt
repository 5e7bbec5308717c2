-- ===== src/Ledger/Locality/Reads.antt =====
-- The lookups read the records under the keys, and nothing else.
use toomoki_cdac_pds.Ledger.Checks.{
  assert_active_stakeholder, must_get_grievance, must_get_ration_card,
}
use toomoki_cdac_pds.SharedTypes.Events.{LedgerEvent}
use toomoki_cdac_pds.Ledger.Exec.{gets}
use toomoki_cdac_pds.Prelude.{String, List, refl}
use toomoki_cdac_pds.StringMap.{get, has}
use toomoki_cdac_pds.Ledger.Locality.{local_rules, Keys, Agree, Among, IsLocal, Local-gets}

module _ {keys : Keys} {before : List LedgerEvent × List LedgerEvent} where
  pub get_stakeholders-Local :
      (k : String)
      → Among k keys.stakeholders
      → IsLocal keys before (gets (λ s. get s.stakeholders k))
  unfolding Agree
  get_stakeholders-Local k among =
      Local-gets _
        (λ s p (clock, goods, claims, (stakeholders, ration_cards, grievances, entitlement_rules)).
          stakeholders.found k among)

  pub get_ration_cards-Local :
      (k : String)
      → Among k keys.ration_cards
      → IsLocal keys before (gets (λ s. get s.ration_cards k))
  unfolding Agree
  get_ration_cards-Local k among =
      Local-gets _
        (λ s p (clock, goods, claims, (stakeholders, ration_cards, grievances, entitlement_rules)).
          ration_cards.found k among)

  pub has_ration_cards-Local :
      (k : String)
      → Among k keys.ration_cards
      → IsLocal keys before (gets (λ s. has s.ration_cards k))
  unfolding Agree
  has_ration_cards-Local k among =
      Local-gets _
        (λ s p (clock, goods, claims, (stakeholders, ration_cards, grievances, entitlement_rules)).
          rw (ration_cards.found k among) refl)

  pub get_grievances-Local :
      (k : String) → Among k keys.grievances → IsLocal keys before (gets (λ s. get s.grievances k))
  unfolding Agree
  get_grievances-Local k among =
      Local-gets _
        (λ s p (clock, goods, claims, (stakeholders, ration_cards, grievances, entitlement_rules)).
          grievances.found k among)

  pub has_grievances-Local :
      (k : String) → Among k keys.grievances → IsLocal keys before (gets (λ s. has s.grievances k))
  unfolding Agree
  has_grievances-Local k among =
      Local-gets _
        (λ s p (clock, goods, claims, (stakeholders, ration_cards, grievances, entitlement_rules)).
          rw (grievances.found k among) refl)

  pub must_get_ration_card-Local :
      (k : String) → Among k keys.ration_cards → IsLocal keys before (must_get_ration_card k)
  unfolding must_get_ration_card
  must_get_ration_card-Local k among = search (local_rules, get_ration_cards-Local)

  pub must_get_grievance-Local :
      (k : String) → Among k keys.grievances → IsLocal keys before (must_get_grievance k)
  unfolding must_get_grievance
  must_get_grievance-Local k among = search (local_rules, get_grievances-Local)

  pub assert_active_stakeholder-Local :
      (k : String) → Among k keys.stakeholders → IsLocal keys before (assert_active_stakeholder k)
  unfolding assert_active_stakeholder
  assert_active_stakeholder-Local k among = search (local_rules, get_stakeholders-Local) depth 20

pub ruleset read_rules = (
  get_stakeholders-Local, get_ration_cards-Local, has_ration_cards-Local, get_grievances-Local,
  has_grievances-Local, must_get_ration_card-Local, must_get_grievance-Local,
  assert_active_stakeholder-Local,
)
