-- ===== src/Contract/Refinement/CardWorld.antt =====
-- What a transaction on a ration card loads agrees with the whole ledger.
use toomoki_cdac_pds.Contract.Control.{load_card}
use toomoki_cdac_pds.Ledger.State.{PdsLedger}
use toomoki_cdac_pds.Contract.Stub.{Stub, World, transaction_runtime}
use toomoki_cdac_pds.Contract.Collections.{build_engine, read_ids, id_key}
use toomoki_cdac_pds.Ledger.Locality.{Same-one, Same-none, Keys, Agree, no_keys}
use toomoki_cdac_pds.SharedTypes.{Stakeholder, AuditAlert, RationCard}
use mathlib.Core.List.{append-nil}
use toomoki_cdac_pds.Prelude.{String, List, some, [], ◌∷◌, ◌≡◌, refl, sym, ◌∙◌}
use toomoki_cdac_pds.StringMap.{get}
use toomoki_cdac_pds.Ledger.Persist.{PdsLedgerState, map_of}
use toomoki_cdac_pds.StringMap.Keys.{IfFound}
use toomoki_cdac_pds.Contract.Refinement.{get-loaded, SameEvents}

-- The card that was returned stands in the ledger and in the world.
abbrev pub StoredCard : Stub → PdsLedger → World → RationCard → PdsLedger → World → Type 0
StoredCard stub s w c s' w' =
    (get s'.ration_cards c.ration_card_hash ≡ some c)
    × (get w'.ration_cards (id_key stub c.ration_card_hash) ≡ some c)
    × SameEvents stub s w s' w'

-- The ledger holds what the world holds under a hash, and the engine is at the start of the
-- transaction.
pub record MirrorsCard (stub : Stub) (w : World) (s : PdsLedger) (hash : String) : Type 0 where
  pub runtime : s.runtime ≡ transaction_runtime stub
  pub timestamps : s.timestamps_drawn ≡ 0
  pub identifiers : s.identifiers_drawn ≡ 0
  pub record_ : get s.ration_cards hash ≡ get w.ration_cards (id_key stub hash)
  pub own_id : IfFound (λ c. c.ration_card_hash ≡ hash) (get w.ration_cards (id_key stub hash))

-- The ledger holds the stakeholder that the world holds.
pub record MirrorsStakeholder (stub : Stub) (w : World) (s : PdsLedger) (id : String) : Type 0 where
  pub record_ : get s.stakeholders id ≡ get w.stakeholders (id_key stub id)
  pub own_id : IfFound (λ x. x.stakeholder_id ≡ id) (get w.stakeholders (id_key stub id))

abbrev pub card_keys : String → Keys
card_keys hash = record no_keys { ration_cards = hash ∷ [] }

abbrev pub transfer_keys : String → String → Keys
transfer_keys hash shop_id = record no_keys {
  ration_cards = hash ∷ [];
  stakeholders = shop_id ∷ [];
}

abbrev pub with_alerts : PdsLedgerState → List AuditAlert → PdsLedgerState
with_alerts partial alerts = record partial { alerts = alerts }

abbrev pub with_stakeholders : PdsLedgerState → List Stakeholder → PdsLedgerState
with_stakeholders partial stakeholders = record partial { stakeholders = stakeholders }

module _ (stub : Stub) (w : World) (s : PdsLedger) (hash : String)
    (m : MirrorsCard stub w s hash) where
  pub loaded_card :
      get s.ration_cards hash
      ≡ get (map_of (λ c. c.ration_card_hash) (read_ids stub w.ration_cards (hash ∷ []))) hash
  loaded_card =
      m.record_
      ∙ sym (get-loaded (λ c. c.ration_card_hash) w.ration_cards (id_key stub hash) hash m.own_id)

  pub loaded-Agree :
      (alerts : List AuditAlert)
      → Agree
          (card_keys hash)
          (s.events, [])
          s
          (build_engine stub (with_alerts (load_card stub hash w) alerts))
  unfolding Agree build_engine
  loaded-Agree alerts = (
    (
      m.runtime,
      m.timestamps,
      m.identifiers,
      record { news = []; left = sym (append-nil s.events); right = refl },
    ),
    (Same-none _ _, Same-none _ _, Same-none _ _, Same-none _ _),
    (Same-none _ _, Same-none _ _, Same-none _ _),
    (Same-none _ _, Same-one hash _ _ loaded_card, Same-none _ _, Same-none _ _),
  )

  pub transfer-Agree :
      (shop_id : String)
      → MirrorsStakeholder stub w s shop_id
      → Agree
          (transfer_keys hash shop_id)
          (s.events, [])
          s
          (build_engine stub (
            with_stakeholders
              (load_card stub hash w)
              (read_ids stub w.stakeholders (shop_id ∷ []))))
  unfolding Agree build_engine
  transfer-Agree shop_id known = (
    (
      m.runtime,
      m.timestamps,
      m.identifiers,
      record { news = []; left = sym (append-nil s.events); right = refl },
    ),
    (Same-none _ _, Same-none _ _, Same-none _ _, Same-none _ _),
    (Same-none _ _, Same-none _ _, Same-none _ _),
    (
      Same-one shop_id _ _ (
          known.record_
          ∙ sym (
              get-loaded (λ x. x.stakeholder_id) w.stakeholders (id_key stub shop_id) shop_id
                known.own_id)),
      Same-one hash _ _ loaded_card,
      Same-none _ _,
      Same-none _ _,
    ),
  )
