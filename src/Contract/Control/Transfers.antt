-- ===== src/Contract/Control/Transfers.antt =====
-- A transfer of a ration card that names two shops.
use toomoki_cdac_pds.Ledger.Cards.{CardTransferInput}
use toomoki_cdac_pds.SharedTypes.{card_active}
use toomoki_cdac_pds.Ledger.Exec.Ends.{IfReturned}
use toomoki_cdac_pds.Ledger.State.{PdsLedger}
use toomoki_cdac_pds.Contract.Authorization.{operation_msp_allowlist, admits}
use toomoki_cdac_pds.Contract.Stub.{tx_timestamp, Operation}
use toomoki_cdac_pds.Contract.Authorization.{authorized}
use toomoki_cdac_pds.Ledger.Exec.{Exec, err, ok, Result, ◌>>=◌}
use toomoki_cdac_pds.Ledger.Checks.{assert_active_stakeholder, must_get_ration_card}
use toomoki_cdac_pds.Contract.Collections.{
  settle, transact, read_ids, id_key, build_engine, read_each,
}
use toomoki_cdac_pds.Ledger.Persist.{PdsLedgerState, export_state, map_of}
use toomoki_cdac_pds.Contract.Control.{
  save_card, load_card, transfer_ration_card_transaction, TransferPayload,
}
use toomoki_cdac_pds.Contract.Stub.{World, Stub, Outcome}
use toomoki_cdac_pds.Prelude.{
  str_eq, String, some, none, [], ◌∷◌, ◌≡◌, refl, sym, inl, inr, false, Bool-cases, Option-cases,
}
use toomoki_cdac_pds.StringMap.{get, set}
use toomoki_cdac_pds.StringMap.Keys.{IfFound}
use mathlib.Core.Path.{subst}
use toomoki_cdac_pds.Ledger.Cards
use toomoki_cdac_pds.Ledger.Cards

-- The transaction does not commit.
abbrev pub IsRefused : {A : Type 0} → Outcome A → Type 0
IsRefused (Outcome.committed a w) = ⊥
IsRefused (Outcome.refused r) = Unit

abbrev pub Fails : {A : Type 0} → Result A × PdsLedger → Type 0
Fails = IfReturned (λ _ _. ⊥)

module _ {A : Type 0} where
  settled-IsRefused :
      (stub : Stub) (r : Result A) (s : PdsLedger) (state : PdsLedgerState)
      (save : A → PdsLedgerState → World → World) (w : World)
      → Fails (r, s)
      → IsRefused (settle stub r state save w)
  settled-IsRefused stub (ok a) s state save w h = h
  settled-IsRefused stub (err e) s state save w h = tt

  transact-IsRefused :
      (stub : Stub) (partial : PdsLedgerState) (act : Exec A)
      (save : A → PdsLedgerState → World → World) (w : World)
      → Fails (act (build_engine stub partial))
      → IsRefused (transact stub partial act save w)
  unfolding transact
  transact-IsRefused stub partial act save w h =
      let (r, s) = act (build_engine stub partial) in
      settled-IsRefused stub r s (export_state s) save w h

unknown_shop :
    (input : CardTransferInput) (s : PdsLedger)
    → get s.stakeholders input.to_fps_id ≡ none
    → Fails (Cards.transfer_ration_card input s)
unfolding Cards.transfer_ration_card must_get_ration_card assert_active_stakeholder ◌>>=◌
unknown_shop input s gone = elim (Option-cases (get s.ration_cards input.ration_card_hash)) [
  | inl absent ↦ rw absent tt
  | inr (c, e) ↦ elim (Bool-cases (card_active c.status)) [
    | inl active ↦ rw (e, active, gone) tt
    | inr idle ↦ rw (e, idle) tt
  ]
]

module _ (stub : Stub) (w : World) (payload : TransferPayload) (loaded : String) where
  abbrev stamped : CardTransferInput
  stamped = record payload.input { transferred_at = some (tx_timestamp stub) }

  shop_missing :
      str_eq loaded payload.input.to_fps_id ≡ false
      → IfFound (λ x. x.stakeholder_id ≡ loaded) (get w.stakeholders (id_key stub loaded))
      → get
          (map_of (λ x. x.stakeholder_id) (read_ids stub w.stakeholders (loaded ∷ [])))
          payload.input.to_fps_id
        ≡ none
  unfolding map_of read_each get set
  shop_missing other own = elim (Option-cases (get w.stakeholders (id_key stub loaded))) [
    | inl absent ↦ rw (absent, read_each) refl
    | inr (x, e) ↦
        let is_loaded : x.stakeholder_id ≡ loaded =
          subst (IfFound (λ y. y.stakeholder_id ≡ loaded)) e own in
        rw (e, read_each)
          (rw (subst (λ k. str_eq k payload.input.to_fps_id ≡ false) (sym is_loaded) other) refl)
  ]

  -- A transfer whose `newFpsId` is another shop than its `toFpsId` is refused, whatever the world
  -- holds, where the record of the shop that is loaded has that shop's id: the engine looks for a
  -- shop that was not loaded.
  pub transfer_ration_card_transaction-refuses :
      payload.new_fps_id ≡ some loaded
      → str_eq loaded payload.input.to_fps_id ≡ false
      → IfFound (λ x. x.stakeholder_id ≡ loaded) (get w.stakeholders (id_key stub loaded))
      → IsRefused (transfer_ration_card_transaction stub payload w)
  unfolding transfer_ration_card_transaction authorized build_engine
  transfer_ration_card_transaction-refuses named other own =
      elim (Bool-cases
        (admits (operation_msp_allowlist Operation.transfer_ration_card) stub.msp_id)) [
          | inr denied ↦ rw denied tt
          | inl admitted ↦
              rw (admitted, named)
                (let partial : PdsLedgerState =
                    record (load_card stub payload.input.ration_card_hash w) {
                      stakeholders = read_ids stub w.stakeholders (loaded ∷ []);
                    } in
                  transact-IsRefused stub partial (Cards.transfer_ration_card stamped)
                    (save_card stub) w
                    (unknown_shop stamped (build_engine stub partial) (shop_missing other own)))
        ]
