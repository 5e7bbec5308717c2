-- ===== src/Contract/Refinement/Grievances.antt =====
-- The transactions on grievances are the engine's operations on the whole ledger.
use toomoki_cdac_pds.Ledger.Persist.{export_state}
use toomoki_cdac_pds.Ledger.Locality.Operations.{
  resolve_grievance-Local, acknowledge_grievance-Local, file_grievance-Local,
}
use toomoki_cdac_pds.Contract.Authorization.{shop, authorized}
use toomoki_cdac_pds.Ledger.Grievances.{ResolveInput, FileInput, set_grievance}
use toomoki_cdac_pds.SharedTypes.Events.{Body}
use toomoki_cdac_pds.Ledger.Record.{
  draw_identifier, draw_timestamp, record_event_with, record_event,
}
use toomoki_cdac_pds.Ledger.Exec.{Exec, pure, modify, ◌>>=◌}
use mathlib.Core.List.{append-nil}
use toomoki_cdac_pds.Contract.Refinement.{
  Agree-SameEvents, transact-Matches, Matches, get-loaded, SameEvents,
}
use toomoki_cdac_pds.Contract.Claims.{
  resolve_grievance_transaction, acknowledge_grievance_transaction, file_grievance_transaction,
  save_grievance, load_grievance,
}
use toomoki_cdac_pds.Contract.Collections.{transact, build_engine, id_key}
use toomoki_cdac_pds.SharedTypes.{EntityType, Grievance}
use toomoki_cdac_pds.Ledger.State.{PdsLedger}
use toomoki_cdac_pds.Ledger.Locality.{IsLocal, Same-one, Same-none, Agree, no_keys, Keys}
use toomoki_cdac_pds.Contract.Stub.{tx_timestamp, transaction_runtime, World, Stub}
use toomoki_cdac_pds.Prelude.{inl, eq_refl, String, Option, some, [], ◌∷◌, ◌≡◌, refl, sym, ◌∙◌}
use toomoki_cdac_pds.StringMap.{get-set, get}
use toomoki_cdac_pds.StringMap.Keys.{IfFound}
use toomoki_cdac_pds.Ledger.Exec.Ends.{Ends, Ends-bind, returned}
use toomoki_cdac_pds.Ledger.Grievances

-- The grievance that was returned stands in the ledger and in the world.
abbrev pub StoredGrievance : Stub → PdsLedger → World → Grievance → PdsLedger → World → Type 0
StoredGrievance stub s w g s' w' =
    (get s'.grievances g.grievance_id ≡ some g)
    × (get w'.grievances (id_key stub g.grievance_id) ≡ some g)
    × SameEvents stub s w s' w'

-- The ledger holds what the world holds under an id, and the engine is at the start of the
-- transaction.
pub record MirrorsGrievance (stub : Stub) (w : World) (s : PdsLedger) (id : String) : Type 0 where
  pub runtime : s.runtime ≡ transaction_runtime stub
  pub timestamps : s.timestamps_drawn ≡ 0
  pub identifiers : s.identifiers_drawn ≡ 0
  pub record_ : get s.grievances id ≡ get w.grievances (id_key stub id)
  pub own_id : IfFound (λ g. g.grievance_id ≡ id) (get w.grievances (id_key stub id))

abbrev pub grievance_keys : String → Keys
grievance_keys id = record no_keys { grievances = id ∷ [] }

module _ (stub : Stub) (w : World) (s : PdsLedger) (id : String)
    (m : MirrorsGrievance stub w s id) where
  loaded-Agree :
      Agree (grievance_keys id) (s.events, []) s (build_engine stub (load_grievance stub id w))
  unfolding Agree build_engine
  loaded-Agree = (
    (
      m.runtime,
      m.timestamps,
      m.identifiers,
      record { news = []; left = sym (append-nil s.events); right = refl },
    ),
    (Same-none _ _, Same-none _ _, Same-none _ _, Same-none _ _),
    (Same-none _ _, Same-none _ _, Same-none _ _),
    (
      Same-none _ _,
      Same-none _ _,
      Same-one id _ _ (
          m.record_
          ∙ sym (get-loaded (λ g. g.grievance_id) w.grievances (id_key stub id) id m.own_id)),
      Same-none _ _,
    ),
  )

-- The last writes of the operations.
stored :
    (g : Grievance) (id : String) (body : Body)
    → Ends
        (λ a s. get s.grievances a.grievance_id ≡ some a)
        (modify (set_grievance g) >>= λ _.
          record_event EntityType.grievance id body >>= λ _. pure g)
unfolding ◌>>=◌ record_event record_event_with draw_timestamp draw_identifier
stored g id body = record {
  with =
      λ s. get-set s.grievances g.grievance_id g.grievance_id g ∙ rw (eq_refl g.grievance_id) refl;
}

abbrev Returns : Exec Grievance → Type 0
Returns act = Ends (λ a s. get s.grievances a.grievance_id ≡ some a) act

file-Returns : (input : FileInput) → Returns (Grievances.file_grievance input)
unfolding Grievances.file_grievance
file-Returns input = search (Ends-bind, stored) depth 20

acknowledge-Returns :
    (id : String) (at : Option String) → Returns (Grievances.acknowledge_grievance id at)
unfolding Grievances.acknowledge_grievance
acknowledge-Returns id at = search (Ends-bind, stored) depth 20

resolve-Returns : (input : ResolveInput) → Returns (Grievances.resolve_grievance input)
unfolding Grievances.resolve_grievance
resolve-Returns input = search (Ends-bind, stored) depth 20

module _ (stub : Stub) (w : World) (s : PdsLedger) (id : String)
    (m : MirrorsGrievance stub w s id) where
  grievance_transaction-Matches :
      (act : Exec Grievance)
      → IsLocal (grievance_keys id) (s.events, []) act
      → Returns act
      → Matches stub
          (StoredGrievance stub s w)
          (act s)
          (transact stub (load_grievance stub id w) act (save_grievance stub) w)
  unfolding export_state
  grievance_transaction-Matches act local ends =
      transact-Matches stub (StoredGrievance stub s w) (load_grievance stub id w) act
        (save_grievance stub) w s local (loaded-Agree stub w s id m)
        (λ g p e agree. (
          returned (λ a t. get t.grievances a.grievance_id ≡ some a) (act s).0 (act s).1 g e
              (ends.with s),
          get-set _ (id_key stub g.grievance_id) (id_key stub g.grievance_id) g
              ∙ rw (eq_refl (id_key stub g.grievance_id)) refl,
          Agree-SameEvents stub (grievance_keys id) s (act s).1 p w agree,
        ))

module _ (stub : Stub) (w : World) (s : PdsLedger) (file : FileInput) (id : String)
    (settle : ResolveInput) where
  -- A transaction on a grievance ends as the engine's operation on the whole ledger does: with its
  -- error, or with its result, which then stands in the world, and with the same events. The
  -- submitter is a fair price shop, the ledger holds what the world holds under the ids concerned,
  -- and its callbacks are those of the transaction.
  pub grievance_transactions-refine :
      stub.msp_id ≡ shop
      → MirrorsGrievance stub w s file.grievance_id
      → MirrorsGrievance stub w s id
      → MirrorsGrievance stub w s settle.grievance_id
      → Matches stub
          (StoredGrievance stub s w)
          (Grievances.file_grievance (record file { filed_at = some (tx_timestamp stub) }) s)
          (file_grievance_transaction stub file w)
        × Matches stub
            (StoredGrievance stub s w)
            (Grievances.acknowledge_grievance id (some (tx_timestamp stub)) s)
            (acknowledge_grievance_transaction stub id w)
        × Matches stub
            (StoredGrievance stub s w)
            (Grievances.resolve_grievance
              (record settle { resolved_at = some (tx_timestamp stub) })
              s)
            (resolve_grievance_transaction stub settle w)
  unfolding authorized file_grievance_transaction acknowledge_grievance_transaction
      resolve_grievance_transaction
  grievance_transactions-refine msp filed known settled = (
    grievance_transaction-Matches stub w s file.grievance_id filed _
        (file_grievance-Local _ (inl refl)) (file-Returns _),
    rw msp (
        grievance_transaction-Matches stub w s id known _
          (acknowledge_grievance-Local id _ (inl refl)) (acknowledge-Returns id _)),
    rw msp (
        grievance_transaction-Matches stub w s settle.grievance_id settled _
          (resolve_grievance-Local _ (inl refl)) (resolve-Returns _)),
  )
