-- ===== src/Contract/Control/Approvals.antt =====
-- An approval of an entitlement rule loads less than the engine reads.
use toomoki_cdac_pds.Contract.Control.Transfers.{Fails}
use toomoki_cdac_pds.Ledger.Rules.{supersede}
use toomoki_cdac_pds.SharedTypes.{EntitlementRuleStatus, EntitlementRule, rule_pending}
use toomoki_cdac_pds.Ledger.Record.{
  draw_identifier, draw_timestamp, record_event_with, record_event,
}
use toomoki_cdac_pds.Ledger.Exec.Ends.{IfReturned}
use toomoki_cdac_pds.Ledger.State.{PdsLedger}
use toomoki_cdac_pds.Contract.Authorization.{operation_msp_allowlist, admits}
use toomoki_cdac_pds.Contract.Stub.{Operation, world_after}
use toomoki_cdac_pds.Contract.Authorization.{authorized}
use toomoki_cdac_pds.Ledger.Exec.{err, ok, Result, ◌>>=◌}
use toomoki_cdac_pds.Ledger.Checks.{must_get_entitlement_rule}
use toomoki_cdac_pds.Contract.Collections.{
  Submitted, settle, transact, id_key, build_engine, read_each,
}
use toomoki_cdac_pds.Ledger.Persist.{set_each, export_state, map_of}
use toomoki_cdac_pds.Contract.Control.{save_rule, load_rule, approve_entitlement_rule_transaction}
use toomoki_cdac_pds.Contract.Stub.{World, Stub, Outcome}
use toomoki_cdac_pds.Prelude.{
  eq_refl, str_eq, String, some, none, [], ◌∷◌, ◌≡◌, refl, sym, ◌∙◌, inl, inr, false, Bool-cases,
  Option-cases,
}
use toomoki_cdac_pds.StringMap.{get, set, get-set}
use toomoki_cdac_pds.StringMap.Keys.{IfFound}
use mathlib.Core.Path.{subst}
use toomoki_cdac_pds.Ledger.Rules
use toomoki_cdac_pds.Ledger.Rules

-- An engine that knows one rule has nothing to supersede.
module _ (rule : EntitlementRule) (by : String) (s : PdsLedger) where
  only_rule :
      s.entitlement_rules ≡ (rule.rule_id, rule) ∷ []
      → IfReturned
          (λ _ t.
            (now : EntitlementRule) × (now.rule_id ≡ rule.rule_id)
            × (t.entitlement_rules ≡ (rule.rule_id, now) ∷ []))
          (Rules.approve_entitlement_rule rule.rule_id by s)
  unfolding Rules.approve_entitlement_rule must_get_entitlement_rule record_event record_event_with
      draw_timestamp draw_identifier get set supersede ◌>>=◌
  only_rule alone = elim (Bool-cases (rule_pending rule.status)) [
    | inr settled ↦ rw (alone, eq_refl rule.rule_id, settled) tt
    | inl pending ↦
        rw (alone, eq_refl rule.rule_id, pending)
          (
            record rule { status = EntitlementRuleStatus.active; approved_by = some by },
            refl,
            elim (Bool-cases (Rules.in_force_for rule rule)) [
              | inl active ↦ rw (active, eq_refl rule.rule_id) (rw (eq_refl rule.rule_id) refl)
              | inr not_yet ↦ rw (not_yet, eq_refl rule.rule_id) refl
            ],
          )
  ]

-- What an engine with no rule does.
no_rule :
    (rule_id by : String) (s : PdsLedger)
    → s.entitlement_rules ≡ []
    → Fails (Rules.approve_entitlement_rule rule_id by s)
unfolding Rules.approve_entitlement_rule must_get_entitlement_rule get ◌>>=◌
no_rule rule_id by s none_there = rw none_there tt

abbrev KeepsOther : World → String → Outcome (Submitted EntitlementRule) → Type 0
KeepsOther w k outcome = get (world_after outcome w).entitlement_rules k ≡ get w.entitlement_rules k

settled-KeepsOther :
    (stub : Stub) (w : World) (k : String) (rule : EntitlementRule) (r : Result EntitlementRule)
    (t : PdsLedger)
    → str_eq (id_key stub rule.rule_id) k ≡ false
    → IfReturned
        (λ _ t.
          (now : EntitlementRule) × (now.rule_id ≡ rule.rule_id)
          × (t.entitlement_rules ≡ (rule.rule_id, now) ∷ []))
        (r, t)
    → KeepsOther w k (settle stub r (export_state t) (save_rule stub) w)
unfolding export_state set_each
settled-KeepsOther stub w k rule (err e) t other h = refl
settled-KeepsOther stub w k rule (ok a) t other (now, own, alone) =
    let apart : str_eq (id_key stub now.rule_id) k ≡ false =
      subst (λ id. str_eq (id_key stub id) k ≡ false) (sym own) other in
    rw alone (get-set w.entitlement_rules (id_key stub now.rule_id) k now ∙ rw apart refl)

failed-KeepsOther :
    (stub : Stub) (w : World) (k : String) (r : Result EntitlementRule) (t : PdsLedger)
    → Fails (r, t)
    → KeepsOther w k (settle stub r (export_state t) (save_rule stub) w)
failed-KeepsOther stub w k (err e) t h = refl
failed-KeepsOther stub w k (ok a) t h = absurd h

module _ (stub : Stub) (w : World) (rule_id k : String) where
  abbrev engine : PdsLedger
  engine = build_engine stub (load_rule stub rule_id w)

  loaded_none : get w.entitlement_rules (id_key stub rule_id) ≡ none → engine.entitlement_rules ≡ []
  unfolding build_engine map_of read_each
  loaded_none absent = rw (absent, read_each) refl

  loaded_one :
      {rule : EntitlementRule}
      → get w.entitlement_rules (id_key stub rule_id) ≡ some rule
      → engine.entitlement_rules ≡ (rule.rule_id, rule) ∷ []
  unfolding build_engine map_of read_each set
  loaded_one e = rw (e, read_each) refl

  loaded-KeepsOther :
      str_eq (id_key stub rule_id) k ≡ false
      → IfFound (λ r. r.rule_id ≡ rule_id) (get w.entitlement_rules (id_key stub rule_id))
      → KeepsOther w k (
          transact stub
            (load_rule stub rule_id w)
            (Rules.approve_entitlement_rule rule_id stub.msp_id)
            (save_rule stub)
            w)
  unfolding transact
  loaded-KeepsOther other own =
      elim (Option-cases (get w.entitlement_rules (id_key stub rule_id))) [
        | inl absent ↦
            let (r, t) = Rules.approve_entitlement_rule rule_id stub.msp_id engine in
            failed-KeepsOther stub w k r t (no_rule rule_id stub.msp_id engine (loaded_none absent))
        | inr (rule, e) ↦
            let same : rule.rule_id ≡ rule_id = subst (IfFound (λ r. r.rule_id ≡ rule_id)) e own in
            subst
              (λ id. KeepsOther w k (
                settle stub (Rules.approve_entitlement_rule id stub.msp_id engine).0
                  (export_state (Rules.approve_entitlement_rule id stub.msp_id engine).1)
                  (save_rule stub) w))
              same
              (settled-KeepsOther stub w k rule _ _
                (subst (λ id. str_eq (id_key stub id) k ≡ false) (sym same) other)
                (only_rule rule stub.msp_id engine (loaded_one e)))
      ]

  -- An approval leaves every other rule of the world as it is, also one that is in force for the same
  -- category and commodity, where the record of the rule has the rule's id: the rules that the engine
  -- would supersede are not loaded.
  pub approve_entitlement_rule_transaction-supersedes_none :
      str_eq (id_key stub rule_id) k ≡ false
      → IfFound (λ r. r.rule_id ≡ rule_id) (get w.entitlement_rules (id_key stub rule_id))
      → get
          (world_after (approve_entitlement_rule_transaction stub rule_id w) w).entitlement_rules
          k
        ≡ get w.entitlement_rules k
  unfolding approve_entitlement_rule_transaction authorized transact build_engine
      Rules.approve_entitlement_rule must_get_entitlement_rule ◌>>=◌
  approve_entitlement_rule_transaction-supersedes_none other own =
      elim (Bool-cases
        (admits (operation_msp_allowlist Operation.approve_entitlement_rule) stub.msp_id)) [
          | inr denied ↦ rw denied refl
          | inl admitted ↦ rw admitted (loaded-KeepsOther other own)
        ]
