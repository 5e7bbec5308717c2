-- ===== src/Ledger/GrievanceStates.antt =====
-- A resolved grievance is final: no operation on grievances changes it.
mod Apart
use toomoki_cdac_pds.Ledger.GrievanceStates.Apart.{values-OverdueApart, OverdueApart}
use toomoki_cdac_pds.Prelude.{none}
use toomoki_cdac_pds.Ledger.Record.{draw_timestamp, timestamp_or}
use toomoki_cdac_pds.Ledger.Exec.Gives.{Gives-throw_if, Keeps-bind_found, Gives}
use toomoki_cdac_pds.Prelude.{[], ◌∷◌}
use toomoki_cdac_pds.Ledger.Exec.{Exec, gets, modify, ◌>>=◌}
use toomoki_cdac_pds.Ledger.Checks.{must_get_grievance}
use toomoki_cdac_pds.Ledger.Exec.Keeps.{Keeps-modify, Keeps-bind, Keeps-pure, Keeps}
use toomoki_cdac_pds.Ledger.Quiet.{log_rules, IsQuiet}
use toomoki_cdac_pds.StringMap.Keys.{KeyedBy-set, get-own, KeyedBy}
use toomoki_cdac_pds.Ledger.Grievances.{
  set_grievance, FileInput, ResolveInput, escalate_overdue_grievances, file_grievance,
  record_escalation, escalate_all, escalate, resolve_grievance, acknowledge_grievance, overdue,
}
use toomoki_cdac_pds.Ledger.State.{PdsLedger}
use toomoki_cdac_pds.SharedTypes.{
  AuditAlert, grievance_open, grievance_pending, grievance_resolved, Grievance, GrievanceStatus,
}
use toomoki_cdac_pds.Ledger.Keyed.{IsKeyed}
use mathlib.Core.Bool.{not, true≢false}
use mathlib.Core.Path.{ap, subst}
use toomoki_cdac_pds.Prelude.{
  ◌otherwise◌, ◌∙◌, inr, inl, eq_iff, Option-cases, Bool-cases, Option, some, str_eq, ◌∷◌, List,
  String, refl, ◌≡◌, sym, true, false,
}
use toomoki_cdac_pds.StringMap.{values, StringMap, get, set, has, get-set}
use toomoki_cdac_pds.Ledger.RoundTrip.{IsMap}

-- Under the key stands the grievance, and every grievance under its own id.
unfoldable Holds : String → Grievance → PdsLedger → Type 0
Holds k grievance s =
    (get s.grievances k ≡ some grievance) × KeyedBy (λ x. x.grievance_id) s.grievances

still_there :
    (k : String) (grievance : Grievance) (s : PdsLedger)
    → Holds k grievance s
    → get s.grievances k ≡ some grievance
unfolding Holds
still_there k grievance s h = h.0

Holds-start :
    (k : String) (grievance : Grievance) (s : PdsLedger)
    → IsKeyed s
    → get s.grievances k ≡ some grievance
    → Holds k grievance s
unfolding Holds IsKeyed
Holds-start k grievance s keyed there = (there, keyed.1.1)

not_open : (st : GrievanceStatus) → not (grievance_open st) ≡ false → grievance_resolved st ≡ false
not_open GrievanceStatus.open_ h = refl
not_open GrievanceStatus.acknowledged h = refl
not_open GrievanceStatus.escalated h = refl
not_open GrievanceStatus.resolved h = absurd (true≢false h)

module _ (k : String) (grievance : Grievance)
    (final : grievance_resolved grievance.status ≡ true) where
  Holds-quiet : IsQuiet (Holds k grievance)
  unfolding Holds
  Holds-quiet = record { clock = λ t i s h. h; log = λ e s h. h; alert = λ x s h. h }

  -- A grievance that is not the one.
  abbrev Other : Grievance → Type 0
  Other g = str_eq g.grievance_id k ≡ false

  Holds-set_grievance :
      (g : Grievance) → Other g → Keeps (Holds k grievance) (modify (set_grievance g))
  unfolding Holds
  Holds-set_grievance g other = Keeps-modify _ (λ s (there, keyed). (
    get-set s.grievances g.grievance_id k g ∙ rw other there,
    KeyedBy-set (λ x. x.grievance_id) s.grievances g.grievance_id g keyed refl,
  ))

  kept_apart :
      (s : PdsLedger) (id : String) (g : Grievance)
      → Holds k grievance s
      → get s.grievances id ≡ some g
      → grievance_resolved g.status ≡ false
      → Other g
  unfolding Holds
  kept_apart s id g (there, keyed) e active = elim (Bool-cases (str_eq g.grievance_id k)) [
    | inr other ↦ other
    | inl hit ↦
        let at_k : get s.grievances k ≡ some g =
          subst (λ j. get s.grievances j ≡ some g) ((eq_iff g.grievance_id k).0 hit)
            (get-own (λ x. x.grievance_id) s.grievances id keyed e) in
        let same : g ≡ grievance = ap (λ o. o otherwise g) (sym at_k ∙ there) in
        absurd (true≢false (sym final ∙ ap (λ x. grievance_resolved x.status) (sym same) ∙ active))
  ]

  must_get-Other :
      (id : String)
      → Gives
          (Holds k grievance)
          (λ g. (grievance_resolved g.status ≡ false → Other g))
          (must_get_grievance id)
  unfolding must_get_grievance ◌>>=◌
  must_get-Other id = record {
    at = λ s h. elim (Option-cases (get s.grievances id)) [
      | inl absent ↦ rw absent h
      | inr (g, e) ↦ rw e (kept_apart s id g h e, h)
    ];
  }

  acknowledge-Holds :
      (id : String) (at : Option String) → Keeps (Holds k grievance) (acknowledge_grievance id at)
  unfolding acknowledge_grievance
  acknowledge-Holds id at = Keeps-bind_found _ _ _ (must_get-Other id) (λ g other.
      Keeps-bind_found _ _ _ (Gives-throw_if _ _) (λ _ open_.
        (let apart = other (not_open g.status open_) in
          search (log_rules, Holds-quiet, Holds-set_grievance) depth 20)))

  resolve-Holds : (input : ResolveInput) → Keeps (Holds k grievance) (resolve_grievance input)
  unfolding resolve_grievance
  resolve-Holds input = Keeps-bind_found _ _ _ (must_get-Other input.grievance_id) (λ g other.
      Keeps-bind_found _ _ _ (Gives-throw_if _ _) (λ _ active.
        (let apart = other active in
          search (log_rules, Holds-quiet, Holds-set_grievance) depth 20)))

  escalate-Holds :
      (now : String) (g : Grievance) → Other g → Keeps (Holds k grievance) (escalate now g)
  unfolding escalate
  escalate-Holds now g other = search (log_rules, Holds-quiet, Holds-set_grievance) depth 20

  escalate_all-Holds :
      (now : String) (gs : List Grievance)
      → OverdueApart now k gs
      → Keeps (Holds k grievance) (escalate_all now gs)
  unfolding escalate_all
  escalate_all-Holds now [] apart = Keeps-pure _
  escalate_all-Holds now (g ∷ gs) apart =
      let rest = escalate_all-Holds now gs apart.1 in
      elim (Bool-cases (overdue now g)) [
        | inr timely ↦ rw (timely, escalate_all) rest
        | inl late ↦
            rw (late, escalate_all)
              (Keeps-bind _ _ (escalate-Holds now g (apart.0 late))
                (λ p. Keeps-bind _ _ rest (λ q. Keeps-pure _)))
      ]

  record_escalation-Holds :
      (now : String) (gs : List Grievance) → Keeps (Holds k grievance) (record_escalation now gs)
  unfolding record_escalation
  record_escalation-Holds now [] = Keeps-pure tt
  record_escalation-Holds now (g ∷ gs) = search (log_rules, Holds-quiet) depth 20

  found :
      (s : PdsLedger) (id : String)
      → get s.grievances k ≡ some grievance
      → str_eq id k ≡ true
      → has s.grievances id ≡ true
  found s id there hit =
      subst (λ j. has s.grievances j ≡ true) (sym ((eq_iff id k).0 hit)) (rw there refl)

  -- A grievance is filed under an id that the ledger does not know.
  unknown-Other :
      (id : String)
      → Gives
          (Holds k grievance)
          (λ known. (known ≡ false → str_eq id k ≡ false))
          (gets (λ s. has s.grievances id))
  unfolding ◌>>=◌ Holds
  unknown-Other id = record {
    at = λ s h. (
      λ unknown. elim (Bool-cases (str_eq id k)) [
        | inr other ↦ other
        | inl hit ↦ absurd (true≢false (sym (found s id h.0 hit) ∙ unknown))
      ],
      h,
    );
  }

  file-Holds : (input : FileInput) → Keeps (Holds k grievance) (file_grievance input)
  unfolding file_grievance
  file-Holds input = Keeps-bind_found _ _ _ (unknown-Other input.grievance_id) (λ known other.
      Keeps-bind_found _ _ _ (Gives-throw_if _ _) (λ _ unknown.
        (let apart = other unknown in
          search (log_rules, Holds-quiet, Holds-set_grievance) depth 30)))

  batch-Holds :
      (now : String) (s : PdsLedger)
      → Holds k grievance s
      → IsMap s.grievances
      → Keeps (Holds k grievance) (escalate_all now (values s.grievances))
  unfolding Holds
  batch-Holds now s h single =
      escalate_all-Holds now (values s.grievances)
        (values-OverdueApart now k grievance s.grievances final h.1 single h.0)

  escalation-Holds :
      (at : Option String) (s : PdsLedger)
      → Holds k grievance s
      → IsMap s.grievances
      → Holds k grievance (escalate_overdue_grievances at s).1
  unfolding escalate_overdue_grievances timestamp_or draw_timestamp ◌>>=◌
  escalation-Holds none s h single =
      let later = Holds-quiet.clock _ _ s h in
      (Keeps-bind _ _ (batch-Holds _ _ later single)
          (λ p. Keeps-bind _ _ (record_escalation-Holds _ p.0) (λ _. Keeps-pure _))).after
        _ later
  escalation-Holds (some now) s h single =
      (Keeps-bind _ _ (batch-Holds now s h single)
          (λ p. Keeps-bind _ _ (record_escalation-Holds now p.0) (λ _. Keeps-pure _))).after
        s h

-- A resolved grievance stays as it is, whatever operation on grievances is called, with whatever
-- arguments, where the records stand under their own ids and no grievance's key twice.
pub resolved_grievance-stays :
    (k : String) (grievance : Grievance) (s : PdsLedger)
    → IsKeyed s
    → IsMap s.grievances
    → get s.grievances k ≡ some grievance
    → grievance_resolved grievance.status ≡ true
    → (file : FileInput) (id : String) (at : Option String) (settle : ResolveInput)
    → (get (file_grievance file s).1.grievances k ≡ some grievance)
      × (get (acknowledge_grievance id at s).1.grievances k ≡ some grievance)
      × (get (resolve_grievance settle s).1.grievances k ≡ some grievance)
      × (get (escalate_overdue_grievances at s).1.grievances k ≡ some grievance)
resolved_grievance-stays k grievance s keyed single there final file id at settle =
    let h = Holds-start k grievance s keyed there in
    (
      still_there k grievance _ ((file-Holds k grievance final file).after s h),
      still_there k grievance _ ((acknowledge-Holds k grievance final id at).after s h),
      still_there k grievance _ ((resolve-Holds k grievance final settle).after s h),
      still_there k grievance _ (escalation-Holds k grievance final at s h single),
    )
