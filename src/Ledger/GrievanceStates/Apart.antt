-- ===== src/Ledger/GrievanceStates/Apart.antt =====
-- Where one grievance is resolved, the overdue ones that the escalation visits are others.
use toomoki_cdac_pds.StringMap.Keys.{KeyedBy}
use toomoki_cdac_pds.Ledger.Grievances.{overdue}
use toomoki_cdac_pds.SharedTypes.{grievance_pending, Grievance, grievance_resolved, GrievanceStatus}
use mathlib.Core.Bool.{true≢false}
use mathlib.Core.Path.{ap, subst}
use toomoki_cdac_pds.Prelude.{
  eq_iff, inr, ◌otherwise◌, ◌∙◌, inl, Bool-cases, some, str_eq, List, String, refl, ◌≡◌, sym, true,
  false, [], ◌∷◌,
}
use toomoki_cdac_pds.StringMap.{values, has, StringMap, get}
use toomoki_cdac_pds.Ledger.RoundTrip.{IsMap}

resolved_settled :
    (st : GrievanceStatus) → grievance_resolved st ≡ true → grievance_pending st ≡ false
resolved_settled GrievanceStatus.open_ h = absurd (true≢false (sym h))
resolved_settled GrievanceStatus.acknowledged h = absurd (true≢false (sym h))
resolved_settled GrievanceStatus.escalated h = refl
resolved_settled GrievanceStatus.resolved h = refl

resolved_timely :
    (now : String) (g : Grievance) → grievance_resolved g.status ≡ true → overdue now g ≡ false
resolved_timely now g h = rw (resolved_settled g.status h) refl

-- The overdue grievances of the list have other ids.
abbrev pub OverdueApart : String → String → List Grievance → Type 0
OverdueApart now k [] = Unit
OverdueApart now k (g ∷ gs) =
    (overdue now g ≡ true → str_eq g.grievance_id k ≡ false) × OverdueApart now k gs

absent-OverdueApart :
    (now k : String) (m : StringMap Grievance)
    → KeyedBy (λ x. x.grievance_id) m
    → has m k ≡ false
    → OverdueApart now k (values m)
unfolding get
absent-OverdueApart now k [] keyed gone = tt
absent-OverdueApart now k ((j, g) ∷ m) keyed gone = elim (Bool-cases (str_eq j k)) [
  | inl hit ↦
      let here : has ((j, g) ∷ m) k ≡ true = rw hit refl in absurd (true≢false (sym here ∙ gone))
  | inr miss ↦
      let past : has ((j, g) ∷ m) k ≡ has m k = rw miss refl in
      (λ _. rw (keyed.0) miss, absent-OverdueApart now k m keyed.1 (sym past ∙ gone))
]

pub values-OverdueApart :
    (now k : String) (grievance : Grievance) (m : StringMap Grievance)
    → grievance_resolved grievance.status ≡ true
    → KeyedBy (λ x. x.grievance_id) m
    → IsMap m
    → get m k ≡ some grievance
    → OverdueApart now k (values m)
unfolding get
values-OverdueApart now k grievance [] final keyed single there = tt
values-OverdueApart now k grievance ((j, g) ∷ m) final keyed single there =
    elim (Bool-cases (str_eq j k)) [
      | inl hit ↦
          let found : get ((j, g) ∷ m) k ≡ some g = rw hit refl in
          let same : g ≡ grievance = ap (λ o. o otherwise g) (sym found ∙ there) in
          (
            λ late. absurd (
                true≢false
                  (sym late ∙ ap (overdue now) same ∙ resolved_timely now grievance final)),
            absent-OverdueApart now k m keyed.1
                (subst (λ i. has m i ≡ false) ((eq_iff j k).0 hit) single.0),
          )
      | inr miss ↦
          let past : get ((j, g) ∷ m) k ≡ get m k = rw miss refl in
          (
            λ _. rw (keyed.0) miss,
            values-OverdueApart now k grievance m final keyed.1 single.1 (sym past ∙ there),
          )
    ]
