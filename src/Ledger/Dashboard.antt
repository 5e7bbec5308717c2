-- ===== src/Ledger/Dashboard.antt =====
-- The shops that the dashboard shows at high risk: `highRiskFps` of `getDashboardSummary`, whose
-- `[...new Set(ids)]` is `distinct`.
use toomoki_cdac_pds.Prelude.{
  ◌≡◌, ◌↔◌, ap, sym, refl, ◌⊎◌, inl, inr, true, false, Bool, Bool-cases, String, List, [], ◌∷◌, any,
  filter, map, str_eq, eq_iff, ◌∙◌,
}
use mathlib.Core.Bool.{true≢false}
use mathlib.Core.HLevel.{⊥_prop}
use mathlib.Core.Logic.{∥∥₁_elim}
use mathlib.Core.List.{Memᴰ, Nodup, Pairwise}
use mathlib.Core.List.Memᴰ
use toomoki_cdac_pds.Members.{filter-Memᴰ, filter-passed}
use toomoki_cdac_pds.StringMap.{values}
use toomoki_cdac_pds.SharedTypes.{AuditAlert, RiskLevel}
use toomoki_cdac_pds.Ledger.State.{PdsLedger}
use toomoki_cdac_pds.Ledger.Alerts.{distinct, high_risk, get_dashboard_summary}

abbrev was_seen : String → List String → Bool
was_seen id seen = any (λ j. str_eq j id) seen

was_seen-Memᴰ : (id : String) (seen : List String) → was_seen id seen ≡ true → Memᴰ id seen
was_seen-Memᴰ id [] e = absurd (true≢false (sym e))
was_seen-Memᴰ id (j ∷ seen) e = elim (Bool-cases (str_eq j id)) [
  | inl same ↦ Memᴰ.head (sym ((eq_iff j id).0 same))
  | inr other ↦ Memᴰ.tail (was_seen-Memᴰ id seen (rw other at e))
]

Memᴰ-was_seen : (id : String) (seen : List String) → was_seen id seen ≡ false → Memᴰ id seen → ⊥
Memᴰ-was_seen id [] e m = Memᴰ.not-nil m
Memᴰ-was_seen id (j ∷ seen) e m = elim (Bool-cases (str_eq j id)) [
  | inl same ↦ true≢false (rw same at e)
  | inr other ↦ elim (Memᴰ.cases_cons m) [
    | inl first ↦ true≢false (sym ((eq_iff j id).1 (sym first)) ∙ other)
    | inr later ↦ Memᴰ-was_seen id seen (rw other at e) later
  ]
]

-- What is listed comes from the ids and was not seen before.
distinct-listed :
    (seen ids : List String) (x : String)
    → Memᴰ x (distinct seen ids)
    → Memᴰ x ids × (Memᴰ x seen → ⊥)
unfolding distinct
distinct-listed seen [] x m = absurd (Memᴰ.not-nil m)
distinct-listed seen (id ∷ ids) x m = elim (Bool-cases (was_seen id seen)) [
  | inl old ↦
      let (later, unseen) = distinct-listed seen ids x (rw old at m) in (Memᴰ.tail later, unseen)
  | inr new ↦
      let both : Memᴰ x (id ∷ distinct (id ∷ seen) ids) = rw new at m in
      elim (Memᴰ.cases_cons both) [
        | inl same ↦ (Memᴰ.head same, λ k. Memᴰ-was_seen id seen new (Memᴰ.cast (sym same) k))
        | inr later ↦
            let (k, unseen) = distinct-listed (id ∷ seen) ids x later in
            (Memᴰ.tail k, λ old. unseen (Memᴰ.tail old))
      ]
]

-- No id is lost.
distinct-keeps :
    (seen ids : List String) (x : String) → Memᴰ x ids → Memᴰ x seen ⊎ Memᴰ x (distinct seen ids)
unfolding distinct
distinct-keeps seen [] x m = absurd (Memᴰ.not-nil m)
distinct-keeps seen (id ∷ ids) x m = elim (Bool-cases (was_seen id seen)) [
  | inl old ↦ rw old (elim (Memᴰ.cases_cons m) [
    | inl same ↦ inl (Memᴰ.cast same (was_seen-Memᴰ id seen old))
    | inr later ↦ distinct-keeps seen ids x later
  ])
  | inr new ↦ rw new (elim (Memᴰ.cases_cons m) [
    | inl same ↦ inr (Memᴰ.head same)
    | inr later ↦ elim (distinct-keeps (id ∷ seen) ids x later) [
      | inr listed ↦ inr (Memᴰ.tail listed)
      | inl seen' ↦ elim (Memᴰ.cases_cons seen') [
        | inl same ↦ inr (Memᴰ.head same)
        | inr old ↦ inl old
      ]
    ]
  ])
]

distinct-Nodup : (seen ids : List String) → Nodup (distinct seen ids)
unfolding distinct
distinct-Nodup seen [] = Pairwise.nil
distinct-Nodup seen (id ∷ ids) = elim (Bool-cases (was_seen id seen)) [
  | inl old ↦ rw old (distinct-Nodup seen ids)
  | inr new ↦ rw new (
      Pairwise.cons
        (λ other m same.
          ∥∥₁_elim m ⊥_prop
            (λ k. (distinct-listed (id ∷ seen) ids other k).1 (Memᴰ.head (sym same))))
        (distinct-Nodup (id ∷ seen) ids))
]

high_risk-high : (r : RiskLevel) → high_risk r ≡ true → r ≡ RiskLevel.high
high_risk-high RiskLevel.high e = refl
high_risk-high RiskLevel.medium e = absurd (true≢false (sym e))
high_risk-high RiskLevel.low e = absurd (true≢false (sym e))

-- An alert of high risk is about the shop.
pub record HasHighRisk (s : PdsLedger) (id : String) : Type 0 where
  pub alert : AuditAlert
  pub is_kept : Memᴰ alert (values s.alerts)
  pub about : alert.entity_id ≡ id
  pub level : alert.risk_level ≡ RiskLevel.high

-- The dashboard lists an id as a shop at high risk exactly if an alert of high risk, resolved or not,
-- is about it, and it lists none twice.
pub get_dashboard_summary-high_risk :
    (s : PdsLedger) (id : String)
    → (Memᴰ id (get_dashboard_summary s).high_risk_fps ↔ HasHighRisk s id)
      × Nodup (get_dashboard_summary s).high_risk_fps
unfolding get_dashboard_summary
get_dashboard_summary-high_risk s id =
    let alerts = filter (λ a. high_risk a.risk_level) (values s.alerts) in
    let ids = map (λ a. a.entity_id) alerts in
    (
      (
        λ m.
            let (alert, k, about) =
              Memᴰ.of_map (λ a. a.entity_id) alerts (distinct-listed [] ids id m).0 in
            let (kept, high) =
              filter-passed (λ a. high_risk a.risk_level) (values s.alerts) alert k in
            record {
              alert = alert;
              is_kept = kept;
              about = about;
              level = high_risk-high alert.risk_level high;
            },
        λ h.
            let passed =
              filter-Memᴰ (λ a. high_risk a.risk_level) (values s.alerts) h.alert h.is_kept
                (ap high_risk h.level) in
            elim (distinct-keeps [] ids id
              (Memᴰ.cast (sym h.about) (Memᴰ.map (λ a. a.entity_id) passed))) [
                | inl none_seen ↦ absurd (Memᴰ.not-nil none_seen)
                | inr listed ↦ listed
              ],
      ),
      distinct-Nodup [] ids,
    )
