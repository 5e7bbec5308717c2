-- ===== src/Ledger/RuleBook.antt =====
-- One rule in force for each category and commodity: what an approval does to the others.
use toomoki_cdac_pds.Ledger.Record.{
  record_event_with, draw_identifier, draw_timestamp, record_event,
}
use toomoki_cdac_pds.Ledger.Checks.{must_get_entitlement_rule}
use toomoki_cdac_pds.Prelude.{
  String, List, Option, Bool, ◌≡◌, refl, sym, ap, ◌∙◌, none, some, [], ◌∷◌, true, false, inl, inr,
  Bool-cases, Option-cases, ◌⊎◌, str_eq, eq_iff,
}
use mathlib.Core.Path.{subst}
use mathlib.Core.Bool.{true≢false}
use toomoki_cdac_pds.StringMap.{get-set, get, set, values, StringMap}
use toomoki_cdac_pds.StringMap.Keys.{IfFound, KeyedBy-found, KeyedBy, KeyedBy-get, KeyedBy-set}
use toomoki_cdac_pds.SharedTypes.{EntitlementRule, rule_pending, EntitlementRuleStatus}
use toomoki_cdac_pds.Ledger.State.{PdsLedger}
use toomoki_cdac_pds.Ledger.Exec.{Result, ok, err, ◌>>=◌}
use toomoki_cdac_pds.Ledger.Keyed.{IsKeyed, rules_keyed}
use toomoki_cdac_pds.Ledger.Rules.{approve_entitlement_rule, supersede, superseded_by, in_force_for}

-- Whether the rule that was found is in force for the category and the commodity of another.
abbrev pub found_in_force : EntitlementRule → Option EntitlementRule → Bool
found_in_force rule none = false
found_in_force rule (some existing) = in_force_for rule existing

abbrev approved_by : EntitlementRule → String → EntitlementRule
approved_by rule by = record rule { status = EntitlementRuleStatus.active; approved_by = some by }

abbrev Listed : EntitlementRule → List EntitlementRule → Type 0
Listed x [] = ⊥
Listed x (e ∷ es) = (x ≡ e) ⊎ Listed x es

module _ {P Q R : EntitlementRule → Type 0} where
  IfFound-zip :
      (o : Option EntitlementRule)
      → ((x : EntitlementRule) → P x → Q x → R x)
      → IfFound P o
      → IfFound Q o
      → IfFound R o
  IfFound-zip none f h k = tt
  IfFound-zip (some x) f h k = f x h k

get-Listed :
    (m : StringMap EntitlementRule) (k : String) → IfFound (λ x. Listed x (values m)) (get m k)
unfolding get
get-Listed [] k = tt
get-Listed ((j, w) ∷ m) k = elim (Bool-cases (str_eq j k)) [
  | inl hit ↦ rw hit (inl refl)
  | inr miss ↦ rw miss (IfFound-zip (get m k) (λ x h _. inr h) (get-Listed m k) (get-Listed m k))
]

-- A rule in force that is found is among those that are still to be visited.
abbrev Pending : EntitlementRule → List EntitlementRule → EntitlementRule → Type 0
Pending rule es x = in_force_for rule x ≡ true → Listed x es

record StillListed (rule : EntitlementRule) (es : List EntitlementRule)
    (m : StringMap EntitlementRule) : Type 0 where
  keyed : KeyedBy (λ x. x.rule_id) m
  listed : (k : String) → IfFound (Pending rule es) (get m k)

pass_over :
    (rule e : EntitlementRule) (es : List EntitlementRule) (m : StringMap EntitlementRule)
    → in_force_for rule e ≡ false
    → StillListed rule (e ∷ es) m
    → StillListed rule es m
pass_over rule e es m other h = record {
  keyed = h.keyed;
  listed = λ k.
      IfFound-zip (get m k)
        (λ x pending _ f. elim (pending f) [
          | inl same ↦ absurd (true≢false (sym f ∙ ap (in_force_for rule) same ∙ other))
          | inr later ↦ later
        ])
        (h.listed k) (h.listed k);
}

retire :
    (rule e : EntitlementRule) (es : List EntitlementRule) (m : StringMap EntitlementRule)
    → StillListed rule (e ∷ es) m
    → StillListed rule es (set m e.rule_id (superseded_by rule e))
retire rule e es m h = record {
  keyed = KeyedBy-set (λ x. x.rule_id) m e.rule_id (superseded_by rule e) h.keyed refl;
  listed = λ k. elim (Bool-cases (str_eq e.rule_id k)) [
    | inl hit ↦
        rw (get-set m e.rule_id k (superseded_by rule e), hit) (λ f. absurd (true≢false (sym f)))
    | inr miss ↦
        rw (get-set m e.rule_id k (superseded_by rule e), miss)
          (IfFound-zip (get m k)
            (λ x pending own f. elim (pending f) [
              | inl same ↦ absurd (
                  true≢false
                    (sym ((eq_iff e.rule_id k).1 (ap (λ y. y.rule_id) (sym same) ∙ own)) ∙ miss))
              | inr later ↦ later
            ])
            (h.listed k) (KeyedBy-found (λ x. x.rule_id) m k h.keyed))
  ];
}

supersede-none_left :
    (rule : EntitlementRule) (es : List EntitlementRule) (s : PdsLedger)
    → StillListed rule es s.entitlement_rules
    → StillListed rule [] (supersede rule es s).entitlement_rules
unfolding supersede
supersede-none_left rule [] s h = h
supersede-none_left rule (e ∷ es) s h = elim (Bool-cases (in_force_for rule e)) [
  | inl active ↦
      rw (active, supersede)
        (supersede-none_left rule es _ (retire rule e es s.entitlement_rules h))
  | inr other ↦
      rw (other, supersede)
        (supersede-none_left rule es s (pass_over rule e es s.entitlement_rules other h))
]

-- Where an approval returned: whether the rule under `k` is in force beside the approved one.
abbrev pub beside : String → Result EntitlementRule × PdsLedger → Bool
beside k (ok approved, s) = found_in_force approved (get s.entitlement_rules k)
beside k (err _, s) = false

none_found :
    (rule : EntitlementRule) (o : Option EntitlementRule)
    → IfFound (Pending rule []) o
    → found_in_force rule o ≡ false
none_found rule none h = refl
none_found rule (some x) h = elim (Bool-cases (in_force_for rule x)) [
  | inl active ↦ absurd (h active)
  | inr other ↦ other
]

superseded_apart :
    (rule : EntitlementRule) (by k : String) (s : PdsLedger)
    → KeyedBy (λ x. x.rule_id) s.entitlement_rules
    → str_eq rule.rule_id k ≡ false
    → found_in_force rule (
        get
          (set
            (supersede rule (values s.entitlement_rules) s).entitlement_rules
            rule.rule_id
            (approved_by rule by))
          k)
      ≡ false
superseded_apart rule by k s keyed apart =
    let m = s.entitlement_rules in
    let start : StillListed rule (values m) m = record {
      keyed = keyed;
      listed = λ j. IfFound-zip (get m j) (λ x l _ _. l) (get-Listed m j) (get-Listed m j);
    } in
    let left = supersede-none_left rule (values m) s start in
    let after = (supersede rule (values m) s).entitlement_rules in
    rw (get-set after rule.rule_id k (approved_by rule by), apart)
      (none_found rule (get after k) (left.listed k))

-- After an approval that returns, in a ledger where every record stood under its own id, under no
-- id other than the approved rule's stands a rule in force for the same category and commodity.
pub approve_entitlement_rule-supersedes :
    (id by k : String) (s : PdsLedger)
    → IsKeyed s
    → str_eq id k ≡ false
    → beside k (approve_entitlement_rule id by s) ≡ false
unfolding approve_entitlement_rule ◌>>=◌ must_get_entitlement_rule record_event draw_timestamp
    draw_identifier record_event_with
approve_entitlement_rule-supersedes id by k s keyed apart =
    elim (Option-cases (get s.entitlement_rules id)) [
      | inl absent ↦ rw absent refl
      | inr (rule, e) ↦ elim (Bool-cases (rule_pending rule.status)) [
        | inr settled ↦ rw (e, settled) refl
        | inl pending ↦
            rw (e, pending)
              (superseded_apart rule by k s (rules_keyed s keyed) (
                subst (λ j. str_eq j k ≡ false)
                  (sym
                    (KeyedBy-get (λ x. x.rule_id) s.entitlement_rules id (rules_keyed s keyed) e))
                  apart))
      ]
    ]
