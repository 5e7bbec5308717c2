-- ===== src/Ledger/Rules.antt =====
-- Entitlement rules, and the rollover of unclaimed quota.
use toomoki_cdac_pds.Prelude.{
  true, none, ◌+◌, ◌==◌, ◌||◌, ◌&&◌, str_eq, filter, not, ◌∷◌, some, if◌then◌else◌, Option, Bool,
  List, String, [], ℕ, ◌*◌, ◌/◌,
}
use toomoki_cdac_pds.Prelude.Int.{◌+ℤ◌, leb_ℤ, ltb_ℤ, ℤ, pos}
use toomoki_cdac_pds.StringMap.{get, values, has, set}
use toomoki_cdac_pds.SharedTypes.{
  rule_pending, same_category, rule_active, EntitlementRule, EntityType, RationCardType,
  EntitlementRuleStatus, MonthlyEntitlement,
}
use toomoki_cdac_pds.SharedTypes.Events.{Body}
use toomoki_cdac_pds.Ledger.State.{
  PdsLedger, EntitlementCell, already_exists, must_be_positive, rule_not_pending,
  rollover_out_of_range,
}
use toomoki_cdac_pds.Ledger.Exec.{Exec, pure, gets, throw_if, modify, ◌>>=◌, ◌>>◌}
use toomoki_cdac_pds.Ledger.Checks.{must_get_entitlement_rule, entitlement_key}
use toomoki_cdac_pds.Ledger.Record.{record_event}

abbrev pub set_rule : EntitlementRule → PdsLedger → PdsLedger
set_rule r s = record s { entitlement_rules = set s.entitlement_rules r.rule_id r }

pub record ProposeInput : Type 0 where
  pub rule_id : String
  pub category : RationCardType
  pub commodity : String
  pub monthly_kg : ℤ
  pub effective_from : String
  pub proposed_by : String

unfoldable pub propose_entitlement_rule : ProposeInput → Exec EntitlementRule
propose_entitlement_rule input = do
  known ← gets (λ s. has s.entitlement_rules input.rule_id)
  throw_if known (already_exists "Entitlement rule" input.rule_id)
  throw_if (leb_ℤ input.monthly_kg (pos 0)) (must_be_positive "monthlyKg")
  let rule : EntitlementRule = record {
    rule_id = input.rule_id;
    category = input.category;
    commodity = input.commodity;
    monthly_kg = input.monthly_kg;
    effective_from = input.effective_from;
    effective_to = none;
    status = EntitlementRuleStatus.pending_approval;
    proposed_by = input.proposed_by;
    approved_by = none;
  }
  modify (set_rule rule)
  record_event EntityType.entitlementrule rule.rule_id (Body.propose_entitlement_rule rule)
  pure rule

-- Whether a rule is in force for the category and the commodity of another.
abbrev pub in_force_for : EntitlementRule → EntitlementRule → Bool
in_force_for rule existing =
    rule_active existing.status
    && same_category existing.category rule.category
    && str_eq existing.commodity rule.commodity

abbrev pub superseded_by : EntitlementRule → EntitlementRule → EntitlementRule
superseded_by rule existing = record existing {
  status = EntitlementRuleStatus.superseded;
  effective_to = some rule.effective_from;
}

-- The loop over the rules, which writes only to the key of the rule that it visits.
unfoldable pub supersede : EntitlementRule → List EntitlementRule → PdsLedger → PdsLedger
supersede rule [] s = s
supersede rule (existing ∷ rest) s =
    supersede rule rest
      (if in_force_for rule existing then set_rule (superseded_by rule existing) s else s)

unfoldable pub approve_entitlement_rule : String → String → Exec EntitlementRule
unfolding supersede
approve_entitlement_rule rule_id approved_by = do
  rule ← must_get_entitlement_rule rule_id
  throw_if (not (rule_pending rule.status)) (rule_not_pending rule_id)
  existing ← gets (λ s. values s.entitlement_rules)
  modify (supersede rule existing)
  let approved : EntitlementRule = record rule {
    status = EntitlementRuleStatus.active;
    approved_by = some approved_by;
  }
  modify (set_rule approved)
  record_event EntityType.entitlementrule approved.rule_id (Body.approve_entitlement_rule approved)
  pure approved

-- `getActiveEntitlementRules`
unfoldable pub get_active_entitlement_rules : PdsLedger → List EntitlementRule
get_active_entitlement_rules s = filter (λ r. rule_active r.status) (values s.entitlement_rules)

pub record RolloverInput : Type 0 where
  pub from_month : String
  pub to_month : String
  pub commodity : String
  pub rollover_pct : ℤ

-- `Math.floor(unclaimed * pct / 100)`, for a percentage that is not negative; nothing is carried
-- from a balance that is not positive.
abbrev pub carry_of : ℤ → ℤ → ℕ
carry_of (pos unclaimed) (pos pct) = unclaimed * pct / 100
carry_of _ _ = 0

abbrev pub rolls_over : RolloverInput → MonthlyEntitlement → Bool
rolls_over input e = str_eq e.month input.from_month && str_eq e.commodity input.commodity

-- The entitlement of the next month with the carried quantity.
abbrev pub carried_to :
    RolloverInput → MonthlyEntitlement → ℕ → Option EntitlementCell → MonthlyEntitlement
carried_to input e carry (some existing) = record (existing.entitlement) {
  monthly_entitlement_kg = existing.entitlement.monthly_entitlement_kg +ℤ pos carry;
  available_balance_kg = existing.entitlement.available_balance_kg +ℤ pos carry;
}
carried_to input e carry none = record {
  ration_card_hash = e.ration_card_hash;
  commodity = input.commodity;
  month = input.to_month;
  monthly_entitlement_kg = pos carry;
  already_lifted_kg = pos 0;
  available_balance_kg = pos carry;
  active = true;
  category = e.category;
  ledger_tx_id = none;
  provenance = none;
}

abbrev pub to_key_of : RolloverInput → MonthlyEntitlement → String
to_key_of input e = entitlement_key e.ration_card_hash input.commodity input.to_month

-- One entitlement of the loop: the state, the kilograms carried and the entitlements affected.
unfoldable pub roll_one : RolloverInput → MonthlyEntitlement → PdsLedger → PdsLedger × ℕ × ℕ
roll_one input e s =
    let carry = carry_of e.available_balance_kg input.rollover_pct in
    let key = to_key_of input e in
    if rolls_over input e && not (carry == 0)
    then (
      record s {
        entitlements = set s.entitlements key (record {
          entitlement = carried_to input e carry (get s.entitlements key);
          shared_with = none;
        });
      },
      carry,
      1,
    )
    else (s, 0, 0)

-- The loop. What it writes is of the month that is carried to, which it visits only where that is
-- the month that is carried from, and then only the entitlement's own key; so it reads the values
-- that the map held at the start.
unfoldable pub roll_all : RolloverInput → List MonthlyEntitlement → PdsLedger → PdsLedger × ℕ × ℕ
unfolding roll_one
roll_all input [] s = (s, 0, 0)
roll_all input (e ∷ es) s =
    let (s₁, carry, affected) = roll_one input e s in
    let (s₂, carried, count) = roll_all input es s₁ in (s₂, carry + carried, affected + count)

abbrev pub entitlements_in : List EntitlementCell → List MonthlyEntitlement
entitlements_in [] = []
entitlements_in (c ∷ cs) = c.entitlement ∷ entitlements_in cs

-- The kilograms rolled over and the beneficiaries affected.
unfoldable pub rollover_unclaimed_quota : RolloverInput → Exec (ℕ × ℕ)
unfolding roll_all
rollover_unclaimed_quota input = do
  throw_if (ltb_ℤ input.rollover_pct (pos 0) || ltb_ℤ (pos 100) input.rollover_pct)
      rollover_out_of_range
  before ← gets (λ s. s)
  let rolled = roll_all input (entitlements_in (values before.entitlements)) before
  modify (λ _. rolled.0)
  record_event EntityType.distribution "batch" (
      Body.rollover_unclaimed_quota (record {
        from_month = input.from_month;
        to_month = input.to_month;
        commodity = input.commodity;
        rollover_pct = input.rollover_pct;
        rolled_over_kg = pos rolled.1;
        beneficiaries_affected = rolled.2;
      }))
  pure (rolled.1, rolled.2)
