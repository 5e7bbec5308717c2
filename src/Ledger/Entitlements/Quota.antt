-- ===== src/Ledger/Entitlements/Quota.antt =====
-- What was lifted and what is left make up the month's quota, and neither is negative.
use toomoki_cdac_pds.Prelude.{
  String, ℕ, List, ◌≡◌, refl, [], ◌∷◌, true, false, inl, inr, Bool-cases, Option-cases, arith, not,
  ◌&&◌, ◌==◌,
}
use toomoki_cdac_pds.Prelude.Int.{ℤ, pos, ◌+ℤ◌, leb_ℤ, ltb_ℤ, int_laws}
use toomoki_cdac_pds.StringMap.{get, set, values}
use toomoki_cdac_pds.StringMap.Keys.{AllValues, AllValues-get, AllValues-set}
use toomoki_cdac_pds.SharedTypes.{MonthlyEntitlement, DistributionTransaction}
use toomoki_cdac_pds.Ledger.State.{PdsLedger, EntitlementCell}
use toomoki_cdac_pds.Ledger.Exec.{modify, ◌>>=◌}
use toomoki_cdac_pds.Ledger.Exec.Keeps.{
  Keeps, Keeps-modify, Keeps-bind, Keeps-throw_if, Keeps-rewrite,
}
use toomoki_cdac_pds.Ledger.Exec.Gives.{Gives-also, Checked-then}
use toomoki_cdac_pds.Ledger.Quiet.{IsQuiet, log_rules}
use toomoki_cdac_pds.Ledger.Quiet.Checks.{check_distribution-Keeps}
use toomoki_cdac_pds.Ledger.Record.{consume_stock}
use toomoki_cdac_pds.Ledger.Distribute.{
  record_distribution, DistributionInput, commit_distribution, mutate_entitlement, lift,
  set_distribution,
}
use toomoki_cdac_pds.Ledger.Rules.{
  RolloverInput, rollover_unclaimed_quota, roll_one, roll_all, carried_to, to_key_of, carry_of,
  rolls_over, entitlements_in,
}
use toomoki_cdac_pds.Ledger.Entitlements.Claim.{
  ClaimFound, HasCells, HasCells-refl, check_distribution-Gives,
}

-- The parts that the beneficiary has lifted and can still lift.
abbrev pub WithinQuota : MonthlyEntitlement → Type 0
WithinQuota e =
    (e.already_lifted_kg +ℤ e.available_balance_kg ≡ e.monthly_entitlement_kg)
    × (leb_ℤ (pos 0) e.already_lifted_kg ≡ true)
    × (leb_ℤ (pos 0) e.available_balance_kg ≡ true)

unfoldable pub IsRationed : PdsLedger → Type 0
IsRationed s = AllValues (λ (c : EntitlementCell). WithinQuota c.entitlement) s.entitlements

IsRationed-quiet : IsQuiet IsRationed
unfolding IsRationed
IsRationed-quiet = record { clock = λ t i s h. h; log = λ e s h. h; alert = λ a s h. h }

-- A claim that is positive and within the balance.
lift-WithinQuota :
    (qty : ℤ) (e : MonthlyEntitlement)
    → leb_ℤ qty (pos 0) ≡ false
    → ltb_ℤ e.available_balance_kg qty ≡ false
    → WithinQuota e
    → WithinQuota (lift qty e)
lift-WithinQuota qty e positive covered (sum, lifted, left) =
    (grind int_laws, grind int_laws, grind int_laws)

set_cell-IsRationed :
    (key : String) (c : EntitlementCell) (s : PdsLedger)
    → WithinQuota c.entitlement
    → IsRationed s
    → IsRationed (record s { entitlements = set s.entitlements key c })
unfolding IsRationed
set_cell-IsRationed key c s w h = AllValues-set _ s.entitlements key c h w

mutate-IsRationed :
    (key : String) (cell : EntitlementCell) (e : MonthlyEntitlement)
    → WithinQuota e
    → Keeps IsRationed (modify (mutate_entitlement key cell e))
unfolding IsRationed mutate_entitlement
mutate-IsRationed key cell e w =
    Keeps-modify _ (λ s h. AllValues-set _ s.entitlements key (record cell { entitlement = e }) h w)

set_distribution-IsRationed :
    (d : DistributionTransaction) → Keeps IsRationed (modify (set_distribution d))
unfolding IsRationed
set_distribution-IsRationed d = Keeps-modify _ (λ s h. h)

consume_stock-IsRationed :
    (id commodity : String) (qty : ℤ) → Keeps IsRationed (consume_stock id commodity qty)
unfolding consume_stock ◌>>=◌ IsRationed
consume_stock-IsRationed id commodity qty = record { after = λ s h. ground arith }

commit_distribution-IsRationed :
    (d : DistributionTransaction) (key : String) (cell : EntitlementCell)
    → WithinQuota (lift d.delivered_kg cell.entitlement)
    → Keeps IsRationed (commit_distribution d key cell)
unfolding commit_distribution
commit_distribution-IsRationed d key cell w =
    search
      (
        log_rules, IsRationed-quiet, consume_stock-IsRationed, mutate-IsRationed,
        set_distribution-IsRationed,
      )
      depth 30

found_within :
    (d : DistributionTransaction) (s : PdsLedger) (found : String × String × EntitlementCell)
    → IsRationed s
    → ClaimFound s.entitlements d found
    → WithinQuota (lift d.delivered_kg found.2.entitlement)
unfolding IsRationed
found_within d s found h claim =
    lift-WithinQuota d.delivered_kg found.2.entitlement claim.positive claim.covered (
      AllValues-get (λ (c : EntitlementCell). WithinQuota c.entitlement) s.entitlements found.1 h
        claim.known)

-- In a ledger where what is lifted and what is left make up each month's quota and neither is
-- negative, a distribution keeps it so: nobody lifts more than the quota.
pub record_distribution-IsRationed :
    (input : DistributionInput) (s : PdsLedger)
    → IsRationed s
    → IsRationed (record_distribution input s).1
unfolding record_distribution
record_distribution-IsRationed input s h =
    let Found = ClaimFound s.entitlements input.distribution in
    Checked-then Found (λ s'. HasCells s.entitlements s' × IsRationed s') IsRationed _ _ s
      ((Gives-also _ _ Found _ (check_distribution-Gives s.entitlements input)
          (check_distribution-Keeps IsRationed-quiet input)).at
        s (HasCells-refl s, h))
      (λ s' k. k.1)
      (λ found s' claim k.
        (commit_distribution-IsRationed _ _ found.2
            (found_within input.distribution s found h claim)).after
          s' k.1)

carried-WithinQuota :
    (input : RolloverInput) (e : MonthlyEntitlement) (carry : ℕ) (s : PdsLedger)
    → IsRationed s
    → WithinQuota (carried_to input e carry (get s.entitlements (to_key_of input e)))
unfolding IsRationed
carried-WithinQuota input e carry s h =
    elim (Option-cases (get s.entitlements (to_key_of input e))) [
      | inl absent ↦ rw absent (grind int_laws, refl, grind int_laws)
      | inr (c, found) ↦
          let (sum, lifted, left) =
            AllValues-get (λ (c : EntitlementCell). WithinQuota c.entitlement) s.entitlements
              (to_key_of input e) h found in
          rw found (grind int_laws, lifted, grind int_laws)
    ]

roll_one-IsRationed :
    (input : RolloverInput) (e : MonthlyEntitlement) (s : PdsLedger)
    → IsRationed s
    → IsRationed (roll_one input e s).0
unfolding roll_one
roll_one-IsRationed input e s h =
    let carry = carry_of e.available_balance_kg input.rollover_pct in
    elim (Bool-cases (rolls_over input e && not (carry == 0))) [
      | inr stays ↦ rw (stays, roll_one) h
      | inl rolls ↦
          rw (rolls, roll_one) (set_cell-IsRationed _ _ s (carried-WithinQuota input e carry s h) h)
    ]

roll_all-IsRationed :
    (input : RolloverInput) (es : List MonthlyEntitlement) (s : PdsLedger)
    → IsRationed s
    → IsRationed (roll_all input es s).0
unfolding roll_all
roll_all-IsRationed input [] s h = h
roll_all-IsRationed input (e ∷ es) s h =
    roll_all-IsRationed input es _ (roll_one-IsRationed input e s h)

-- The rollover of unclaimed quota keeps what is lifted and what is left equal to the quota, and
-- neither negative.
pub rollover_unclaimed_quota-IsRationed :
    (input : RolloverInput) (s : PdsLedger)
    → IsRationed s
    → IsRationed (rollover_unclaimed_quota input s).1
unfolding rollover_unclaimed_quota
rollover_unclaimed_quota-IsRationed input s h =
    (Keeps-bind _ _ (Keeps-throw_if _ _) (λ _.
        Keeps-rewrite (λ s. (roll_all input (entitlements_in (values s.entitlements)) s).0) _
          (λ s h. roll_all-IsRationed input (entitlements_in (values s.entitlements)) s h)
          (λ s _. search (log_rules, IsRationed-quiet)))).after
      s h
