-- ===== src/Ledger/Keyed/Distribute.antt =====
-- `recordDistribution` and the rollover keep every record under its own id, and so do the methods
-- on registers.
use toomoki_cdac_pds.Prelude.{◌==◌, not, ◌&&◌, refl}
use toomoki_cdac_pds.Ledger.Quiet.Registers.{KeepsRegisters}
use toomoki_cdac_pds.Ledger.Exec.Gives.{Gives-also, Checked-then}
use toomoki_cdac_pds.Ledger.Exec.Keeps.{Keeps-rewrite, Keeps-throw_if, Keeps-bind}
use toomoki_cdac_pds.StringMap.Keys.{KeyedBy-get}
use toomoki_cdac_pds.Ledger.Entitlements.Claim.{
  HasCells-refl, check_distribution-Gives, HasCells, ClaimFound,
}
use toomoki_cdac_pds.StringMap.{values, get, StringMap}
use toomoki_cdac_pds.Prelude.{Option-cases, ℕ, List, [], ◌∷◌}
use toomoki_cdac_pds.Ledger.Quiet.Checks.{check_distribution-Keeps}
use toomoki_cdac_pds.Ledger.Keyed.Movement.{consume_stock-IsKeyed}
use toomoki_cdac_pds.Prelude.Int.{ℤ}
use toomoki_cdac_pds.Ledger.Quiet.{log_rules}
use toomoki_cdac_pds.Prelude.{inr, inl, Bool-cases, ◌∷◌, List, String, ◌≡◌}
use toomoki_cdac_pds.Ledger.Keyed.{
  IsKeyed-set_grievance, IsKeyed-set_card, IsKeyed-set_auth, IsKeyed-set_stakeholder,
  entitlements_keyed, KeyedBy, IsKeyed-set_rule, IsKeyed-set_cell, PdsLedger,
  IsKeyed-set_entitlement, Keeps, DistributionTransaction, EntitlementCell, MonthlyEntitlement,
  IsKeyed, IsKeyed-quiet, keyed_writes,
}
use toomoki_cdac_pds.Ledger.Rules.{
  entitlements_in, rolls_over, carry_of, to_key_of, carried_to, rollover_unclaimed_quota, roll_all,
  roll_one, RolloverInput,
}
use toomoki_cdac_pds.Ledger.Distribute.{
  check_distribution, DistributionInput, key_of, flag_exception, commit_distribution,
  record_distribution, mutate_entitlement, lift,
}

pub IsKeyed-registers : KeepsRegisters IsKeyed
IsKeyed-registers = record {
  quiet = IsKeyed-quiet;
  stakeholder = IsKeyed-set_stakeholder;
  authentication = IsKeyed-set_auth;
  entitlement = IsKeyed-set_entitlement;
  card = IsKeyed-set_card;
  grievance = IsKeyed-set_grievance;
  rule = IsKeyed-set_rule;
}

mutate-IsKeyed :
    (key : String) (cell : EntitlementCell) (qty : ℤ) (s : PdsLedger)
    → key_of cell.entitlement ≡ key
    → IsKeyed s
    → IsKeyed (mutate_entitlement key cell (lift qty cell.entitlement) s)
unfolding mutate_entitlement IsKeyed
mutate-IsKeyed key cell qty s own h =
    IsKeyed-set_cell key (record cell { entitlement = lift qty cell.entitlement }) s own h

flag_exception-IsKeyed : (d : DistributionTransaction) → Keeps IsKeyed (flag_exception d)
unfolding flag_exception
flag_exception-IsKeyed d = search (log_rules, IsKeyed-quiet) depth 12

commit_distribution-IsKeyed :
    (d : DistributionTransaction) (key : String) (cell : EntitlementCell)
    → key_of cell.entitlement ≡ key
    → Keeps IsKeyed (commit_distribution d key cell)
unfolding commit_distribution
commit_distribution-IsKeyed d key cell own =
    search (log_rules, keyed_writes, consume_stock-IsKeyed, flag_exception-IsKeyed, mutate-IsKeyed)
      depth 30

-- What stands in the entitlements' map stands under its own key.
found_own :
    (m : StringMap EntitlementCell) (d : DistributionTransaction)
    (found : String × String × EntitlementCell)
    → KeyedBy (λ c. key_of c.entitlement) m
    → ClaimFound m d found
    → key_of found.2.entitlement ≡ found.1
found_own m d found keyed h = KeyedBy-get (λ c. key_of c.entitlement) m found.1 keyed h.known

pub record_distribution-IsKeyed :
    (input : DistributionInput) → Keeps IsKeyed (record_distribution input)
unfolding record_distribution
record_distribution-IsKeyed input = record {
  after = λ s h.
      let Found = ClaimFound s.entitlements input.distribution in
      Checked-then Found (λ s'. HasCells s.entitlements s' × IsKeyed s') IsKeyed
        (check_distribution input) _ s
        ((Gives-also _ _ Found _ (check_distribution-Gives s.entitlements input)
            (check_distribution-Keeps IsKeyed-quiet input)).at
          s (HasCells-refl s, h))
        (λ s' k. k.1)
        (λ found s' claim k.
          (commit_distribution-IsKeyed _ _ found.2
              (found_own s.entitlements _ found (entitlements_keyed s h) claim)).after
            s' k.1);
}

carried-own :
    (input : RolloverInput) (e : MonthlyEntitlement) (carry : ℕ) (m : StringMap EntitlementCell)
    → KeyedBy (λ c. key_of c.entitlement) m
    → key_of (carried_to input e carry (get m (to_key_of input e))) ≡ to_key_of input e
carried-own input e carry m keyed = elim (Option-cases (get m (to_key_of input e))) [
  | inl absent ↦ rw absent refl
  | inr (c, found) ↦
      rw found (KeyedBy-get (λ c. key_of c.entitlement) m (to_key_of input e) keyed found)
]

roll_one-IsKeyed :
    (input : RolloverInput) (e : MonthlyEntitlement) (s : PdsLedger)
    → IsKeyed s
    → IsKeyed (roll_one input e s).0
unfolding roll_one
roll_one-IsKeyed input e s h =
    let carry = carry_of e.available_balance_kg input.rollover_pct in
    elim (Bool-cases (rolls_over input e && not (carry == 0))) [
      | inr stays ↦ rw (stays, roll_one) h
      | inl rolls ↦
          rw (rolls, roll_one)
            (IsKeyed-set_cell _ _ s
              (carried-own input e carry s.entitlements (entitlements_keyed s h)) h)
    ]

roll_all-IsKeyed :
    (input : RolloverInput) (es : List MonthlyEntitlement) (s : PdsLedger)
    → IsKeyed s
    → IsKeyed (roll_all input es s).0
unfolding roll_all
roll_all-IsKeyed input [] s h = h
roll_all-IsKeyed input (e ∷ es) s h = roll_all-IsKeyed input es _ (roll_one-IsKeyed input e s h)

pub rollover_unclaimed_quota-IsKeyed :
    (input : RolloverInput) → Keeps IsKeyed (rollover_unclaimed_quota input)
unfolding rollover_unclaimed_quota
rollover_unclaimed_quota-IsKeyed input = Keeps-bind _ _ (Keeps-throw_if _ _) (λ _.
    Keeps-rewrite (λ s. (roll_all input (entitlements_in (values s.entitlements)) s).0) _
      (λ s h. roll_all-IsKeyed input (entitlements_in (values s.entitlements)) s h)
      (λ s _. search (log_rules, IsKeyed-quiet)))
