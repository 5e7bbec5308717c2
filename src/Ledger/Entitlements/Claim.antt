-- ===== src/Ledger/Entitlements/Claim.antt =====
-- What the tests of `recordDistribution` have found when they pass.
use toomoki_cdac_pds.Prelude.{refl, String, ◌≡◌, some, false, arith}
use toomoki_cdac_pds.Prelude.Int.{pos, ltb_ℤ, leb_ℤ}
use toomoki_cdac_pds.StringMap.{get, StringMap}
use toomoki_cdac_pds.SharedTypes.{DistributionTransaction, MonthlyEntitlement}
use toomoki_cdac_pds.Ledger.State.{PdsLedger, EntitlementCell}
use toomoki_cdac_pds.Ledger.Exec.{◌>>=◌}
use toomoki_cdac_pds.Ledger.Exec.Keeps.{Keeps-throw_if, Keeps-gets, Keeps-check}
use toomoki_cdac_pds.Ledger.Exec.Gives.{
  Gives, Gives-bind, Gives-skip, Gives-pure, Gives-throw_if, Gives-if, Gives-throw,
}
use toomoki_cdac_pds.Ledger.Quiet.{IsQuiet, timestamp_or-Keeps, raise_audit_flag-Keeps}
use toomoki_cdac_pds.Ledger.Quiet.Checks.{validate_entitlement-Keeps}
use toomoki_cdac_pds.Ledger.Checks.{must_get_entitlement, entitlement_key}
use toomoki_cdac_pds.Ledger.Distribute.{DistributionInput, check_claim, check_distribution}

-- The entitlements are those of the map.
pub HasCells : StringMap EntitlementCell → PdsLedger → Type 0
HasCells m s = s.entitlements ≡ m

pub HasCells-refl : (s : PdsLedger) → HasCells s.entitlements s
unfolding HasCells
HasCells-refl s = refl

pub HasCells-quiet : (m : StringMap EntitlementCell) → IsQuiet (HasCells m)
unfolding HasCells
HasCells-quiet m = record { clock = λ t i s h. h; log = λ e s h. h; alert = λ a s h. h }

-- The cell stands under the key, and its balance covers what is claimed, which is positive.
pub record ClaimFound (m : StringMap EntitlementCell) (d : DistributionTransaction)
    (found : String × String × EntitlementCell) : Type 0 where
  pub known : get m found.1 ≡ some found.2
  pub positive : leb_ℤ d.delivered_kg (pos 0) ≡ false
  pub covered : ltb_ℤ found.2.entitlement.available_balance_kg d.delivered_kg ≡ false

module _ (m : StringMap EntitlementCell) where
  must_get_entitlement-Gives :
      (hash commodity month : String)
      → Gives
          (HasCells m)
          (λ c. get m (entitlement_key hash commodity month) ≡ some c)
          (must_get_entitlement hash commodity month)
  unfolding must_get_entitlement ◌>>=◌ HasCells
  must_get_entitlement-Gives hash commodity month = record { at = λ s h. rw h (ground arith) }

  check_claim-Gives :
      (d : DistributionTransaction) (month : String) (e : MonthlyEntitlement)
      → Gives
          (HasCells m)
          (λ _. ltb_ℤ e.available_balance_kg d.delivered_kg ≡ false)
          (check_claim d month e)
  unfolding check_claim
  check_claim-Gives d month e =
      let Q : Unit {0} → Type 0 = λ _. ltb_ℤ e.available_balance_kg d.delivered_kg ≡ false in
      Gives-if Q _ _ _
        (λ _.
          Gives-skip Q _ _ (raise_audit_flag-Keeps (HasCells-quiet m) _ _ _ _)
            (λ _. Gives-throw Q _))
        (λ covered. Gives-pure Q tt covered)

  pub check_distribution-Gives :
      (input : DistributionInput)
      → Gives (HasCells m) (ClaimFound m input.distribution) (check_distribution input)
  unfolding check_distribution
  check_distribution-Gives input =
      let Q = ClaimFound m input.distribution in
      let quiet = HasCells-quiet m in
      Gives-skip Q _ _ (Keeps-gets _) (λ _. Gives-skip Q _ _ (Keeps-throw_if _ _) (λ _.
        Gives-skip Q _ _ (Keeps-throw_if _ _) (λ _.
          Gives-bind Q _ _ (Gives-throw_if _ _) (λ _ positive.
            Gives-skip Q _ _ (Keeps-check _) (λ _. Gives-skip Q _ _ (Keeps-check _) (λ _.
              Gives-skip Q _ _ (Keeps-gets _) (λ _. Gives-skip Q _ _ (Keeps-throw_if _ _) (λ _.
                Gives-skip Q _ _ (timestamp_or-Keeps quiet _) (λ _.
                  Gives-skip Q _ _ (Keeps-gets _) (λ _. Gives-skip Q _ _ (Keeps-check _) (λ month.
                    Gives-bind Q _ _ (must_get_entitlement-Gives _ _ month) (λ cell known.
                      Gives-bind Q _ _ (check_claim-Gives input.distribution month cell.entitlement)
                        (λ _ covered.
                          Gives-skip Q _ _ (validate_entitlement-Keeps quiet _ _ _ _) (λ _.
                            Gives-pure Q _ (record {
                              known = known;
                              positive = positive;
                              covered = covered;
                            })))))))))))))))
