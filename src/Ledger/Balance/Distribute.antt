-- ===== src/Ledger/Balance/Distribute.antt =====
-- `recordDistribution` moves the delivered quantity out of the shop's stock.
use toomoki_cdac_pds.Ledger.Exec.Runs.{Runs-then, modify-then}
use toomoki_cdac_pds.Ledger.Balance.Moves.{
  quiet_finish, accounted-SameQuantities, accounted-taken, consume_stock-then,
  accounted-set_distribution_old, accounted-set_distribution_new, taken,
}
use toomoki_cdac_pds.Ledger.Checks.{must_get_entitlement}
use toomoki_cdac_pds.Prelude.{
  ◌∙◌, inl, ap, inr, Option-cases, Option, String, ◌≡◌, some, none, arith,
}
use toomoki_cdac_pds.Prelude.Int.{ℤ, int_laws}
use toomoki_cdac_pds.StringMap.{get, get-set_self}
use toomoki_cdac_pds.SharedTypes.{DistributionTransaction, MonthlyEntitlement}
use toomoki_cdac_pds.Ledger.State.{PdsLedger, EntitlementCell}
use toomoki_cdac_pds.Ledger.Exec.{◌>>=◌}
use toomoki_cdac_pds.Ledger.Exec.Keeps.{Keeps, Keeps-then, keeps_rules}
use toomoki_cdac_pds.Ledger.Distribute.{
  lift, set_distribution, DistributionInput, check_claim, validate_entitlement, check_distribution,
  mutate_entitlement, commit_distribution, record_distribution, flag_exception,
}
use toomoki_cdac_pds.Ledger.Balance.Quantities.{
  Runs-record_event_with, SameQuantities-refl, Keeps-raise_audit_flag, accounted, SameQuantities,
  quiet_rules,
}

module _ {a : PdsLedger} where
  Keeps-must_get_entitlement :
      (card commodity month : String)
      → Keeps (SameQuantities a) (must_get_entitlement card commodity month)
  unfolding must_get_entitlement
  Keeps-must_get_entitlement card commodity month = search keeps_rules

  Keeps-check_claim :
      (d : DistributionTransaction) (month : String) (e : MonthlyEntitlement)
      → Keeps (SameQuantities a) (check_claim d month e)
  unfolding check_claim
  Keeps-check_claim d month e = search (keeps_rules, Keeps-raise_audit_flag)

  Keeps-validate_entitlement :
      (card commodity month : String) (qty : ℤ)
      → Keeps (SameQuantities a) (validate_entitlement card commodity month qty)
  unfolding validate_entitlement
  Keeps-validate_entitlement card commodity month qty =
      search (keeps_rules, Keeps-must_get_entitlement) depth 9

  Keeps-check_distribution :
      (input : DistributionInput) → Keeps (SameQuantities a) (check_distribution input)
  unfolding check_distribution
  Keeps-check_distribution input =
      search
        (quiet_rules, Keeps-must_get_entitlement, Keeps-check_claim, Keeps-validate_entitlement)
        depth 40

  Keeps-flag_exception : (d : DistributionTransaction) → Keeps (SameQuantities a) (flag_exception d)
  unfolding flag_exception
  Keeps-flag_exception d = search (keeps_rules, Keeps-raise_audit_flag)

  SameQuantities-mutate :
      (key : String) (cell : EntitlementCell) (e : MonthlyEntitlement) (s : PdsLedger)
      → SameQuantities a s
      → SameQuantities a (mutate_entitlement key cell e s)
  unfolding mutate_entitlement
  SameQuantities-mutate key cell e s h = ground arith

-- The distribution counts what has left the shop's stock.
distribution_written :
    (d : DistributionTransaction) (a s₀ s : PdsLedger)
    → get a.distributions d.distribution_id ≡ none
    → SameQuantities a s₀
    → SameQuantities (taken d.fps_id d.commodity d.delivered_kg s₀) s
    → accounted (set_distribution d s) ≡ accounted a
distribution_written d a s₀ s fresh h₀ h = grind (
  int_laws,
  accounted-set_distribution_new d s (rw (h.distributions, h₀.distributions) fresh),
  accounted-taken d.fps_id d.commodity d.delivered_kg s₀,
  accounted-SameQuantities h,
  accounted-SameQuantities h₀,
)

distribution_proof_written :
    (d : DistributionTransaction) (id : Option String) (b s : PdsLedger)
    → SameQuantities (set_distribution d b) s
    → accounted (set_distribution (record d { ledger_tx_id = id }) s)
      ≡ accounted (set_distribution d b)
distribution_proof_written d id b s h = grind (
  int_laws,
  accounted-set_distribution_old (record d { ledger_tx_id = id }) s {old = d}
      (rw h.distributions (get-set_self b.distributions d.distribution_id d)),
  accounted-SameQuantities h,
)

module _ (d : DistributionTransaction) (key : String) (cell : EntitlementCell) (a : PdsLedger)
    (fresh : get a.distributions d.distribution_id ≡ none) where
  commit_distribution-conserves :
      (s : PdsLedger)
      → SameQuantities a s
      → accounted (commit_distribution d key cell s).1 ≡ accounted a
  unfolding commit_distribution
  commit_distribution-conserves s h =
      let Conserved : PdsLedger → Type 0 = λ z. accounted z ≡ accounted a in
      let b = taken d.fps_id d.commodity d.delivered_kg s in
      let c = mutate_entitlement key cell (lift d.delivered_kg cell.entitlement) b in
      consume_stock-then Conserved d.fps_id d.commodity d.delivered_kg _ s
        (accounted-SameQuantities h)
        (modify-then Conserved _ _ b (
          modify-then Conserved _ _ c (
            Runs-then (SameQuantities (set_distribution d c)) Conserved _ _
              (Runs-record_event_with _ _ _)
              (λ id s₃ h₃. modify-then Conserved _ _ s₃ (
                quiet_finish _ _ _ (search (keeps_rules, Keeps-flag_exception)) (
                  distribution_proof_written d (some id) c s₃ h₃
                  ∙ distribution_written d a s c fresh h
                      (SameQuantities-mutate key cell _ b (SameQuantities-refl b)))))
              _ (SameQuantities-refl _))))

distribution_known :
    (input : DistributionInput) (s : PdsLedger) {d : DistributionTransaction}
    → get s.distributions input.distribution.distribution_id ≡ some d
    → (record_distribution input s).1 ≡ s
unfolding record_distribution ◌>>=◌
distribution_known input s e = rw e

-- A distribution, whether it succeeds or throws, neither makes nor loses grain: what leaves the
-- shop's stock is delivered.
pub record_distribution-conserves :
    (input : DistributionInput) (s : PdsLedger)
    → accounted (record_distribution input s).1 ≡ accounted s
unfolding record_distribution
record_distribution-conserves input s =
    elim (Option-cases (get s.distributions input.distribution.distribution_id)) [
      | inr (t, e) ↦ ap accounted (distribution_known input s e)
      | inl fresh ↦
          Keeps-then (SameQuantities s) (λ s'. accounted s' ≡ accounted s)
            (check_distribution input) _ (Keeps-check_distribution input)
            (λ s' h. accounted-SameQuantities h)
            (λ (timestamp, key, cell) s' h.
              commit_distribution-conserves
                (record (input.distribution) { timestamp = timestamp; ledger_tx_id = none }) key
                cell s fresh s' h)
            s (SameQuantities-refl s)
    ]
