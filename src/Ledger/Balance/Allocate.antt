-- ===== src/Ledger/Balance/Allocate.antt =====
-- `allocateToFps` and `recordFpsReceipt` move grain from a godown over the road to a shop.
use toomoki_cdac_pds.Ledger.Record.{timestamp_or}
use toomoki_cdac_pds.Ledger.Balance.Moves.{
  pure_finish, accounted-taken, accounted-set_allocation_new, accounted-SameQuantities,
  accounted-set_allocation_old, consume_stock-then, taken,
}
use mathlib.Core.Path.{ap}
use toomoki_cdac_pds.Prelude.{◌∙◌, inl, inr, Option-cases, Option, String, ◌≡◌, some, none}
use toomoki_cdac_pds.Prelude.Int.{int_laws}
use toomoki_cdac_pds.StringMap.{get, get-set_self}
use toomoki_cdac_pds.SharedTypes.{FpsAllocation, Stakeholder}
use toomoki_cdac_pds.Ledger.State.{PdsLedger}
use toomoki_cdac_pds.Ledger.Exec.{◌>>=◌}
use toomoki_cdac_pds.Ledger.Exec.Keeps.{Keeps, Keeps-then, keeps_rules}
use toomoki_cdac_pds.Ledger.Exec.Runs.{modify-then, Runs-then}
use toomoki_cdac_pds.Ledger.Allocate.{
  allocation_of, set_allocation, AllocateInput, check_godown_stock, check_allocation,
  commit_allocation, allocate_to_fps,
}
use toomoki_cdac_pds.Ledger.Balance.Quantities.{
  Runs-record_event, Runs-timestamp_or, SameQuantities-refl, Keeps-raise_audit_flag, accounted,
  SameQuantities, quiet_rules,
}

module _ {a : PdsLedger} where
  Keeps-check_godown_stock :
      (input : AllocateInput) → Keeps (SameQuantities a) (check_godown_stock input)
  unfolding check_godown_stock
  Keeps-check_godown_stock input = search (keeps_rules, Keeps-raise_audit_flag)

  Keeps-check_allocation :
      (input : AllocateInput) → Keeps (SameQuantities a) (check_allocation input)
  unfolding check_allocation
  Keeps-check_allocation input = search (quiet_rules, Keeps-check_godown_stock) depth 20

-- The allocation is on the road with what has left the godown.
allocation_written :
    (input : AllocateInput) (transporter : Stakeholder) (at : String) (a s₀ s : PdsLedger)
    → get a.allocations input.allocation_id ≡ none
    → SameQuantities a s₀
    → SameQuantities (taken input.source_godown_id input.commodity input.allocated_qty_kg s₀) s
    → accounted (set_allocation (allocation_of input transporter at) s) ≡ accounted a
allocation_written input transporter at a s₀ s fresh h₀ h = grind (
  int_laws,
  accounted-set_allocation_new (allocation_of input transporter at) s
      (rw (h.allocations, h₀.allocations) fresh),
  accounted-taken input.source_godown_id input.commodity input.allocated_qty_kg s₀,
  accounted-SameQuantities h,
  accounted-SameQuantities h₀,
)

-- The second write, with the id of the proof, weighs as the first.
proof_written :
    (t : FpsAllocation) (id : Option String) (b s : PdsLedger)
    → SameQuantities (set_allocation t b) s
    → accounted (set_allocation (record t { ledger_tx_id = id }) s) ≡ accounted (set_allocation t b)
proof_written t id b s h = grind (
  int_laws,
  accounted-set_allocation_old (record t { ledger_tx_id = id }) s {old = t}
      (rw h.allocations (get-set_self b.allocations t.allocation_id t)),
  accounted-SameQuantities h,
)

module _ (input : AllocateInput) (transporter : Stakeholder) (a : PdsLedger)
    (fresh : get a.allocations input.allocation_id ≡ none) where
  commit_allocation-conserves :
      (s : PdsLedger)
      → SameQuantities a s
      → accounted (commit_allocation input transporter s).1 ≡ accounted a
  unfolding commit_allocation
  commit_allocation-conserves s h =
      let Conserved : PdsLedger → Type 0 = λ z. accounted z ≡ accounted a in
      let b = taken input.source_godown_id input.commodity input.allocated_qty_kg s in
      consume_stock-then Conserved input.source_godown_id input.commodity input.allocated_qty_kg _ s
        (accounted-SameQuantities h)
        (Runs-then (SameQuantities b) Conserved (timestamp_or input.dispatch_timestamp) _
          (Runs-timestamp_or input.dispatch_timestamp)
          (λ at s₂ h₂. modify-then Conserved _ _ s₂ (
            let t = allocation_of input transporter at in
            Runs-then (SameQuantities (set_allocation t s₂)) Conserved _ _ (Runs-record_event _ _ _)
              (λ id s₃ h₃. modify-then Conserved _ _ s₃ (
                pure_finish _ _ (
                  proof_written t (some id) s₂ s₃ h₃
                  ∙ allocation_written input transporter at a s s₂ fresh h h₂)))
              _ (SameQuantities-refl _)))
          b (SameQuantities-refl b))

allocation_known :
    (input : AllocateInput) (s : PdsLedger) {t : FpsAllocation}
    → get s.allocations input.allocation_id ≡ some t
    → (allocate_to_fps input s).1 ≡ s
unfolding allocate_to_fps ◌>>=◌
allocation_known input s e = rw e

-- An allocation to a shop, whether it succeeds or throws, neither makes nor loses grain.
pub allocate_to_fps-conserves :
    (input : AllocateInput) (s : PdsLedger) → accounted (allocate_to_fps input s).1 ≡ accounted s
unfolding allocate_to_fps
allocate_to_fps-conserves input s = elim (Option-cases (get s.allocations input.allocation_id)) [
  | inr (t, e) ↦ ap accounted (allocation_known input s e)
  | inl fresh ↦
      Keeps-then (SameQuantities s) (λ s'. accounted s' ≡ accounted s) (check_allocation input) _
        (Keeps-check_allocation input) (λ s' h. accounted-SameQuantities h)
        (λ transporter s' h. commit_allocation-conserves input transporter s fresh s' h) s
        (SameQuantities-refl s)
]
