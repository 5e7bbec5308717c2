-- ===== src/Contract/Control/Rollovers.antt =====
-- A rollover of unclaimed quota loads less than the engine reads.
use toomoki_cdac_pds.Ledger.Distribute.{key_of}
use toomoki_cdac_pds.Contract.Authorization.{department, authorized}
use toomoki_cdac_pds.Ledger.Persist.{export_state}
use toomoki_cdac_pds.Ledger.Record.{
  draw_identifier, draw_timestamp, record_event_with, record_event,
}
use toomoki_cdac_pds.Contract.Collections.{
  entitlement_composite_key, query_state, transact, build_engine,
}
use toomoki_cdac_pds.Contract.Control.{of_month, rollover_unclaimed_quota_transaction}
use toomoki_cdac_pds.SharedTypes.{MonthlyEntitlement}
use toomoki_cdac_pds.Ledger.Rules.{to_key_of, rolls_over, carry_of, carried_to, RolloverInput}
use toomoki_cdac_pds.Contract.Stub.{world_after, World, Stub}
use toomoki_cdac_pds.Prelude.{
  ◌≡◌, refl, ◌∙◌, false, true, [], ◌∷◌, ◌||◌, ◌==◌, str_eq, eq_refl, none, some,
}
use toomoki_cdac_pds.Prelude.Text.{show}
use toomoki_cdac_pds.Prelude.Int.{pos, ltb_ℤ}
use toomoki_cdac_pds.StringMap.{get, set, get-set}
use toomoki_cdac_pds.Ledger.Exec.{◌>>=◌}
use toomoki_cdac_pds.Ledger.Rules

module _ (stub : Stub) (w : World) (payload : RolloverInput) (e : MonthlyEntitlement) where
  -- The quantity that is carried, as the only entitlement of the next month.
  abbrev pub carried_anew : MonthlyEntitlement
  carried_anew = carried_to payload e (carry_of e.available_balance_kg payload.rollover_pct) none

  -- A rollover by the department puts the carried quantity in the place of the entitlement that the
  -- world holds for the next month, whatever that one is: its quota and what was lifted of it are
  -- forgotten. One entitlement is selected and carries something, and the two months differ.
  pub rollover_unclaimed_quota_transaction-forgets :
      stub.msp_id ≡ department
      → query_state stub (of_month payload) w.entitlements ≡ e ∷ []
      → rolls_over payload e ≡ true
      → (carry_of e.available_balance_kg payload.rollover_pct == 0) ≡ false
      → (ltb_ℤ payload.rollover_pct (pos 0) || ltb_ℤ (pos 100) payload.rollover_pct) ≡ false
      → str_eq (key_of e) (to_key_of payload e) ≡ false
      → get
          (world_after (rollover_unclaimed_quota_transaction stub payload w) w).entitlements
          (entitlement_composite_key stub carried_anew)
        ≡ some carried_anew
  unfolding rollover_unclaimed_quota_transaction authorized transact build_engine
      Rules.rollover_unclaimed_quota record_event record_event_with draw_timestamp draw_identifier
      export_state get set query_state show ◌>>=◌
  rollover_unclaimed_quota_transaction-forgets msp sole selected carries in_range apart =
      rw (msp, sole, in_range, selected, carries, apart)
        (get-set _ (entitlement_composite_key stub carried_anew)
            (entitlement_composite_key stub carried_anew) carried_anew
          ∙ rw (eq_refl (entitlement_composite_key stub carried_anew)) refl)
