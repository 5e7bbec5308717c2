-- ===== src/Contract/Refinement.antt =====
-- A transaction loads a few records, runs the engine on them and writes back. Where the call reads
-- no more than was loaded, the engine on the whole ledger would have given the same.
pub mod Grievances
pub mod CardWorld
pub mod CardWrites
pub mod Cards
use toomoki_cdac_pds.Ledger.Locality.{Agree, IsLocal, Keys}
use toomoki_cdac_pds.SharedTypes.Events.{LedgerEvent}
use toomoki_cdac_pds.Ledger.Exec.{err, Exec, ok, Result}
use toomoki_cdac_pds.Ledger.State.{PdsLedger}
use toomoki_cdac_pds.Contract.Collections.{
  build_engine, settle, save_ids, Submitted, transact, read_each,
}
use toomoki_cdac_pds.Contract.Stub.{Refusal, Outcome, World, Stub}
use toomoki_cdac_pds.Ledger.Persist.{export_state, PdsLedgerState, map_of}
use toomoki_cdac_pds.Prelude.{
  eq_iff, inr, inl, ◌++◌, Option-cases, String, List, Option, some, none, [], ◌∷◌, ◌≡◌, refl, sym,
  ap, ◌∙◌,
}
use toomoki_cdac_pds.StringMap.{set, StringMap, get}
use toomoki_cdac_pds.StringMap.Keys.{IfFound}
use mathlib.Core.Path.{subst}

module _ {V : Type 0} where
  -- One record that was read by its key stands under its own id in the map of the engine.
  pub get-loaded :
      (id : V → String) (m : StringMap V) (key k : String)
      → IfFound (λ x. id x ≡ k) (get m key)
      → get (map_of id (read_each m (key ∷ []))) k ≡ get m key
  unfolding map_of read_each get set
  get-loaded id m key k own = elim (Option-cases (get m key)) [
    | inl absent ↦ rw (absent, read_each) refl
    | inr (x, e) ↦
        rw (e, read_each) (rw ((eq_iff (id x) k).1 (subst (IfFound (λ y. id y ≡ k)) e own)) refl)
  ]

-- How a transaction ends, against a call of the engine on the whole ledger: with the same result
-- and a world in the relation to the ledger that the call leaves, or with the engine's error.
abbrev pub Matches :
    {A : Type 0}
    → Stub
    → (A → PdsLedger → World → Type 0)
    → Result A × PdsLedger
    → Outcome (Submitted A)
    → Type 0
Matches stub R (ok a, s) (Outcome.committed (b, id) w) = (b ≡ a) × (id ≡ stub.tx_id) × R a s w
Matches stub R (err e, s) (Outcome.refused r) = r ≡ Refusal.engine_error e
Matches stub R (ok a, s) (Outcome.refused r) = ⊥
Matches stub R (err e, s) (Outcome.committed x w) = ⊥

-- The events that the call logged are the ones that the transaction adds to its collection.
abbrev pub SameEvents : Stub → PdsLedger → World → PdsLedger → World → Type 0
SameEvents stub s w s' w' =
    (news : List LedgerEvent) × (s'.events ≡ s.events ++ news)
    × (w'.events ≡ save_ids stub (λ x. x.ledger_tx_id) news w.events)

module _ {A : Type 0} (stub : Stub) (R : A → PdsLedger → World → Type 0) where
  settled :
      (r : Result A) (s : PdsLedger) (state : PdsLedgerState)
      (save : A → PdsLedgerState → World → World) (w : World)
      → ((a : A) → r ≡ ok a → R a s (save a state w))
      → Matches stub R (r, s) (settle stub r state save w)
  settled (ok a) s state save w written = (refl, refl, written a refl)
  settled (err e) s state save w written = refl

  pub transact-Matches :
      {keys : Keys} (partial : PdsLedgerState) (act : Exec A)
      (save : A → PdsLedgerState → World → World) (w : World) (s : PdsLedger)
      → IsLocal keys (s.events, []) act
      → Agree keys (s.events, []) s (build_engine stub partial)
      → ((a : A) (p : PdsLedger)
          → (act s).0 ≡ ok a
          → Agree keys (s.events, []) (act s).1 p
          → R a (act s).1 (save a (export_state p) w))
      → Matches stub R (act s) (transact stub partial act save w)
  unfolding transact
  transact-Matches partial act save w s local agree written =
      let (same, after) = local.at s (build_engine stub partial) agree in
      subst
        (λ r.
          Matches stub R (act s)
            (settle stub r (export_state (act (build_engine stub partial)).1) save w))
        same
        (settled (act s).0 (act s).1 (export_state (act (build_engine stub partial)).1) save w
          (λ a e. written a (act (build_engine stub partial)).1 e after))

pub Agree-SameEvents :
    (stub : Stub) (keys : Keys) (s s' p : PdsLedger) (w : World)
    → Agree keys (s.events, []) s' p
    → (news : List LedgerEvent) × (s'.events ≡ s.events ++ news)
      × (save_ids stub (λ x. x.ledger_tx_id) p.events w.events
          ≡ save_ids stub (λ x. x.ledger_tx_id) news w.events)
unfolding Agree
Agree-SameEvents stub keys s s' p w agree =
    let log = agree.0.3 in
    (log.news, log.left, ap (λ l. save_ids stub (λ x. x.ledger_tx_id) l w.events) log.right)
