-- ===== src/Ledger/Exec/Refuses.antt =====
-- Methods that leave the state as it was, up to a predicate, when they throw.
use toomoki_cdac_pds.Ledger.State.{PdsLedger}
use toomoki_cdac_pds.Ledger.Exec.{Result, ok, err, Exec, continue, ◌>>=◌}
use toomoki_cdac_pds.Ledger.Exec.Keeps.{Keeps}
use toomoki_cdac_pds.Ledger.Exec.Gives.{Gives, Checked}
use toomoki_cdac_pds.Ledger.Exec.Runs.{Runs, Returned}

-- `P` of the state, if the method threw.
abbrev pub IfThrown : {A : Type 0} → (PdsLedger → Type 0) → Result A × PdsLedger → Type 0
IfThrown P (ok _, s) = Unit
IfThrown P (err _, s) = P s

-- A throw of `m` from a state with `P` leaves a state with `P`.
pub record Refuses {A : Type 0} (P : PdsLedger → Type 0) (m : Exec A) : Type 0 where
  pub within : (s : PdsLedger) → P s → IfThrown P (m s)

abbrev pub Always : PdsLedger → Type 0
Always s = Unit

module _ {A : Type 0} (P : PdsLedger → Type 0) where
  never_thrown : (r : Result A) (s : PdsLedger) → Returned Always (r, s) → IfThrown P (r, s)
  never_thrown (ok a) s h = tt
  never_thrown (err e) s h = absurd h

  pub Runs-IfThrown : (m : Exec A) → Runs Always m → (s : PdsLedger) → IfThrown P (m s)
  Runs-IfThrown m run s = let (r, s') = m s in never_thrown r s' (run.at s tt)

  -- What never throws has nothing to undo.
  pub Refuses-Runs : (m : Exec A) → Runs Always m → Refuses P m
  Refuses-Runs m run = record {
    within = λ s h. let (r, s') = m s in never_thrown r s' (run.at s tt);
  }

module _ {A B : Type 0} (P : PdsLedger → Type 0) where
  refuse_continue :
      (r : Result A) (f : A → Exec B)
      → ((a : A) → Refuses P (f a))
      → (s : PdsLedger) → P s
      → IfThrown P (continue r f s)
  refuse_continue (ok a) f next s h = (next a).within s h
  refuse_continue (err e) f next s h = h

  -- Tests that keep `P`, and then writes that refuse.
  pub Refuses-bind :
      (m : Exec A) (f : A → Exec B) → Keeps P m → ((a : A) → Refuses P (f a)) → Refuses P (m >>= f)
  unfolding ◌>>=◌
  Refuses-bind m f k next = record {
    within = λ s h. let (r, s') = m s in refuse_continue r f next s' (k.after s h);
  }

module _ {A B : Type 0} (Q : A → Type 0) (P : PdsLedger → Type 0) where
  found_continue :
      (r : Result A) (f : A → Exec B)
      → ((a : A) (s : PdsLedger) → Q a → P s → IfThrown P (f a s))
      → (s : PdsLedger) → Checked Q P (r, s)
      → IfThrown P (continue r f s)
  found_continue (ok a) f next s h = next a s h.0 h.1
  found_continue (err e) f next s h = h

  -- Tests, and then writes that use what the tests have found.
  pub Refuses-found :
      (m : Exec A) (f : A → Exec B)
      → Gives P Q m
      → ((a : A) (s : PdsLedger) → Q a → P s → IfThrown P (f a s))
      → Refuses P (m >>= f)
  unfolding ◌>>=◌
  Refuses-found m f g next = record {
    within = λ s h. let (r, s') = m s in found_continue r f next s' (g.at s h);
  }
