-- ===== src/Ledger/Exec/Ends.antt =====
-- What holds of the value that a block returns and of the state that it leaves.
use toomoki_cdac_pds.Prelude.{◌≡◌}
use toomoki_cdac_pds.Ledger.State.{PdsLedger}
use toomoki_cdac_pds.Ledger.Exec.{Result, ok, err, Exec, continue, ◌>>=◌}
use mathlib.Core.Path.{subst}

abbrev pub IfReturned : {A : Type 0} → (A → PdsLedger → Type 0) → Result A × PdsLedger → Type 0
IfReturned R (ok a, s) = R a s
IfReturned R (err e, s) = Unit

pub record Ends {A : Type 0} (R : A → PdsLedger → Type 0) (act : Exec A) : Type 0 where
  pub with : (s : PdsLedger) → IfReturned R (act s)

module _ {A B : Type 0} {R : B → PdsLedger → Type 0} where
  continue-Ends :
      (r : Result A) (next : A → Exec B) (s : PdsLedger)
      → ((a : A) → Ends R (next a))
      → IfReturned R (continue r next s)
  continue-Ends (ok a) next s last = (last a).with s
  continue-Ends (err e) next s last = tt

  -- The last action decides.
  pub Ends-bind :
      (act : Exec A) (next : A → Exec B) → ((a : A) → Ends R (next a)) → Ends R (act >>= next)
  unfolding ◌>>=◌
  Ends-bind act next last = record {
    with = λ s. let (r, mid) = act s in continue-Ends r next mid last;
  }

module _ {A : Type 0} (R : A → PdsLedger → Type 0) where
  pub returned : (r : Result A) (s : PdsLedger) (a : A) → r ≡ ok a → IfReturned R (r, s) → R a s
  returned r s a e h = subst (λ x. IfReturned R (x, s)) e h
