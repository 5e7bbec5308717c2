-- ===== src/Ledger/Exec.antt =====
-- A method call: the engine's state, and a result or the error that was thrown. What was written
-- before a throw stays written, so the state comes back beside the error too.
pub mod Keeps
pub mod Runs
pub mod Gives
pub mod Refuses
pub mod Ends
use toomoki_cdac_pds.Prelude.{Bool, Option, none, some, if◌then◌else◌}
use toomoki_cdac_pds.Ledger.State.{PdsLedger, Error}

pub data Result (A : Type 0) : Type 0 where
  ok : A → Result A
  err : Error → Result A

abbrev pub Exec : Type 0 → Type 0
Exec A = PdsLedger → Result A × PdsLedger

module _ {A : Type 0} where
  pub pure : A → Exec A
  pure a s = (ok a, s)

  -- `throw`
  pub throw : Error → Exec A
  throw e s = (err e, s)

  -- A read of the state.
  pub gets : (PdsLedger → A) → Exec A
  gets f s = (ok (f s), s)

  -- The value that is there, or the error of a `mustGet…`.
  pub or_throw : Option A → Error → Exec A
  or_throw none e s = (err e, s)
  or_throw (some a) e s = (ok a, s)

  -- A check that does not touch the state.
  pub check : Result A → Exec A
  check r s = (r, s)

-- `if (test) throw …`
pub throw_if : Bool → Error → Exec (Unit {0})
throw_if test e s = (if test then err e else ok tt, s)

-- A write to the state.
pub modify : (PdsLedger → PdsLedger) → Exec (Unit {0})
modify f s = (ok tt, f s)

module _ {A B : Type 0} where
  abbrev pub continue : Result A → (A → Exec B) → Exec B
  continue (ok a) f s = f a s
  continue (err e) f s = (err e, s)

  infixl 5 ◌>>=◌ ◌>>◌
  -- Opening this opens the actions above too.
  unfoldable pub ◌>>=◌ : Exec A → (A → Exec B) → Exec B
  unfolding pure throw gets or_throw check throw_if modify
  ◌>>=◌ m f s = let (r, s') = m s in continue r f s'

  abbrev pub ◌>>◌ : Exec A → Exec B → Exec B
  m >> k = m >>= λ _. k
