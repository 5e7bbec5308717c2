-- ===== src/Ledger/Exec/Runs.antt =====
-- Actions that never throw where a predicate holds, and keep it.
use toomoki_cdac_pds.Prelude.{Bool, true, false, if◌then◌else◌}
use toomoki_cdac_pds.Ledger.State.{PdsLedger}
use toomoki_cdac_pds.Ledger.Exec.{Result, ok, err, Exec, pure, gets, modify, continue, ◌>>=◌}

-- The action returned, and left a state that satisfies `P`.
abbrev pub Returned : {A : Type 0} → (PdsLedger → Type 0) → Result A × PdsLedger → Type 0
Returned P (ok _, s) = P s
Returned P (err _, s) = ⊥

-- `m` never throws where `P` holds, and keeps `P`.
pub record Runs {A : Type 0} (P : PdsLedger → Type 0) (m : Exec A) : Type 0 where
  pub at : (s : PdsLedger) → P s → Returned P (m s)

module _ {A : Type 0} {P : PdsLedger → Type 0} where
  pub Runs-pure : (a : A) → Runs P (pure a)
  unfolding pure
  Runs-pure a = record { at = λ s h. h }

  pub Runs-gets : (f : PdsLedger → A) → Runs P (gets f)
  unfolding gets
  Runs-gets f = record { at = λ s h. h }

  pub Runs-if : (b : Bool) (m n : Exec A) → Runs P m → Runs P n → Runs P (if b then m else n)
  Runs-if true m n km kn = km
  Runs-if false m n km kn = kn

pub Runs-modify :
    {P : PdsLedger → Type 0} (f : PdsLedger → PdsLedger)
    → ((s : PdsLedger) → P s → P (f s))
    → Runs P (modify f)
unfolding modify
Runs-modify f kf = record { at = kf }

module _ {A B : Type 0} {P : PdsLedger → Type 0} where
  Runs-continue :
      (r : Result A) (f : A → Exec B)
      → ((a : A) → Runs P (f a))
      → (s : PdsLedger) → Returned P (r, s)
      → Returned P (continue r f s)
  Runs-continue (ok a) f kf s h = (kf a).at s h
  Runs-continue (err e) f kf s h = absurd h

  pub Runs-bind :
      (m : Exec A) (f : A → Exec B) → Runs P m → ((a : A) → Runs P (f a)) → Runs P (m >>= f)
  unfolding ◌>>=◌
  Runs-bind m f km kf = record {
    at = λ s h. let (r, s') = m s in Runs-continue r f kf s' (km.at s h);
  }

pub ruleset runs_rules = (Runs-pure, Runs-gets, Runs-if, Runs-bind)

module _ {A B : Type 0} (P G : PdsLedger → Type 0) where
  run-continue :
      (r : Result A) (f : A → Exec B)
      → ((a : A) (s : PdsLedger) → P s → G (f a s).1)
      → (s : PdsLedger) → Returned P (r, s)
      → G (continue r f s).1
  run-continue (ok a) f go s h = go a s h
  run-continue (err e) f go s h = absurd h

  -- After an action that runs the block goes on.
  pub Runs-then :
      (m : Exec A) (f : A → Exec B)
      → Runs P m
      → ((a : A) (s : PdsLedger) → P s → G (f a s).1)
      → (s : PdsLedger) → P s
      → G ((m >>= f) s).1
  unfolding ◌>>=◌
  Runs-then m f km go s h = let (r, s') = m s in run-continue r f go s' (km.at s h)

  pub Returned-then :
      (m : Exec A) (f : A → Exec B) (s : PdsLedger)
      → Returned P (m s)
      → ((a : A) (s : PdsLedger) → P s → G (f a s).1)
      → G ((m >>= f) s).1
  unfolding ◌>>=◌
  Returned-then m f s h go = let (r, s') = m s in run-continue r f go s' h

module _ {B : Type 0} (G : PdsLedger → Type 0) where
  pub modify-then :
      (w : PdsLedger → PdsLedger) (f : Unit {0} → Exec B) (s : PdsLedger)
      → G (f tt (w s)).1
      → G ((modify w >>= f) s).1
  unfolding ◌>>=◌
  modify-then w f s go = go
