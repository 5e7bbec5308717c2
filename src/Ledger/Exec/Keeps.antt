-- ===== src/Ledger/Exec/Keeps.antt =====
-- Predicates of the state that an action keeps, one rule for each way to build an action.
use toomoki_cdac_pds.Prelude.{Bool, true, false, Option, none, some, if◌then◌else◌}
use toomoki_cdac_pds.Ledger.State.{PdsLedger, Error}
use toomoki_cdac_pds.Ledger.Exec.{
  Result, ok, err, Exec, pure, throw, gets, or_throw, check, throw_if, modify, continue, ◌>>=◌,
}

-- However `act` ends, by a value or by a throw, `P` holds afterwards if it held before.
pub record Keeps {A : Type 0} (P : PdsLedger → Type 0) (act : Exec A) : Type 0 where
  pub after : (start : PdsLedger) → P start → P (act start).1

module _ {P : PdsLedger → Type 0} where
  pub Keeps-modify :
      (w : PdsLedger → PdsLedger)
      → ((start : PdsLedger) → P start → P (w start))
      → Keeps P (modify w)
  unfolding modify
  Keeps-modify w kept = record { after = kept }

  pub Keeps-throw_if : (test : Bool) (e : Error) → Keeps P (throw_if test e)
  unfolding throw_if
  Keeps-throw_if test e = record { after = λ _ held. held }

module _ {P : PdsLedger → Type 0} {A : Type 0} where
  pub Keeps-check : (outcome : Result A) → Keeps P (check outcome)
  unfolding check
  Keeps-check outcome = record { after = λ _ held. held }

  pub Keeps-or_throw : (o : Option A) (e : Error) → Keeps P (or_throw o e)
  unfolding or_throw
  Keeps-or_throw none e = record { after = λ _ held. held }
  Keeps-or_throw (some x) e = record { after = λ _ held. held }

  pub Keeps-gets : (read : PdsLedger → A) → Keeps P (gets read)
  unfolding gets
  Keeps-gets read = record { after = λ _ held. held }

  pub Keeps-throw : (e : Error) → Keeps P (throw {A = A} e)
  unfolding throw
  Keeps-throw e = record { after = λ _ held. held }

  pub Keeps-pure : (x : A) → Keeps P (pure x)
  unfolding pure
  Keeps-pure x = record { after = λ _ held. held }

  pub Keeps-if :
      (test : Bool) (this that : Exec A)
      → Keeps P this
      → Keeps P that
      → Keeps P (if test then this else that)
  Keeps-if true this that left right = left
  Keeps-if false this that left right = right

module _ {P : PdsLedger → Type 0} {A B : Type 0} where
  Keeps-continue :
      (next : A → Exec B)
      → ((x : A) → Keeps P (next x))
      → (outcome : Result A) (mid : PdsLedger) → P mid
      → P (continue outcome next mid).1
  Keeps-continue next kept (ok x) mid held = (kept x).after mid held
  Keeps-continue next kept (err e) mid held = held

  pub Keeps-bind :
      (act : Exec A) (next : A → Exec B)
      → Keeps P act
      → ((x : A) → Keeps P (next x))
      → Keeps P (act >>= next)
  unfolding ◌>>=◌
  Keeps-bind act next first kept = record {
    after = λ start held.
        let (outcome, mid) = act start in
        Keeps-continue next kept outcome mid (first.after start held);
  }

pub ruleset keeps_rules = (
  Keeps-throw_if, Keeps-check, Keeps-or_throw, Keeps-if, Keeps-bind, Keeps-gets, Keeps-pure,
  Keeps-throw,
)

module _ {A B : Type 0} (P G : PdsLedger → Type 0) where
  then-continue :
      (r : Result A) (f : A → Exec B)
      → ((s : PdsLedger) → P s → G s)
      → ((a : A) (s : PdsLedger) → P s → G (f a s).1)
      → (s : PdsLedger) → P s
      → G (continue r f s).1
  then-continue (ok a) f stop go s h = go a s h
  then-continue (err e) f stop go s h = stop s h

  -- After an action that keeps `P` the block stops by a throw, or it goes on.
  pub Keeps-then :
      (m : Exec A) (f : A → Exec B)
      → Keeps P m
      → ((s : PdsLedger) → P s → G s)
      → ((a : A) (s : PdsLedger) → P s → G (f a s).1)
      → (s : PdsLedger) → P s
      → G ((m >>= f) s).1
  unfolding ◌>>=◌
  Keeps-then m f km stop go s h = let (r, s') = m s in then-continue r f stop go s' (km.after s h)

module _ {B : Type 0} {P : PdsLedger → Type 0} where
  -- A state that is read and written back changed.
  pub Keeps-rewrite :
      (change : PdsLedger → PdsLedger) (next : PdsLedger → Unit {0} → Exec B)
      → ((s : PdsLedger) → P s → P (change s))
      → ((s : PdsLedger) (x : Unit {0}) → Keeps P (next s x))
      → Keeps P (gets (λ s. s) >>= λ before. modify (λ _. change before) >>= next before)
  unfolding ◌>>=◌
  Keeps-rewrite change next kept rest = record {
    after = λ s held. (rest s tt).after (change s) (kept s held);
  }

module _ {A B : Type 0} (G : PdsLedger → Type 0) where
  kept_continue :
      (outcome : Result A) (next : A → Exec B) (s : PdsLedger)
      → G s
      → ((x : A) → Keeps G (next x))
      → G (continue outcome next s).1
  kept_continue (ok x) next s h kept = (kept x).after s h
  kept_continue (err e) next s h kept = h

  -- What holds after an action holds after the block, where the rest keeps it.
  pub after-bind :
      (act : Exec A) (next : A → Exec B) (s : PdsLedger)
      → G (act s).1
      → ((x : A) → Keeps G (next x))
      → G ((act >>= next) s).1
  unfolding ◌>>=◌
  after-bind act next s h kept = let (outcome, mid) = act s in kept_continue outcome next mid h kept
