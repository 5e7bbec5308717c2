-- ===== src/Ledger/Locality.antt =====
-- What a call of the engine reads: its result and what it writes depend on the records under a few
-- keys, on the callbacks and on nothing else. Two ledgers that agree there stay so, and give the
-- same result.

pub mod Writes
pub mod Reads
pub mod Operations
use mathlib.Core.Path.{ap, subst}
use toomoki_cdac_pds.Ledger.Exec.{
  err, ok, continue, Result, ◌>>=◌, modify, throw_if, gets, or_throw, check, throw, pure, Exec,
}
use toomoki_cdac_pds.Ledger.State.{Error, PdsLedger}
use toomoki_cdac_pds.SharedTypes.Events.{LedgerEvent}
use toomoki_cdac_pds.Prelude.{
  inr, inl, ◌++◌, ◌⊎◌, String, ℕ, List, Option, none, some, [], ◌∷◌, ◌≡◌, refl, Bool, true, false,
  if◌then◌else◌,
}
use toomoki_cdac_pds.StringMap.{StringMap, get, set, get-set}

-- The keys that a call may read, for each map.
pub record Keys : Type 0 where
  pub stakeholders : List String
  pub lots : List String
  pub transfers : List String
  pub allocations : List String
  pub auth_transactions : List String
  pub distributions : List String
  pub alerts : List String
  pub stock : List String
  pub ration_cards : List String
  pub grievances : List String
  pub entitlement_rules : List String

abbrev pub no_keys : Keys
no_keys = record {
  stakeholders = [];
  lots = [];
  transfers = [];
  allocations = [];
  auth_transactions = [];
  distributions = [];
  alerts = [];
  stock = [];
  ration_cards = [];
  grievances = [];
  entitlement_rules = [];
}

abbrev pub Among : String → List String → Type 0
Among k [] = ⊥
Among k (j ∷ js) = (k ≡ j) ⊎ Among k js

-- The two maps have the same under each of the keys.
pub record Same {V : Type 0} (keys : List String) (m n : StringMap V) : Type 0 where
  pub found : (k : String) → Among k keys → get m k ≡ get n k

-- Both logs got the same events since they were `before.0` and `before.1`.
pub record SameLog (before : List LedgerEvent × List LedgerEvent) (xs ys : List LedgerEvent)
    : Type 0 where
  pub news : List LedgerEvent
  pub left : xs ≡ before.0 ++ news
  pub right : ys ≡ before.1 ++ news

-- Ledgers that agree: on the callbacks and the log, on the goods, on claims and flags, on the
-- registers.
unfoldable pub Agree : Keys → List LedgerEvent × List LedgerEvent → PdsLedger → PdsLedger → Type 0
Agree keys before s p =
    ((s.runtime ≡ p.runtime)
      × (s.timestamps_drawn ≡ p.timestamps_drawn)
      × (s.identifiers_drawn ≡ p.identifiers_drawn)
      × SameLog before s.events p.events)
    × (Same keys.lots s.lots p.lots
        × Same keys.transfers s.transfers p.transfers
        × Same keys.allocations s.allocations p.allocations
        × Same keys.stock s.stock p.stock)
    × (Same keys.auth_transactions s.auth_transactions p.auth_transactions
        × Same keys.distributions s.distributions p.distributions
        × Same keys.alerts s.alerts p.alerts)
    × (Same keys.stakeholders s.stakeholders p.stakeholders
        × Same keys.ration_cards s.ration_cards p.ration_cards
        × Same keys.grievances s.grievances p.grievances
        × Same keys.entitlement_rules s.entitlement_rules p.entitlement_rules)

module _ {V : Type 0} where
  pub Same-set :
      (keys : List String) (m n : StringMap V) (j : String) (v : V)
      → Same keys m n
      → Same keys (set m j v) (set n j v)
  Same-set keys m n j v h = record {
    found = λ k among. rw (get-set m j k v, get-set n j k v, h.found k among) refl;
  }

  pub Same-none : (m n : StringMap V) → Same [] m n
  Same-none m n = record { found = λ k among. absurd among }

  pub Same-one : (j : String) (m n : StringMap V) → get m j ≡ get n j → Same (j ∷ []) m n
  Same-one j m n e = record {
    found = λ k among. elim among [ inl same ↦ rw same e | inr none_left ↦ absurd none_left ];
  }

module _ (keys : Keys) (before : List LedgerEvent × List LedgerEvent) where
  -- The call cannot tell ledgers that agree apart, and they agree afterwards.
  pub record IsLocal {A : Type 0} (act : Exec A) : Type 0 where
    pub at :
        (s p : PdsLedger)
        → Agree keys before s p
        → ((act s).0 ≡ (act p).0) × Agree keys before (act s).1 (act p).1

module _ {keys : Keys} {before : List LedgerEvent × List LedgerEvent} {A : Type 0} where
  pub Local-pure : (x : A) → IsLocal keys before (pure x)
  unfolding ◌>>=◌
  Local-pure x = record { at = λ s p h. (refl, h) }

  pub Local-throw : (e : Error) → IsLocal keys before (throw {A = A} e)
  unfolding ◌>>=◌
  Local-throw e = record { at = λ s p h. (refl, h) }

  pub Local-check : (r : Result A) → IsLocal keys before (check r)
  unfolding ◌>>=◌
  Local-check r = record { at = λ s p h. (refl, h) }

  pub Local-or_throw : (o : Option A) (e : Error) → IsLocal keys before (or_throw o e)
  unfolding ◌>>=◌
  Local-or_throw none e = record { at = λ s p h. (refl, h) }
  Local-or_throw (some x) e = record { at = λ s p h. (refl, h) }

  pub Local-gets :
      (read : PdsLedger → A)
      → ((s p : PdsLedger) → Agree keys before s p → read s ≡ read p)
      → IsLocal keys before (gets read)
  unfolding ◌>>=◌
  Local-gets read same = record { at = λ s p h. (ap ok (same s p h), h) }

  pub Local-if :
      (test : Bool) (this that : Exec A)
      → IsLocal keys before this
      → IsLocal keys before that
      → IsLocal keys before (if test then this else that)
  Local-if true this that left right = left
  Local-if false this that left right = right

module _ {keys : Keys} {before : List LedgerEvent × List LedgerEvent} where
  pub Local-throw_if : (test : Bool) (e : Error) → IsLocal keys before (throw_if test e)
  unfolding ◌>>=◌
  Local-throw_if test e = record { at = λ s p h. (refl, h) }

  pub Local-modify :
      (w : PdsLedger → PdsLedger)
      → ((s p : PdsLedger) → Agree keys before s p → Agree keys before (w s) (w p))
      → IsLocal keys before (modify w)
  unfolding ◌>>=◌
  Local-modify w kept = record { at = λ s p h. (refl, kept s p h) }

module _ {keys : Keys} {before : List LedgerEvent × List LedgerEvent} {A B : Type 0} where
  continue-Local :
      (next : A → Exec B)
      → ((x : A) → IsLocal keys before (next x))
      → (outcome : Result A) (s p : PdsLedger) → Agree keys before s p
      → ((continue outcome next s).0 ≡ (continue outcome next p).0)
        × Agree keys before (continue outcome next s).1 (continue outcome next p).1
  continue-Local next kept (ok x) s p h = (kept x).at s p h
  continue-Local next kept (err e) s p h = (refl, h)

  pub Local-bind :
      (act : Exec A) (next : A → Exec B)
      → IsLocal keys before act
      → ((x : A) → IsLocal keys before (next x))
      → IsLocal keys before (act >>= next)
  unfolding ◌>>=◌
  Local-bind act next first kept = record {
    at = λ s p h.
        let (same, after) = first.at s p h in
        subst
          (λ r.
            ((continue (act s).0 next (act s).1).0 ≡ (continue r next (act p).1).0)
            × Agree keys before (continue (act s).0 next (act s).1).1 (continue r next (act p).1).1)
          same (continue-Local next kept (act s).0 (act s).1 (act p).1 after);
  }

pub ruleset local_rules =
    (Local-pure, Local-throw, Local-check, Local-or_throw, Local-if, Local-throw_if, Local-bind)
