-- ===== src/Ledger/Exec/Gives.antt =====
-- What a block of tests has found out when it returns.
use toomoki_cdac_pds.Prelude.{Bool, true, false, ◌≡◌, refl, if◌then◌else◌}
use toomoki_cdac_pds.Ledger.State.{PdsLedger, Error}
use toomoki_cdac_pds.Ledger.Exec.{
  Result, ok, err, Exec, pure, throw, check, throw_if, continue, ◌>>=◌,
}
use toomoki_cdac_pds.Ledger.Exec.Keeps.{Keeps}

-- How a block of tests ended: with a value that satisfies `Q`, or with a throw, and in both cases
-- in a state that satisfies `P`.
abbrev pub Checked :
    {A : Type 0} → (A → Type 0) → (PdsLedger → Type 0) → Result A × PdsLedger → Type 0
Checked Q P (ok a, s) = Q a × P s
Checked Q P (err _, s) = P s

module _ {A B : Type 0} (Q : A → Type 0) (P G : PdsLedger → Type 0) where
  checked-continue :
      (r : Result A) (f : A → Exec B) (s : PdsLedger)
      → Checked Q P (r, s)
      → ((s : PdsLedger) → P s → G s)
      → ((a : A) (s : PdsLedger) → Q a → P s → G (f a s).1)
      → G (continue r f s).1
  checked-continue (ok a) f s h stop go = go a s h.0 h.1
  checked-continue (err e) f s h stop go = stop s h

  -- After a block of tests the method stops, or it goes on with what the tests found.
  pub Checked-then :
      (m : Exec A) (f : A → Exec B) (s : PdsLedger)
      → Checked Q P (m s)
      → ((s : PdsLedger) → P s → G s)
      → ((a : A) (s : PdsLedger) → Q a → P s → G (f a s).1)
      → G ((m >>= f) s).1
  unfolding ◌>>=◌
  Checked-then m f s h stop go = let (r, s') = m s in checked-continue r f s' h stop go

-- `m` keeps `P`, and what it returns satisfies `Q`.
pub record Gives {A : Type 0} (P : PdsLedger → Type 0) (Q : A → Type 0) (m : Exec A) : Type 0 where
  pub at : (s : PdsLedger) → P s → Checked Q P (m s)

module _ {A : Type 0} (P : PdsLedger → Type 0) where
  any-Checked : (r : Result A) (s : PdsLedger) → P s → Checked (λ _. Unit {0}) P (r, s)
  any-Checked (ok a) s h = (tt, h)
  any-Checked (err e) s h = h

module _ {P : PdsLedger → Type 0} where
  pub Gives-pure : {A : Type 0} (Q : A → Type 0) (x : A) → Q x → Gives P Q (pure x)
  unfolding pure
  Gives-pure Q x q = record { at = λ s h. (q, h) }

  pub Gives-throw_if : (b : Bool) (e : Error) → Gives P (λ _. b ≡ false) (throw_if b e)
  unfolding throw_if
  Gives-throw_if true e = record { at = λ s h. h }
  Gives-throw_if false e = record { at = λ s h. (refl, h) }

module _ {A : Type 0} {P : PdsLedger → Type 0} where
  -- Of an action that only keeps `P` nothing is known of what it returns.
  pub Gives-any : (m : Exec A) → Keeps P m → Gives P (λ _. Unit {0}) m
  Gives-any m k = record { at = λ s h. let (r, s') = m s in any-Checked P r s' (k.after s h) }

  pub Gives-check : (r : Result A) → Gives P (λ x. r ≡ ok x) (check r)
  unfolding check
  Gives-check (ok a) = record { at = λ s h. (refl, h) }
  Gives-check (err e) = record { at = λ s h. h }

module _ {A B : Type 0} {P : PdsLedger → Type 0} {R : A → Type 0} (Q : B → Type 0) where
  Gives-continue :
      (r : Result A) (f : A → Exec B)
      → ((a : A) → R a → Gives P Q (f a))
      → (s : PdsLedger) → Checked R P (r, s)
      → Checked Q P (continue r f s)
  Gives-continue (ok a) f kf s h = (kf a h.0).at s h.1
  Gives-continue (err e) f kf s h = h

  pub Gives-bind :
      (m : Exec A) (f : A → Exec B)
      → Gives P R m
      → ((a : A) → R a → Gives P Q (f a))
      → Gives P Q (m >>= f)
  unfolding ◌>>=◌
  Gives-bind m f km kf = record {
    at = λ s h. let (r, s') = m s in Gives-continue r f kf s' (km.at s h);
  }

module _ {A B : Type 0} {P : PdsLedger → Type 0} where
  -- The block goes on after an action of which nothing but `P` is used.
  pub Gives-skip :
      (Q : B → Type 0) (m : Exec A) (f : A → Exec B)
      → Keeps P m
      → ((a : A) → Gives P Q (f a))
      → Gives P Q (m >>= f)
  Gives-skip Q m f k next = Gives-bind Q m f (Gives-any m k) (λ a _. next a)

  Keeps-found :
      (Q : A → Type 0) (r : Result A) (f : A → Exec B)
      → ((a : A) → Q a → Keeps P (f a))
      → (s : PdsLedger) → Checked Q P (r, s)
      → P (continue r f s).1
  Keeps-found Q (ok a) f next s h = (next a h.0).after s h.1
  Keeps-found Q (err e) f next s h = h

  -- The rest of a block may use what the tests have found.
  pub Keeps-bind_found :
      (Q : A → Type 0) (m : Exec A) (f : A → Exec B)
      → Gives P Q m
      → ((a : A) → Q a → Keeps P (f a))
      → Keeps P (m >>= f)
  unfolding ◌>>=◌
  Keeps-bind_found Q m f found next = record {
    after = λ s h. let (r, s') = m s in Keeps-found Q r f next s' (found.at s h);
  }

module _ {A : Type 0} {P : PdsLedger → Type 0} (Q : A → Type 0) where
  -- A block that throws returns nothing that could be wrong.
  pub Gives-throw : (e : Error) → Gives P Q (throw e)
  unfolding throw
  Gives-throw e = record { at = λ s h. h }

  pub Gives-if :
      (b : Bool) (m n : Exec A)
      → (b ≡ true → Gives P Q m)
      → (b ≡ false → Gives P Q n)
      → Gives P Q (if b then m else n)
  Gives-if true m n left right = left refl
  Gives-if false m n left right = right refl

module _ {A : Type 0} (P R : PdsLedger → Type 0) (Q : A → Type 0) where
  both :
      (r : Result A) (s : PdsLedger) → Checked Q P (r, s) → R s → Checked Q (λ s. P s × R s) (r, s)
  both (ok a) s h k = (h.0, (h.1, k))
  both (err e) s h k = (h, k)

  -- What is found beside one predicate is found beside two.
  pub Gives-also : (m : Exec A) → Gives P Q m → Keeps R m → Gives (λ s. P s × R s) Q m
  Gives-also m g k = record {
    at = λ s h. let (r, s') = m s in both r s' (g.at s h.0) (k.after s h.1);
  }
