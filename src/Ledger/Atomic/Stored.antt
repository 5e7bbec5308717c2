-- ===== src/Ledger/Atomic/Stored.antt =====
-- The lot that the tests of a dispatch choose is one that the ledger holds.
use mathlib.Core.Path.{subst}
use toomoki_cdac_pds.Prelude.{eq_iff}
use toomoki_cdac_pds.Ledger.State.{Error}
use toomoki_cdac_pds.Ledger.Atomic.{SameBusiness, SameBusiness-quiet}
use toomoki_cdac_pds.Ledger.Exec.{gets, or_throw, ◌>>=◌}
use toomoki_cdac_pds.Ledger.Exec.Keeps.{Keeps-gets, Keeps-throw_if}
use toomoki_cdac_pds.Ledger.Exec.Gives.{
  Gives, Checked, Gives-if, Gives-pure, Gives-skip, Gives-bind,
}
use toomoki_cdac_pds.Ledger.Quiet.Checks.{
  assert_active_stakeholder-Keeps, resolve_active_transporter-Keeps, check_stage_ii-Keeps,
}
use toomoki_cdac_pds.Ledger.Checks.{must_get_lot}
use toomoki_cdac_pds.Ledger.Dispatch.{DispatchInput, owned_slice, choose_lot, check_dispatch}
use toomoki_cdac_pds.SharedTypes.Events.{Approval}
use toomoki_cdac_pds.Prelude.{
  String, List, Option, Bool, ◌≡◌, refl, none, some, [], ◌∷◌, true, inl, inr, Bool-cases,
  Option-cases, arith, str_eq, filter, sort_by, insert_by, first,
}
use toomoki_cdac_pds.StringMap.{StringMap, get, has, values}
use toomoki_cdac_pds.StringMap.Keys.{KeyedBy, IfFound, get-own}
use toomoki_cdac_pds.Ledger.State.{PdsLedger}
use toomoki_cdac_pds.SharedTypes.{CommodityLot, Stakeholder}

module _ {A : Type 0} (P : A → Type 0) where
  abbrev All : List A → Type 0
  All [] = Unit
  All (x ∷ xs) = P x × All xs

  All-filter : (p : A → Bool) (xs : List A) → All xs → All (filter p xs)
  All-filter p [] h = tt
  All-filter p (x ∷ xs) h = elim (Bool-cases (p x)) [
    | inl kept ↦ rw kept (h.0, All-filter p xs h.1)
    | inr dropped ↦ rw dropped (All-filter p xs h.1)
  ]

  All-insert_by : (le : A → A → Bool) (x : A) (xs : List A) → P x → All xs → All (insert_by le x xs)
  All-insert_by le x [] px h = (px, tt)
  All-insert_by le x (y ∷ ys) px h = elim (Bool-cases (le x y)) [
    | inl before ↦ rw before (px, h)
    | inr after ↦ rw after (h.0, All-insert_by le x ys px h.1)
  ]

  All-sort_by : (le : A → A → Bool) (xs : List A) → All xs → All (sort_by le xs)
  All-sort_by le [] h = tt
  All-sort_by le (x ∷ xs) h = All-insert_by le x (sort_by le xs) h.0 (All-sort_by le xs h.1)

  All-first : (xs : List A) → All xs → IfFound P (first xs)
  All-first [] h = tt
  All-first (x ∷ xs) h = h.0

All-mono :
    {A : Type 0} {Q : A → Type 0} (P : A → Type 0) (xs : List A)
    → ((x : A) → Q x → P x)
    → All Q xs
    → All P xs
All-mono P [] f h = tt
All-mono P (x ∷ xs) f h = (f x h.0, All-mono P xs f h.1)

abbrev pub Stored : StringMap CommodityLot → CommodityLot → Type 0
Stored m lot = has m lot.lot_id ≡ true

has-cons :
    (j k : String) (w : CommodityLot) (m : StringMap CommodityLot)
    → has m k ≡ true
    → has ((j, w) ∷ m) k ≡ true
unfolding get
has-cons j k w m h = ground (arith, h)

has-head :
    (j k : String) (w : CommodityLot) (m : StringMap CommodityLot)
    → k ≡ j
    → has ((j, w) ∷ m) k ≡ true
unfolding get
has-head j k w m e = ground (arith, eq_iff j k)

-- The lots of a keyed map are found under their own ids.
values-Stored : (m : StringMap CommodityLot) → KeyedBy (λ x. x.lot_id) m → All (Stored m) (values m)
values-Stored [] h = tt
values-Stored ((j, w) ∷ m) h = (
  has-head j w.lot_id w m h.0,
  All-mono (Stored ((j, w) ∷ m)) (values m) (λ x stored. has-cons j x.lot_id w m stored)
      (values-Stored m h.1),
)

get-Stored :
    (m : StringMap CommodityLot) (id : String) (lot : CommodityLot)
    → KeyedBy (λ x. x.lot_id) m
    → get m id ≡ some lot
    → Stored m lot
get-Stored m id lot keyed e = rw (get-own (λ x. x.lot_id) m id keyed e) refl

module _ (a : PdsLedger) (keyed : KeyedBy (λ x. x.lot_id) a.lots) where
  must_get_lot-Stored : (id : String) → Gives (SameBusiness a) (Stored a.lots) (must_get_lot id)
  unfolding must_get_lot ◌>>=◌
  must_get_lot-Stored id = record {
    at = λ s h. elim (Option-cases (get s.lots id)) [
      | inl absent ↦ rw absent h
      | inr (lot, e) ↦
          rw e (get-Stored a.lots id lot keyed (subst (λ m. get m id ≡ some lot) h.lots e), h)
    ];
  }

  owned_slice-Stored :
      (input : DispatchInput) (lot : CommodityLot) (s : PdsLedger)
      → s.lots ≡ a.lots
      → IfFound (Stored a.lots) (owned_slice input lot s)
  unfolding owned_slice
  owned_slice-Stored input lot s same = rw same (
      All-first (Stored a.lots) _ (
        All-sort_by (Stored a.lots) _ _
          (All-filter (Stored a.lots) _ _ (values-Stored a.lots keyed))))

  slice-Stored :
      (o : Option CommodityLot) (e : Error) (s : PdsLedger)
      → IfFound (Stored a.lots) o
      → SameBusiness a s
      → Checked (Stored a.lots) (SameBusiness a) (or_throw o e s)
  unfolding ◌>>=◌
  slice-Stored none e s h same = same
  slice-Stored (some lot) e s h same = (h, same)

  choose_slice-Stored :
      (input : DispatchInput) (lot : CommodityLot) (e : Error)
      → Gives
          (SameBusiness a)
          (Stored a.lots)
          (gets (owned_slice input lot) >>= λ slice. or_throw slice e)
  unfolding ◌>>=◌
  choose_slice-Stored input lot e = record {
    at =
        λ s h. slice-Stored (owned_slice input lot s) e s (owned_slice-Stored input lot s h.lots) h;
  }

  choose_lot-Stored :
      (input : DispatchInput) (lot : CommodityLot)
      → Stored a.lots lot
      → Gives (SameBusiness a) (Stored a.lots) (choose_lot input lot)
  unfolding choose_lot
  choose_lot-Stored input lot stored =
      Gives-if (Stored a.lots) (str_eq lot.current_owner input.from_org) _ _
        (λ _. Gives-pure (Stored a.lots) lot stored) (λ _. choose_slice-Stored input lot _)

  pub check_dispatch-Stored :
      (input : DispatchInput)
      → Gives (SameBusiness a) (λ found. Stored a.lots found.0) (check_dispatch input)
  unfolding check_dispatch
  check_dispatch-Stored input =
      let Q : CommodityLot × Stakeholder × Option Approval → Type 0 =
        λ found. Stored a.lots found.0 in
      let quiet = SameBusiness-quiet a in
      Gives-skip Q _ _ (Keeps-gets _) (λ _. Gives-skip Q _ _ (Keeps-throw_if _ _) (λ _.
        Gives-bind Q _ _ (must_get_lot-Stored input.lot_id) (λ named stored.
          Gives-skip Q _ _ (assert_active_stakeholder-Keeps quiet _) (λ _.
            Gives-skip Q _ _ (assert_active_stakeholder-Keeps quiet _) (λ _.
              Gives-skip Q _ _ (resolve_active_transporter-Keeps quiet _) (λ tr.
                Gives-skip Q _ _ (Keeps-throw_if _ _) (λ _.
                  Gives-bind Q _ _ (choose_lot-Stored input named stored) (λ lot found.
                    Gives-skip Q _ _ (Keeps-throw_if _ _) (λ _.
                      Gives-skip Q _ _ (Keeps-throw_if _ _) (λ _.
                        Gives-skip Q _ _ (Keeps-throw_if _ _) (λ _.
                          Gives-skip Q _ _ (Keeps-throw_if _ _) (λ _.
                            Gives-skip Q _ _ (Keeps-gets _) (λ prior.
                              Gives-skip Q _ _ (check_stage_ii-Keeps quiet input lot prior) (λ _.
                                Gives-skip Q _ _ (Keeps-gets _) (λ _.
                                  Gives-skip Q _ _ (Keeps-throw_if _ _)
                                    (λ _. Gives-pure Q (lot, tr, prior) found))))))))))))))))
