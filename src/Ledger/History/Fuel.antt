-- ===== src/Ledger/History/Fuel.antt =====
-- How much fuel the visits of a lot take, and what they come to.
use toomoki_cdac_pds.Ledger.History.Visits.{
  Between-lot, unvisited-mark, unvisited-length, Between-both, unvisited-fewer, Between-nothing,
  Visited, unvisited, Between,
}
use toomoki_cdac_pds.Ledger.History.{
  ids_of, made_from_it, made_from, values, StringMap, is_visited, children_of, lot_ids,
  CommodityLot, collect, parents_of, visit_each, Visit,
}
use toomoki_cdac_pds.Ledger.State.{PdsLedger}
use toomoki_cdac_pds.SharedTypes.Events.{LedgerEvent}
use toomoki_cdac_pds.Prelude.{
  eq_refl, String, ◌≡◌, refl, sym, ◌⊎◌, inl, inr, ℕ, zero, suc, ◌<◌, List, [], ◌∷◌, Option, none,
  some, Bool-cases, Option-cases, str_eq, arith, length, map,
}
use mathlib.Core.Path.{subst}
use mathlib.Core.List.{Memᴰ}
use mathlib.Core.List.Memᴰ
use toomoki_cdac_pds.StringMap.{get, values, StringMap}
use toomoki_cdac_pds.Prelude.{filter}

-- What a visit came to: it did not run out of fuel, and `P` holds.
abbrev pub Came :
    (List LedgerEvent → List String → Type 0) → Option (List LedgerEvent × List String) → Type 0
Came P none = ⊥
Came P (some (found, visited)) = P found visited

module _ (s : PdsLedger) (ids : List String) where
  -- What a visit of an id gives.
  abbrev VisitOf : (String → Visit) → String → List String → Type 0
  VisitOf visit id visited =
      Came (λ found after. Between s visited found after × Visited id after) (visit id visited)

  -- A visit that is right wherever at most so many ids are left.
  abbrev IsGood : (String → Visit) → ℕ → Type 0
  IsGood visit fuel =
      (id : String) (visited : List String)
      → Memᴰ id ids
      → unvisited ids visited < fuel
      → VisitOf visit id visited

  visit_each-Came :
      (visit : String → Visit) (fuel : ℕ)
      → IsGood visit fuel
      → (todo visited : List String) → ((id : String) → Memᴰ id todo → Memᴰ id ids)
      → unvisited ids visited < fuel
      → Came
          (λ found after.
            Between s visited found after × ((id : String) → Memᴰ id todo → Visited id after))
          (visit_each visit todo visited)
  unfolding visit_each
  visit_each-Came visit fuel good [] visited known enough =
      (Between-nothing s visited, λ id m. absurd (Memᴰ.not-nil m))
  visit_each-Came visit fuel good (id ∷ todo) visited known enough =
      elim (Option-cases (visit id visited)) [
        | inl out ↦ absurd (
            subst (Came (λ f a. Between s visited f a × Visited id a)) out
              (good id visited (known id (Memᴰ.head refl)) enough))
        | inr ((found, mid), e) ↦
            let first =
              subst (Came (λ f a. Between s visited f a × Visited id a)) e
                (good id visited (known id (Memᴰ.head refl)) enough) in
            let less = unvisited-fewer ids visited mid first.0.kept in
            let rest =
              visit_each-Came visit fuel good todo mid (λ x m. known x (Memᴰ.tail m))
                (omega arith) in
            elim (Option-cases (visit_each visit todo mid)) [
              | inl out ↦ absurd (subst (Came _) out rest)
              | inr ((more, after), e₂) ↦
                  let (between, all) =
                    subst
                      (Came (λ f a. Between s mid f a × ((x : String) → Memᴰ x todo → Visited x a)))
                      e₂ rest in
                  rw (e, e₂, visit_each)
                    (
                      Between-both s first.0 between,
                      λ x m. elim (Memᴰ.cases_cons m) [
                        | inl same ↦ between.kept x (subst (λ y. Visited y mid) (sym same) first.1)
                        | inr later ↦ all x later
                      ],
                    )
            ]
      ]

  -- Every id that a visit may come to is among the ids.
  abbrev IsClosed : Type 0
  IsClosed = (id x : String) → Memᴰ x (parents_of s id) ⊎ Memᴰ x (children_of s id) → Memᴰ x ids

  collect-IsGood : (fuel : ℕ) → IsClosed → IsGood (collect s fuel) fuel
  unfolding collect
  collect-IsGood zero closed id visited known enough = absurd (omega arith)
  collect-IsGood (suc fuel) closed id visited known enough =
      elim (Bool-cases (is_visited id visited)) [
        | inl marked ↦ rw (marked, collect) (Between-nothing s visited, marked)
        | inr fresh ↦
            let good = collect-IsGood fuel closed in
            let less = unvisited-mark ids visited id known fresh in
            let above_came =
              visit_each-Came (collect s fuel) fuel good (parents_of s id) (id ∷ visited)
                (λ x m. closed id x (inl m)) (omega arith) in
            elim (Option-cases (visit_each (collect s fuel) (parents_of s id) (id ∷ visited))) [
              | inl out ↦ absurd (subst (Came _) out above_came)
              | inr ((above, mid), e) ↦
                  let (one, parents) =
                    subst
                      (Came (λ f a.
                        Between s (id ∷ visited) f a
                        × ((x : String) → Memᴰ x (parents_of s id) → Visited x a)))
                      e above_came in
                  let fewer = unvisited-fewer ids (id ∷ visited) mid one.kept in
                  let below_came =
                    visit_each-Came (collect s fuel) fuel good (children_of s id) mid
                      (λ x m. closed id x (inr m)) (omega arith) in
                  elim (Option-cases (visit_each (collect s fuel) (children_of s id) mid)) [
                    | inl out ↦ absurd (subst (Came _) out below_came)
                    | inr ((below, after), e₂) ↦
                        let (two, children) =
                          subst
                            (Came (λ f a.
                              Between s mid f a
                              × ((x : String) → Memᴰ x (children_of s id) → Visited x a)))
                            e₂ below_came in
                        rw (fresh, collect, e, e₂)
                          (
                            Between-lot s id one two parents children,
                            two.kept id (one.kept id (rw (eq_refl id) refl)),
                          )
                  ]
            ]
      ]

made_from-known :
    (m : StringMap CommodityLot) (id x : String)
    → Memᴰ x (made_from (get m id))
    → Memᴰ x (ids_of (values m))
unfolding get
made_from-known [] id x h = absurd (Memᴰ.not-nil h)
made_from-known ((j, lot) ∷ m) id x h = elim (Bool-cases (str_eq j id)) [
  | inl here ↦ Memᴰ.tail (Memᴰ.append_left (ids_of (values m)) (rw here at h))
  | inr other ↦
      Memᴰ.tail (Memᴰ.append_right (made_from (some lot)) (made_from-known m id x (rw other at h)))
]

children-known :
    (lots : List CommodityLot) (id x : String)
    → Memᴰ x (map (λ c. c.lot_id) (filter (made_from_it id) lots))
    → Memᴰ x (ids_of lots)
children-known [] id x h = absurd (Memᴰ.not-nil h)
children-known (lot ∷ lots) id x h = elim (Bool-cases (made_from_it id lot)) [
  | inr other ↦
      Memᴰ.tail
        (Memᴰ.append_right (made_from (some lot)) (children-known lots id x (rw other at h)))
  | inl made ↦
      let both : Memᴰ x (lot.lot_id ∷ map (λ c. c.lot_id) (filter (made_from_it id) lots)) =
        rw made at h in
      elim (Memᴰ.cases_cons both) [
        | inl same ↦ Memᴰ.head same
        | inr later ↦
            Memᴰ.tail (Memᴰ.append_right (made_from (some lot)) (children-known lots id x later))
      ]
]

module _ (s : PdsLedger) (lot_id : String) where
  lot_ids-IsClosed : IsClosed s (lot_ids s lot_id)
  lot_ids-IsClosed id x (inl parent) = Memᴰ.tail (made_from-known s.lots id x parent)
  lot_ids-IsClosed id x (inr child) = Memᴰ.tail (children-known (values s.lots) id x child)

  pub collected :
      VisitOf s (lot_ids s lot_id) (collect s (suc (length (lot_ids s lot_id)))) lot_id []
  collected =
      let most = unvisited-length (lot_ids s lot_id) [] in
      collect-IsGood s (lot_ids s lot_id) (suc (length (lot_ids s lot_id))) lot_ids-IsClosed lot_id
        [] (Memᴰ.head refl) (omega arith)

  -- The history is found with any fuel beyond the number of the ids that a visit may come to.
  pub collect-returns :
      (fuel : ℕ)
      → length (lot_ids s lot_id) < fuel
      → (found : List LedgerEvent) × (visited : List String) × (collect s fuel lot_id []
          ≡ some (found, visited))
  collect-returns fuel enough =
      let most = unvisited-length (lot_ids s lot_id) [] in
      let good =
        collect-IsGood s (lot_ids s lot_id) fuel lot_ids-IsClosed lot_id [] (Memᴰ.head refl)
          (omega arith) in
      elim (Option-cases (collect s fuel lot_id [])) [
        | inl out ↦ absurd (subst (Came _) out good)
        | inr ((found, visited), e) ↦ (found, visited, e)
      ]
