-- ===== src/Ledger/History/Sound.antt =====
-- The history of a lot has no other events than those of the lots that are linked to it.
use toomoki_cdac_pds.Ledger.History.Complete.{child, parent, itself, Linked}
use toomoki_cdac_pds.Ledger.State.{PdsLedger}
use toomoki_cdac_pds.Ledger.History.{
  children_of, by_time, parents_of, is_visited, concerns_lot, lot_ids, direct_events, Visit,
  get_lot_history, collect, visit_each, LedgerEvent, unique_events,
}
use toomoki_cdac_pds.Prelude.{
  is_some, String, ◌≡◌, refl, sym, ap, ◌⊎◌, inl, inr, true, ℕ, zero, suc, List, [], ◌∷◌, Option,
  none, some, Bool-cases, Option-cases, str_eq, length,
}
use toomoki_cdac_pds.StringMap.{StringMap, set, values}
use mathlib.Core.Option.{some-injective}
use toomoki_cdac_pds.Members.{filter-passed, sort_by-sorted}
use mathlib.Core.Path.{subst}
use mathlib.Core.Bool.{true≢false}
use mathlib.Core.List.{Memᴰ}
use mathlib.Core.List.Memᴰ

values-set :
    {V : Type 0} (m : StringMap V) (k : String) (v x : V)
    → Memᴰ x (values (set m k v))
    → (x ≡ v) ⊎ Memᴰ x (values m)
unfolding set
values-set [] k v x h = Memᴰ.cases_cons h
values-set ((j, w) ∷ m) k v x h = elim (Bool-cases (str_eq j k)) [
  | inl hit ↦
      let both : Memᴰ x (v ∷ values m) = rw hit at h in
      elim (Memᴰ.cases_cons both) [ inl same ↦ inl same | inr later ↦ inr (Memᴰ.tail later) ]
  | inr miss ↦
      let both : Memᴰ x (w ∷ values (set m k v)) = rw miss at h in
      elim (Memᴰ.cases_cons both) [
        | inl same ↦ inr (Memᴰ.head same)
        | inr later ↦ elim (values-set m k v x later) [
          | inl new ↦ inl new
          | inr old ↦ inr (Memᴰ.tail old)
        ]
      ]
]

unique_events-found_before :
    (events : List LedgerEvent) (m : StringMap LedgerEvent) (e : LedgerEvent)
    → Memᴰ e (values (unique_events events m))
    → Memᴰ e events ⊎ Memᴰ e (values m)
unfolding unique_events
unique_events-found_before [] m e h = inr h
unique_events-found_before (x ∷ events) m e h =
    elim (unique_events-found_before events (set m x.ledger_tx_id x) e h) [
      | inl later ↦ inl (Memᴰ.tail later)
      | inr kept ↦ elim (values-set m x.ledger_tx_id x e kept) [
        | inl same ↦ inl (Memᴰ.head same)
        | inr old ↦ inr old
      ]
    ]

module _ (s : PdsLedger) (lot_id : String) where
  -- An event of the log that concerns a linked lot.
  abbrev pub OfLinked : LedgerEvent → Type 0
  OfLinked e = Memᴰ e s.events × (x : String) × Linked s lot_id x × (concerns_lot x e ≡ true)

  abbrev OnlyLinked : Option (List LedgerEvent × List String) → Type 0
  OnlyLinked none = Unit
  OnlyLinked (some (found, _)) = (e : LedgerEvent) → Memᴰ e found → OfLinked e

  visit_each-OnlyLinked :
      (visit : String → Visit)
      → ((id : String) (visited : List String) → Linked s lot_id id → OnlyLinked (visit id visited))
      → (ids visited : List String) → ((id : String) → Memᴰ id ids → Linked s lot_id id)
      → OnlyLinked (visit_each visit ids visited)
  unfolding visit_each
  visit_each-OnlyLinked visit only [] visited linked = λ e m. absurd (Memᴰ.not-nil m)
  visit_each-OnlyLinked visit only (id ∷ ids) visited linked =
      elim (Option-cases (visit id visited)) [
        | inl out ↦ rw (out, visit_each) tt
        | inr ((found, mid), hit) ↦
            let first = subst OnlyLinked hit (only id visited (linked id (Memᴰ.head refl))) in
            let rest = visit_each-OnlyLinked visit only ids mid (λ x m. linked x (Memᴰ.tail m)) in
            elim (Option-cases (visit_each visit ids mid)) [
              | inl out ↦ rw (hit, out, visit_each) tt
              | inr ((more, after), hit₂) ↦
                  let later = subst OnlyLinked hit₂ rest in
                  rw (hit, hit₂, visit_each)
                    (λ e m. elim (Memᴰ.append_cases found m) [
                      | inl early ↦ first e early
                      | inr late ↦ later e late
                    ])
            ]
      ]

  collect-OnlyLinked :
      (fuel : ℕ) (id : String) (visited : List String)
      → Linked s lot_id id
      → OnlyLinked (collect s fuel id visited)
  unfolding collect direct_events
  collect-OnlyLinked zero id visited link = tt
  collect-OnlyLinked (suc fuel) id visited link = elim (Bool-cases (is_visited id visited)) [
    | inl marked ↦ rw (marked, collect) (λ e m. absurd (Memᴰ.not-nil m))
    | inr fresh ↦
        let only = collect-OnlyLinked fuel in
        let above_only =
          visit_each-OnlyLinked (collect s fuel) only (parents_of s id) (id ∷ visited)
            (λ x m. parent link m) in
        elim (Option-cases (visit_each (collect s fuel) (parents_of s id) (id ∷ visited))) [
          | inl out ↦ rw (fresh, collect, out) tt
          | inr ((above, mid), hit) ↦
              let early = subst OnlyLinked hit above_only in
              let below_only =
                visit_each-OnlyLinked (collect s fuel) only (children_of s id) mid
                  (λ x m. child link m) in
              elim (Option-cases (visit_each (collect s fuel) (children_of s id) mid)) [
                | inl out ↦ rw (fresh, collect, hit, out) tt
                | inr ((below, after), hit₂) ↦
                    let late = subst OnlyLinked hit₂ below_only in
                    rw (fresh, collect, hit, hit₂)
                      (λ e m. elim (Memᴰ.append_cases above m) [
                        | inl up ↦ early e up
                        | inr rest ↦ elim (Memᴰ.append_cases (direct_events s id) rest) [
                          | inr down ↦ late e down
                          | inl own ↦
                              let (logged, concerns) =
                                filter-passed (concerns_lot id) s.events e own in
                              (logged, id, link, concerns)
                        ]
                      ])
              ]
        ]
  ]

  -- Every event of a lot's history is an event of the log that concerns the lot or a lot that a
  -- chain of transformations links to it.
  pub get_lot_history-OfLinked :
      (history : List LedgerEvent) (e : LedgerEvent)
      → get_lot_history lot_id s ≡ some history
      → Memᴰ e history
      → OfLinked e
  unfolding get_lot_history
  get_lot_history-OfLinked history e returns m =
      let fuel = suc (length (lot_ids s lot_id)) in
      let only = collect-OnlyLinked fuel lot_id [] itself in
      elim (Option-cases (collect s fuel lot_id [])) [
        | inl out ↦
            let no : none ≡ some history = rw out at returns in
            absurd (true≢false (sym (ap is_some no)))
        | inr ((found, visited), hit) ↦
            let all = subst OnlyLinked hit only in
            let same : some (by_time s (values (unique_events found []))) ≡ some history =
              rw hit at returns in
            let there = subst (Memᴰ e) (sym (some-injective _ history same)) m in
            elim (unique_events-found_before found [] e (sort_by-sorted _ _ e there)) [
              | inl early ↦ all e early
              | inr never ↦ absurd (Memᴰ.not-nil never)
            ]
      ]
