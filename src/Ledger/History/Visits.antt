-- ===== src/Ledger/History/Visits.antt =====
-- What a visit of a lot marks and finds, and how much fuel it takes.
use toomoki_cdac_pds.Ledger.State.{PdsLedger}
use toomoki_cdac_pds.Ledger.History.{
  direct_events, children_of, parents_of, LedgerEvent, is_visited,
}
use toomoki_cdac_pds.Prelude.{
  if◌then◌else◌, String, ◌≡◌, refl, sym, ◌∙◌, ◌⊎◌, inl, inr, true, false, ℕ, suc, ◌<◌, ◌≤◌, List,
  [], ◌∷◌, ◌++◌, Bool-cases, eq_iff, str_eq, arith, length,
}
use mathlib.Core.Bool.{true≢false}
use mathlib.Core.Path.{subst}
use mathlib.Core.List.{Memᴰ}
use mathlib.Core.List.Memᴰ

-- The id is marked.
abbrev pub Visited : String → List String → Type 0
Visited id visited = is_visited id visited ≡ true

-- The parents and the children of the lot are marked, and its events are found.
pub record IsFinished (s : PdsLedger) (found : List LedgerEvent) (visited : List String)
    (id : String) : Type 0 where
  pub parents : (p : String) → Memᴰ p (parents_of s id) → Visited p visited
  pub children : (c : String) → Memᴰ c (children_of s id) → Visited c visited
  pub events : (e : LedgerEvent) → Memᴰ e (direct_events s id) → Memᴰ e found

-- What lies between the marks before a visit and after it: nothing is unmarked, and what was marked
-- in between is finished.
pub record Between (s : PdsLedger) (before : List String) (found : List LedgerEvent)
    (after : List String) : Type 0 where
  pub kept : (id : String) → Visited id before → Visited id after
  pub finished : (id : String) → Visited id after → Visited id before ⊎ IsFinished s found after id

pub marked_more :
    (x id : String) (visited : List String) → Visited x visited → Visited x (id ∷ visited)
marked_more x id visited h = elim (Bool-cases (str_eq id x)) [
  | inl same ↦ rw same refl
  | inr other ↦ rw other h
]

module _ (s : PdsLedger) where
  IsFinished-later :
      {found more : List LedgerEvent} {visited after : List String} (id : String)
      → ((x : String) → Visited x visited → Visited x after)
      → ((e : LedgerEvent) → Memᴰ e found → Memᴰ e more)
      → IsFinished s found visited id
      → IsFinished s more after id
  IsFinished-later id marks events f = record {
    parents = λ p m. marks p (f.parents p m);
    children = λ c m. marks c (f.children c m);
    events = λ e m. events e (f.events e m);
  }

  pub Between-nothing : (visited : List String) → Between s visited [] visited
  Between-nothing visited = record { kept = λ id h. h; finished = λ id h. inl h }

  pub Between-both :
      {a b c : List String} {found more : List LedgerEvent}
      → Between s a found b
      → Between s b more c
      → Between s a (found ++ more) c
  Between-both {a} {b} {c} {found} {more} one two = record {
    kept = λ id h. two.kept id (one.kept id h);
    finished = λ id h. elim (two.finished id h) [
      | inr f ↦ inr (IsFinished-later id (λ x m. m) (λ e m. Memᴰ.append_right found m) f)
      | inl early ↦ elim (one.finished id early) [
        | inl before ↦ inl before
        | inr f ↦ inr (IsFinished-later id two.kept (λ e m. Memᴰ.append_left more m) f)
      ]
    ];
  }

  marked_cases :
      (x id : String) (visited : List String)
      → Visited x (id ∷ visited)
      → (id ≡ x) ⊎ Visited x visited
  marked_cases x id visited h = elim (Bool-cases (str_eq id x)) [
    | inl same ↦ inl ((eq_iff id x).0 same)
    | inr other ↦ inr (rw other at h)
  ]

  -- The visit of one lot, from the visits of its parents and its children.
  pub Between-lot :
      {visited b c : List String} {above below : List LedgerEvent} (id : String)
      → Between s (id ∷ visited) above b
      → Between s b below c
      → ((p : String) → Memᴰ p (parents_of s id) → Visited p b)
      → ((p : String) → Memᴰ p (children_of s id) → Visited p c)
      → Between s visited (above ++ (direct_events s id ++ below)) c
  Between-lot {visited} {b} {c} {above} {below} id one two parents children = record {
    kept = λ x h. two.kept x (one.kept x (marked_more x id visited h));
    finished = λ x h. elim (two.finished x h) [
      | inr f ↦ inr (
          IsFinished-later x (λ y m. m)
            (λ e m. Memᴰ.append_right above (Memᴰ.append_right (direct_events s id) m)) f)
      | inl early ↦ elim (one.finished x early) [
        | inr f ↦ inr (
            IsFinished-later x two.kept (λ e m. Memᴰ.append_left (direct_events s id ++ below) m) f)
        | inl marked ↦ elim (marked_cases x id visited marked) [
          | inr before ↦ inl before
          | inl same ↦ inr (
              subst (IsFinished s (above ++ (direct_events s id ++ below)) c) same (record {
                parents = λ p m. two.kept p (parents p m);
                children = children;
                events = λ e m. Memᴰ.append_right above (Memᴰ.append_left below m);
              }))
        ]
      ]
    ];
  }

-- How many of the ids are not marked.
abbrev pub unvisited : List String → List String → ℕ
unvisited [] visited = 0
unvisited (x ∷ ids) visited =
    let rest = unvisited ids visited in if is_visited x visited then rest else suc rest

pub unvisited-fewer :
    (ids a b : List String)
    → ((x : String) → Visited x a → Visited x b)
    → unvisited ids b ≤ unvisited ids a
unvisited-fewer [] a b h = omega arith
unvisited-fewer (x ∷ ids) a b h =
    let less = unvisited-fewer ids a b h in
    elim (Bool-cases (is_visited x a)) [
      | inl marked ↦ rw (marked, h x marked) less
      | inr fresh ↦ elim (Bool-cases (is_visited x b)) [
        | inl now ↦ rw (fresh, now) (omega arith)
        | inr still ↦ rw (fresh, still) (omega arith)
      ]
    ]

pub unvisited-length : (ids visited : List String) → unvisited ids visited ≤ length ids
unvisited-length [] visited = omega arith
unvisited-length (x ∷ ids) visited =
    let less = unvisited-length ids visited in
    elim (Bool-cases (is_visited x visited)) [
      | inl marked ↦ rw marked (omega arith)
      | inr fresh ↦ rw fresh (omega arith)
    ]

-- A visit that goes on has one id less to mark.
pub unvisited-mark :
    (ids visited : List String) (id : String)
    → Memᴰ id ids
    → is_visited id visited ≡ false
    → unvisited ids (id ∷ visited) < unvisited ids visited
unvisited-mark [] visited id m fresh = absurd (Memᴰ.not-nil m)
unvisited-mark (x ∷ ids) visited id m fresh = elim (Bool-cases (str_eq id x)) [
  | inl same ↦
      let less = unvisited-fewer ids visited (id ∷ visited) (λ y h. marked_more y id visited h) in
      let here : is_visited x visited ≡ false =
        subst (λ y. is_visited y visited ≡ false) ((eq_iff id x).0 same) fresh in
      rw (same, here) (omega arith)
  | inr other ↦ elim (Memᴰ.cases_cons m) [
    | inl e ↦ absurd (true≢false (sym ((eq_iff id x).1 e) ∙ other))
    | inr later ↦
        let less = unvisited-mark ids visited id later fresh in
        elim (Bool-cases (is_visited x visited)) [
          | inl marked ↦ rw (other, marked) less
          | inr still ↦ rw (other, still) (omega arith)
        ]
  ]
]
