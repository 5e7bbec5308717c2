-- ===== src/Ledger/Escalation.antt =====
-- After the escalation of overdue grievances none is left overdue.
use mathlib.Core.Bool.{true≢false}
use toomoki_cdac_pds.Prelude.{
  String, List, Option, Bool, ◌≡◌, refl, sym, ap, ◌∙◌, none, some, [], ◌∷◌, true, false, inl, inr,
  ◌⊎◌, Bool-cases, str_eq, eq_iff,
}
use toomoki_cdac_pds.StringMap.{StringMap, get, values, get-set}
use toomoki_cdac_pds.StringMap.Keys.{IfFound, KeyedBy, KeyedBy-found, KeyedBy-set}
use toomoki_cdac_pds.SharedTypes.{Grievance}
use toomoki_cdac_pds.Ledger.State.{PdsLedger}
use toomoki_cdac_pds.Ledger.Exec.{◌>>=◌}
use toomoki_cdac_pds.Ledger.Exec.Keeps.{Keeps, Keeps-pure, Keeps-bind, after-bind}
use toomoki_cdac_pds.Ledger.Exec.Runs.{Returned, Returned-then}
use toomoki_cdac_pds.Ledger.Quiet.{IsQuiet, log_rules}
use toomoki_cdac_pds.Ledger.Record.{
  timestamp_or, raise_audit_flag, record_event, record_event_with, draw_timestamp, draw_identifier,
}
use toomoki_cdac_pds.Ledger.Grievances.{
  set_grievance, overdue, escalate, escalate_all, escalated_at_time, record_escalation,
  escalate_overdue_grievances,
}
use toomoki_cdac_pds.Ledger.Keyed.{IsKeyed}

abbrev pub found_overdue : String → Option Grievance → Bool
found_overdue now none = false
found_overdue now (some g) = overdue now g

abbrev Listed : Grievance → List Grievance → Type 0
Listed x [] = ⊥
Listed x (g ∷ gs) = (x ≡ g) ⊎ Listed x gs

abbrev Waiting : String → List Grievance → Grievance → Type 0
Waiting now gs x = overdue now x ≡ true → Listed x gs

module _ {P Q R : Grievance → Type 0} where
  IfFound-zip :
      (o : Option Grievance)
      → ((x : Grievance) → P x → Q x → R x)
      → IfFound P o
      → IfFound Q o
      → IfFound R o
  IfFound-zip none f h k = tt
  IfFound-zip (some x) f h k = f x h k

get-Listed : (m : StringMap Grievance) (k : String) → IfFound (λ x. Listed x (values m)) (get m k)
unfolding get
get-Listed [] k = tt
get-Listed ((j, w) ∷ m) k = elim (Bool-cases (str_eq j k)) [
  | inl hit ↦ rw hit (inl refl)
  | inr miss ↦ rw miss (IfFound-zip (get m k) (λ x h _. inr h) (get-Listed m k) (get-Listed m k))
]

-- Only grievances of the list are overdue, and each stands under its own id.
unfoldable OverdueIn : String → List Grievance → PdsLedger → Type 0
OverdueIn now gs s =
    KeyedBy (λ g. g.grievance_id) s.grievances
    × ((k : String) → IfFound (Waiting now gs) (get s.grievances k))

OverdueIn-quiet : (now : String) (gs : List Grievance) → IsQuiet (OverdueIn now gs)
unfolding OverdueIn
OverdueIn-quiet now gs = record { clock = λ t i s h. h; log = λ e s h. h; alert = λ x s h. h }

pass_by :
    (now : String) (g : Grievance) (gs : List Grievance) (s : PdsLedger)
    → overdue now g ≡ false
    → OverdueIn now (g ∷ gs) s
    → OverdueIn now gs s
unfolding OverdueIn
pass_by now g gs s timely (keyed, listed) = (
  keyed,
  λ k.
      IfFound-zip (get s.grievances k)
        (λ x waiting _ late. elim (waiting late) [
          | inl same ↦ absurd (true≢false (sym late ∙ ap (overdue now) same ∙ timely))
          | inr later ↦ later
        ])
        (listed k) (listed k),
)

escalated_rests : (now : String) (g : Grievance) → overdue now (escalated_at_time now g) ≡ false
escalated_rests now g = refl

move_on :
    (now : String) (g : Grievance) (gs : List Grievance) (s : PdsLedger)
    → OverdueIn now (g ∷ gs) s
    → OverdueIn now gs (set_grievance (escalated_at_time now g) s)
unfolding OverdueIn
move_on now g gs s (keyed, listed) = (
  KeyedBy-set (λ x. x.grievance_id) s.grievances g.grievance_id (escalated_at_time now g) keyed
      refl,
  λ k. elim (Bool-cases (str_eq g.grievance_id k)) [
    | inl hit ↦
        rw (get-set s.grievances g.grievance_id k (escalated_at_time now g), hit)
          (λ late. absurd (true≢false (sym late)))
    | inr miss ↦
        rw (get-set s.grievances g.grievance_id k (escalated_at_time now g), miss)
          (IfFound-zip (get s.grievances k)
            (λ x waiting own late. elim (waiting late) [
              | inl same ↦ absurd (
                  true≢false (
                    sym ((eq_iff g.grievance_id k).1 (ap (λ y. y.grievance_id) (sym same) ∙ own))
                    ∙ miss))
              | inr later ↦ later
            ])
            (listed k) (KeyedBy-found (λ x. x.grievance_id) s.grievances k keyed))
  ],
)

escalate-OverdueIn :
    (now : String) (g : Grievance) (gs : List Grievance) (s : PdsLedger)
    → OverdueIn now (g ∷ gs) s
    → Returned (OverdueIn now gs) (escalate now g s)
unfolding escalate raise_audit_flag record_event record_event_with ◌>>=◌ draw_timestamp
    draw_identifier
escalate-OverdueIn now g gs s h =
    let quiet = OverdueIn-quiet now gs in
    quiet.log _ _ (
      quiet.clock _ _ _
        (quiet.alert _ (set_grievance (escalated_at_time now g) s) (move_on now g gs s h)))

escalate_all-OverdueIn :
    (now : String) (gs : List Grievance) (s : PdsLedger)
    → OverdueIn now gs s
    → OverdueIn now [] (escalate_all now gs s).1
unfolding escalate_all ◌>>=◌
escalate_all-OverdueIn now [] s h = h
escalate_all-OverdueIn now (g ∷ gs) s h = elim (Bool-cases (overdue now g)) [
  | inr timely ↦
      rw (timely, escalate_all) (escalate_all-OverdueIn now gs s (pass_by now g gs s timely h))
  | inl late ↦
      rw (late, escalate_all)
        (Returned-then (OverdueIn now gs) (OverdueIn now []) (escalate now g) _ s
          (escalate-OverdueIn now g gs s h)
          (λ p s' h'.
            after-bind (OverdueIn now []) (escalate_all now gs) _ s'
              (escalate_all-OverdueIn now gs s' h') (λ _. Keeps-pure _)))
]

record_escalation-OverdueIn :
    (now : String) (gs : List Grievance) → Keeps (OverdueIn now []) (record_escalation now gs)
unfolding record_escalation
record_escalation-OverdueIn now [] = Keeps-pure tt
record_escalation-OverdueIn now (g ∷ gs) = search (log_rules, OverdueIn-quiet) depth 20

started : (now : String) (s : PdsLedger) → IsKeyed s → OverdueIn now (values s.grievances) s
unfolding IsKeyed OverdueIn
started now s keyed = (
  keyed.1.1,
  λ k.
      IfFound-zip (get s.grievances k) (λ x listed _ late. listed) (get-Listed s.grievances k)
        (get-Listed s.grievances k),
)

none_found :
    (now : String) (o : Option Grievance) → IfFound (Waiting now []) o → found_overdue now o ≡ false
none_found now none h = refl
none_found now (some x) h = elim (Bool-cases (overdue now x)) [
  | inl late ↦ absurd (h late)
  | inr timely ↦ timely
]

none_left :
    (now k : String) (s : PdsLedger)
    → OverdueIn now [] s
    → found_overdue now (get s.grievances k) ≡ false
unfolding OverdueIn
none_left now k s h = none_found now (get s.grievances k) (h.1 k)

-- After the escalation at a given time, whether it returns or throws, no grievance is overdue at
-- that time, in a ledger whose records stand under their own ids.
pub escalate_overdue_grievances-none_left :
    (now k : String) (s : PdsLedger)
    → IsKeyed s
    → found_overdue now (get (escalate_overdue_grievances (some now) s).1.grievances k) ≡ false
unfolding escalate_overdue_grievances timestamp_or ◌>>=◌
escalate_overdue_grievances-none_left now k s keyed =
    let all = values s.grievances in
    none_left now k _ (
      after-bind (OverdueIn now []) (escalate_all now all) _ s
        (escalate_all-OverdueIn now all s (started now s keyed))
        (λ p. Keeps-bind _ _ (record_escalation-OverdueIn now p.0) (λ _. Keeps-pure _)))
