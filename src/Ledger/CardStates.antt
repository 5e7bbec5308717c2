-- ===== src/Ledger/CardStates.antt =====
-- A cancelled ration card is final: no operation on cards changes it.
use mathlib.Core.Bool.{true≢false}
use mathlib.Core.Path.{subst}
use toomoki_cdac_pds.Prelude.{
  ◌otherwise◌, String, Option, ◌≡◌, refl, sym, ap, ◌∙◌, some, true, false, not, inl, inr,
  Bool-cases, Option-cases, arith, str_eq, eq_iff,
}
use toomoki_cdac_pds.StringMap.{get, has, get-set}
use toomoki_cdac_pds.StringMap.Keys.{KeyedBy, KeyedBy-get, KeyedBy-set}
use toomoki_cdac_pds.SharedTypes.{RationCard, RationCardStatus, card_cancelled, card_active}
use toomoki_cdac_pds.Ledger.State.{PdsLedger}
use toomoki_cdac_pds.Ledger.Exec.{gets, modify, ◌>>=◌}
use toomoki_cdac_pds.Ledger.Exec.Keeps.{
  Keeps, Keeps-modify, Keeps-pure, Keeps-bind, Keeps-if, Keeps-check,
}
use toomoki_cdac_pds.Ledger.Exec.Gives.{Gives, Gives-throw_if, Keeps-bind_found}
use toomoki_cdac_pds.Ledger.Quiet.{IsQuiet, log_rules}
use toomoki_cdac_pds.Ledger.Quiet.Checks.{assert_active_stakeholder-Keeps}
use toomoki_cdac_pds.Ledger.Checks.{must_get_ration_card}
use toomoki_cdac_pds.Ledger.Cards.{
  set_card, issue_ration_card, IssueInput, activate_ration_card, activate_card, suspend_ration_card,
  transfer_ration_card, CardTransferInput,
}
use toomoki_cdac_pds.Ledger.Keyed.{IsKeyed}

-- Under the key stands the card, and every card under its own hash.
unfoldable Holds : String → RationCard → PdsLedger → Type 0
Holds k card s =
    (get s.ration_cards k ≡ some card) × KeyedBy (λ x. x.ration_card_hash) s.ration_cards

still_there :
    (k : String) (card : RationCard) (s : PdsLedger)
    → Holds k card s
    → get s.ration_cards k ≡ some card
unfolding Holds
still_there k card s h = h.0

Holds-start :
    (k : String) (card : RationCard) (s : PdsLedger)
    → IsKeyed s
    → get s.ration_cards k ≡ some card
    → Holds k card s
unfolding Holds IsKeyed
Holds-start k card s keyed there = (there, keyed.1.0)

module _ (k : String) (card : RationCard) (final : card_cancelled card.status ≡ true) where
  Holds-quiet : IsQuiet (Holds k card)
  unfolding Holds
  Holds-quiet = record { clock = λ t i s h. h; log = λ e s h. h; alert = λ x s h. h }

  -- A card that is not the one.
  abbrev Other : RationCard → Type 0
  Other c = str_eq c.ration_card_hash k ≡ false

  Holds-set_card : (c : RationCard) → Other c → Keeps (Holds k card) (modify (set_card c))
  unfolding Holds
  Holds-set_card c other = Keeps-modify _ (λ s (there, keyed). (
    get-set s.ration_cards c.ration_card_hash k c ∙ rw other there,
    KeyedBy-set (λ x. x.ration_card_hash) s.ration_cards c.ration_card_hash c keyed refl,
  ))

  same_card :
      (s : PdsLedger) (id : String) (c : RationCard)
      → Holds k card s
      → get s.ration_cards id ≡ some c
      → card_cancelled c.status ≡ false
      → Other c
  unfolding Holds
  same_card s id c (there, keyed) e open_ = elim (Bool-cases (str_eq c.ration_card_hash k)) [
    | inr other ↦ other
    | inl hit ↦
        let own = KeyedBy-get (λ x. x.ration_card_hash) s.ration_cards id keyed e in
        let at_k : get s.ration_cards k ≡ some c =
          subst (λ j. get s.ration_cards j ≡ some c) (sym own ∙ (eq_iff c.ration_card_hash k).0 hit)
            e in
        let same : c ≡ card = ap (λ o. o otherwise c) (sym at_k ∙ there) in
        absurd (true≢false (sym final ∙ ap (λ x. card_cancelled x.status) (sym same) ∙ open_))
  ]

  must_get-Other :
      (id : String)
      → Gives
          (Holds k card)
          (λ c. (card_cancelled c.status ≡ false → Other c))
          (must_get_ration_card id)
  unfolding must_get_ration_card ◌>>=◌
  must_get-Other id = record {
    at = λ s h. elim (Option-cases (get s.ration_cards id)) [
      | inl absent ↦ rw absent h
      | inr (c, e) ↦ rw e (same_card s id c h e, h)
    ];
  }

  activate_card-Holds : (c : RationCard) → Other c → Keeps (Holds k card) (activate_card c)
  unfolding activate_card
  activate_card-Holds c other = search (log_rules, Holds-quiet, Holds-set_card)

  activate-Holds : (id : String) → Keeps (Holds k card) (activate_ration_card id)
  unfolding activate_ration_card
  activate-Holds id = Keeps-bind_found _ _ _ (must_get-Other id) (λ c other.
      Keeps-if _ _ _ (Keeps-pure c) (
        Keeps-bind_found _ _ _ (Gives-throw_if _ _)
          (λ _ open_. activate_card-Holds c (other open_))))

  suspend-Holds :
      (id reason : String) (at : Option String)
      → Keeps (Holds k card) (suspend_ration_card id reason at)
  unfolding suspend_ration_card
  suspend-Holds id reason at = Keeps-bind_found _ _ _ (must_get-Other id) (λ c other.
      Keeps-bind_found _ _ _ (Gives-throw_if _ _) (λ _ open_.
        (let apart = other open_ in search (log_rules, Holds-quiet, Holds-set_card) depth 20)))

  not_cancelled :
      (status : RationCardStatus) → not (card_active status) ≡ false → card_cancelled status ≡ false
  not_cancelled status h = ground (arith, h)

  transfer-Holds : (input : CardTransferInput) → Keeps (Holds k card) (transfer_ration_card input)
  unfolding transfer_ration_card
  transfer-Holds input = Keeps-bind_found _ _ _ (must_get-Other input.ration_card_hash) (λ c other.
      Keeps-bind_found _ _ _ (Gives-throw_if _ _) (λ _ active.
        (let apart = other (not_cancelled c.status active) in
          search (log_rules, assert_active_stakeholder-Keeps, Holds-quiet, Holds-set_card) depth
            20)))

  found :
      (s : PdsLedger) (hash : String)
      → get s.ration_cards k ≡ some card
      → str_eq hash k ≡ true
      → has s.ration_cards hash ≡ true
  found s hash there hit =
      subst (λ j. has s.ration_cards j ≡ true) (sym ((eq_iff hash k).0 hit)) (rw there refl)

  -- A card is issued under a hash that the ledger does not know.
  unknown-Other :
      (hash : String)
      → Gives
          (Holds k card)
          (λ known. (known ≡ false → str_eq hash k ≡ false))
          (gets (λ s. has s.ration_cards hash))
  unfolding ◌>>=◌ Holds
  unknown-Other hash = record {
    at = λ s h. (
      λ unknown. elim (Bool-cases (str_eq hash k)) [
        | inr other ↦ other
        | inl hit ↦ absurd (true≢false (sym (found s hash h.0 hit) ∙ unknown))
      ],
      h,
    );
  }

  issue-Holds : (input : IssueInput) → Keeps (Holds k card) (issue_ration_card input)
  unfolding issue_ration_card
  issue-Holds input = Keeps-bind _ _ (Keeps-check _) (λ _.
      Keeps-bind_found _ _ _ (unknown-Other input.ration_card_hash) (λ known other.
        Keeps-bind_found _ _ _ (Gives-throw_if _ _) (λ _ unknown.
          (let apart = other unknown in search (log_rules, Holds-quiet, Holds-set_card) depth 20))))

-- A cancelled card stays as it is, whatever operation on cards is called, with whatever
-- arguments, in a ledger whose records stand under their own ids.
pub cancelled_card-stays :
    (k : String) (card : RationCard) (s : PdsLedger)
    → IsKeyed s
    → get s.ration_cards k ≡ some card
    → card_cancelled card.status ≡ true
    → (issue : IssueInput) (id reason : String) (at : Option String) (move : CardTransferInput)
    → (get (issue_ration_card issue s).1.ration_cards k ≡ some card)
      × (get (activate_ration_card id s).1.ration_cards k ≡ some card)
      × (get (suspend_ration_card id reason at s).1.ration_cards k ≡ some card)
      × (get (transfer_ration_card move s).1.ration_cards k ≡ some card)
cancelled_card-stays k card s keyed there final issue id reason at move =
    let h = Holds-start k card s keyed there in
    (
      still_there k card _ ((issue-Holds k card final issue).after s h),
      still_there k card _ ((activate-Holds k card final id).after s h),
      still_there k card _ ((suspend-Holds k card final id reason at).after s h),
      still_there k card _ ((transfer-Holds k card final move).after s h),
    )
