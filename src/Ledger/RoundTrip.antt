-- ===== src/Ledger/RoundTrip.antt =====
-- What `exportState` writes, `restoreState` reads back.
use toomoki_cdac_pds.Ledger.Distribute.{key_of}
use toomoki_cdac_pds.Prelude.{
  String, ◌≡◌, refl, sym, ap, ◌∙◌, [], ◌∷◌, ◌++◌, false, str_eq, eq_iff, arith, map,
}
use toomoki_cdac_pds.StringMap.{StringMap, get, set, has, values, map_values}
use toomoki_cdac_pds.StringMap.Keys.{KeyedBy}
use toomoki_cdac_pds.Ledger.State.{PdsLedger, EntitlementCell}
use toomoki_cdac_pds.Ledger.Keyed.{IsKeyed}
use toomoki_cdac_pds.Ledger.Rules.{entitlements_in}
use toomoki_cdac_pds.Ledger.Persist.{
  export_state, restore_state, set_each, map_of, keyed, fresh_cell,
}

module _ {V : Type 0} where
  -- No key stands twice, as in every JavaScript `Map`.
  abbrev pub IsMap : StringMap V → Type 0
  IsMap [] = Unit
  IsMap ((k, v) ∷ m) = (has m k ≡ false) × IsMap m

  abbrev Fresh : StringMap V → StringMap V → Type 0
  Fresh acc [] = Unit
  Fresh acc ((k, v) ∷ m) = (has acc k ≡ false) × Fresh acc m

  set-absent :
      (m : StringMap V) (k : String) (v : V) → has m k ≡ false → set m k v ≡ m ++ ((k, v) ∷ [])
  unfolding get set
  set-absent [] k v h = refl
  set-absent ((j, w) ∷ m) k v h = ground (arith, set-absent m k v)

  has-push :
      (acc : StringMap V) (k j : String) (v : V)
      → has acc j ≡ false
      → str_eq k j ≡ false
      → has (acc ++ ((k, v) ∷ [])) j ≡ false
  unfolding get
  has-push [] k j v h apart = rw apart refl
  has-push ((i, w) ∷ acc) k j v h apart = ground (arith, has-push acc k j v)

  absent_apart :
      (m : StringMap V) (k j : String) (v : V)
      → has ((j, v) ∷ m) k ≡ false
      → (str_eq k j ≡ false) × (has m k ≡ false)
  unfolding get
  absent_apart m k j v h = ground (arith, eq_iff j k, eq_iff k j)

  Fresh-push :
      (acc m : StringMap V) (k : String) (v : V)
      → Fresh acc m
      → has m k ≡ false
      → Fresh (acc ++ ((k, v) ∷ [])) m
  Fresh-push acc [] k v h absent = tt
  Fresh-push acc ((j, w) ∷ m) k v h absent =
      let (apart, later) = absent_apart m k j w absent in
      (has-push acc k j v h.0 apart, Fresh-push acc m k v h.1 later)

  append_assoc : (a b c : StringMap V) → (a ++ b) ++ c ≡ a ++ (b ++ c)
  append_assoc [] b c = refl
  append_assoc (x ∷ a) b c = ap (λ l. x ∷ l) (append_assoc a b c)

  append_nil : (a : StringMap V) → a ++ [] ≡ a
  append_nil [] = refl
  append_nil (x ∷ a) = ap (λ l. x ∷ l) (append_nil a)

  set_each-entries : (acc m : StringMap V) → Fresh acc m → IsMap m → set_each acc m ≡ acc ++ m
  unfolding set_each
  set_each-entries acc [] h d = sym (append_nil acc)
  set_each-entries acc ((k, v) ∷ m) h d = rw (set-absent acc k v h.0) (
      set_each-entries (acc ++ ((k, v) ∷ [])) m (Fresh-push acc m k v h.1 d.0) d.1
      ∙ append_assoc acc ((k, v) ∷ []) m)

  Fresh-nil : (m : StringMap V) → Fresh [] m
  unfolding get
  Fresh-nil [] = tt
  Fresh-nil ((k, v) ∷ m) = (refl, Fresh-nil m)

  -- The entries of a map make up the map again.
  set_each-own : (m : StringMap V) → IsMap m → set_each [] m ≡ m
  set_each-own m d = set_each-entries [] m (Fresh-nil m) d

  keyed-values : (id : V → String) (m : StringMap V) → KeyedBy id m → keyed id (values m) ≡ m
  keyed-values id [] h = refl
  keyed-values id ((k, v) ∷ m) h = rw (h.0, keyed-values id m h.1) refl

  -- A map whose values stand under their own ids is made again from its values.
  map_of-values :
      (id : V → String) (m : StringMap V) → KeyedBy id m → IsMap m → map_of id (values m) ≡ m
  unfolding map_of
  map_of-values id m h d = rw (keyed-values id m h) (set_each-own m d)

-- A cell that no event shares.
abbrev unshare : EntitlementCell → EntitlementCell
unshare c = fresh_cell c.entitlement

unshared-values :
    (m : StringMap EntitlementCell)
    → map fresh_cell (entitlements_in (values m)) ≡ values (map_values unshare m)
unshared-values [] = refl
unshared-values ((k, c) ∷ m) = ap (λ l. unshare c ∷ l) (unshared-values m)

unshared-KeyedBy :
    (m : StringMap EntitlementCell)
    → KeyedBy (λ c. key_of c.entitlement) m
    → KeyedBy (λ c. key_of c.entitlement) (map_values unshare m)
unshared-KeyedBy [] h = tt
unshared-KeyedBy ((k, c) ∷ m) h = (h.0, unshared-KeyedBy m h.1)

has-unshared : (m : StringMap EntitlementCell) (k : String) → has (map_values unshare m) k ≡ has m k
unfolding get
has-unshared [] k = refl
has-unshared ((j, c) ∷ m) k = ground (arith, has-unshared m k)

unshared-IsMap : (m : StringMap EntitlementCell) → IsMap m → IsMap (map_values unshare m)
unshared-IsMap [] h = tt
unshared-IsMap ((k, c) ∷ m) h = (has-unshared m k ∙ h.0, unshared-IsMap m h.1)

entitlements-reloaded :
    (m : StringMap EntitlementCell)
    → KeyedBy (λ c. key_of c.entitlement) m
    → IsMap m
    → map_of (λ c. key_of c.entitlement) (map fresh_cell (entitlements_in (values m)))
      ≡ map_values unshare m
entitlements-reloaded m h d = rw (unshared-values m) (
    map_of-values (λ c. key_of c.entitlement) (map_values unshare m) (unshared-KeyedBy m h)
      (unshared-IsMap m d))

-- No collection of the ledger has a key twice.
pub record AreMaps (s : PdsLedger) : Type 0 where
  pub stakeholders : IsMap s.stakeholders
  pub lots : IsMap s.lots
  pub transfers : IsMap s.transfers
  pub allocations : IsMap s.allocations
  pub entitlements : IsMap s.entitlements
  pub auth_transactions : IsMap s.auth_transactions
  pub distributions : IsMap s.distributions
  pub alerts : IsMap s.alerts
  pub stock : IsMap s.stock
  pub ration_cards : IsMap s.ration_cards
  pub grievances : IsMap s.grievances
  pub entitlement_rules : IsMap s.entitlement_rules

-- The ledger as another engine reads it: with that engine's clock and ids, and with entitlements
-- that no event shares.
abbrev pub reloaded : PdsLedger → PdsLedger → PdsLedger
reloaded s t = record s {
  entitlements = map_values unshare s.entitlements;
  runtime = t.runtime;
  timestamps_drawn = t.timestamps_drawn;
  identifiers_drawn = t.identifiers_drawn;
}

-- A state that was exported and is restored, in any engine, is the state that was exported: with
-- the engine's own clock, and with entitlements that no event shares. Every record must stand
-- under its own id and no key twice.
pub restore_state-export_state :
    (s t : PdsLedger) → IsKeyed s → AreMaps s → restore_state (export_state s) t ≡ reloaded s t
unfolding restore_state export_state IsKeyed
restore_state-export_state s t ((lo, tf, al, di, en), (ca, gr, ru), (st, au, ar)) d =
    rw
      (
        map_of-values (λ x. x.stakeholder_id) s.stakeholders st d.stakeholders,
        map_of-values (λ x. x.lot_id) s.lots lo d.lots,
        map_of-values (λ x. x.transfer_id) s.transfers tf d.transfers,
        map_of-values (λ x. x.allocation_id) s.allocations al d.allocations,
        entitlements-reloaded s.entitlements en d.entitlements,
        map_of-values (λ x. x.auth_txn_id) s.auth_transactions au d.auth_transactions,
        map_of-values (λ x. x.distribution_id) s.distributions di d.distributions,
        map_of-values (λ x. x.alert_id) s.alerts ar d.alerts,
        set_each-own s.stock d.stock,
        map_of-values (λ x. x.ration_card_hash) s.ration_cards ca d.ration_cards,
        map_of-values (λ x. x.grievance_id) s.grievances gr d.grievances,
        map_of-values (λ x. x.rule_id) s.entitlement_rules ru d.entitlement_rules,
      )
      refl
