-- ===== src/Trade/Components.antt =====
-- What the ETF checks let through, and the shares that an order is exchanged for.
use simutgw_src.Common.{
  ℕ, ◌/◌, ◌≤◌, ◌≡◌, ◌≢◌, ◌⊎◌, refl, ap, true, false, none, some, List, [], ◌∷◌, ◌++◌, map, success,
  failure, ◌==◌, str_eq, arith, if◌then◌else◌,
}
use simutgw_src.Trade.{not_match, error_match, FrozeComponent, OrderMessage}
use simutgw_src.Trade.Etf.{
  Component, TradedEtf, validate_etf, creation_component, redemption_component, add_components,
  add_creation_component, add_redeption_component,
}

-- The exchange that an order asks for is open, and its quantity is at least one unit.
abbrev pub IsOpen : TradedEtf → OrderMessage → Type 0
IsOpen e o =
    ((if str_eq o.side "D" then e.creation else e.redemption) ≡ true)
    × (e.creation_redemption_unit ≤ o.order_qty_origin)

-- `ValidateETF`, for an ETF that is known, returns 0 exactly for an order whose exchange is open and
-- whose quantity is at least one unit. The order is then one that has not matched, and else one in
-- error, and nothing else of it changes.
pub validate_etf-IsOpen :
    (e : TradedEtf) (o : OrderMessage)
    → (IsOpen e o × (validate_etf (some e) o ≡ (success, record o { match_type = not_match })))
      ⊎ ((¬ IsOpen e o)
          × (validate_etf (some e) o ≡ (failure, record o { match_type = error_match })))
unfolding validate_etf
validate_etf-IsOpen e o = ground arith

-- The components that a creation gives, and those that a redemption takes.
abbrev given : TradedEtf → OrderMessage → List FrozeComponent
given e o = map (creation_component (o.order_qty_origin / e.creation_redemption_unit)) e.components

abbrev taken : TradedEtf → OrderMessage → List FrozeComponent
taken e o =
    map (redemption_component (o.order_qty_origin / e.creation_redemption_unit)) e.components

same_shares :
    (n : ℕ) (cs : List Component)
    → map (λ c. c.act_pch_count) (map (creation_component n) cs)
      ≡ map (λ c. c.rdp_count) (map (redemption_component n) cs)
same_shares n [] = refl
same_shares n (c ∷ cs) = ap (λ l. (creation_component n c).act_pch_count ∷ l) (same_shares n cs)

same_cash :
    (n : ℕ) (cs : List Component)
    → map (λ c. c.cash) (map (creation_component n) cs)
      ≡ map (λ c. c.cash) (map (redemption_component n) cs)
same_cash n [] = refl
same_cash n (c ∷ cs) = ap (λ l. (creation_component n c).cash ∷ l) (same_cash n cs)

-- Two orders that have had their components added, one as a creation and one as a redemption.
pub record SameExchange (o p : OrderMessage) (old : List FrozeComponent) : Type 0 where
  pub created : List FrozeComponent
  pub redeemed : List FrozeComponent
  pub appended_created : o.froze_components ≡ old ++ created
  pub appended_redeemed : p.froze_components ≡ old ++ redeemed
  pub shares : map (λ c. c.act_pch_count) created ≡ map (λ c. c.rdp_count) redeemed
  pub cash : map (λ c. c.cash) created ≡ map (λ c. c.cash) redeemed

-- For an ETF whose unit is not 0, `AddCreationComponent` and `AddRedeptionComponent` end, and append to
-- one order, as what it gives and as what it receives, components with the same numbers of shares and
-- the same cash.
pub add_components-SameExchange :
    (e : TradedEtf) (o : OrderMessage)
    → e.creation_redemption_unit ≢ 0
    → (c : OrderMessage) × (r : OrderMessage) × (add_creation_component e o ≡ some c)
      × (add_redeption_component e o ≡ some r)
      × SameExchange c r o.froze_components
unfolding add_creation_component add_redeption_component add_components
add_components-SameExchange e o h =
    let n = o.order_qty_origin / e.creation_redemption_unit in
    let z : (e.creation_redemption_unit == 0) ≡ false = ground arith in
    (
      record o { froze_components = o.froze_components ++ given e o },
      record o { froze_components = o.froze_components ++ taken e o },
      rw z refl,
      rw z refl,
      record {
        created = given e o;
        redeemed = taken e o;
        appended_created = refl;
        appended_redeemed = refl;
        shares = same_shares n e.components;
        cash = same_cash n e.components;
      },
    )

-- An ETF whose unit is 0 passes `ValidateETF` with any quantity, if its exchange is open; adding the
-- components then divides by 0, for creation and for redemption.
pub validate_etf-Faults :
    (e : TradedEtf) (o : OrderMessage)
    → e.creation_redemption_unit ≡ 0
    → (if str_eq o.side "D" then e.creation else e.redemption) ≡ true
    → let r = validate_etf (some e) o in
      (r.0 ≡ success)
      × (add_creation_component e r.1 ≡ none)
      × (add_redeption_component e r.1 ≡ none)
unfolding validate_etf add_creation_component add_redeption_component add_components
validate_etf-Faults e o h k = ground arith
