-- ===== src/Trade/Etf.antt =====
-- `ValidateETF`, `AddCreationComponent` and `AddRedeptionComponent` of `PreTrade`.
use simutgw_src.Common.{
  ℕ, String, ◌/◌, Bool, not, Option, none, some, List, ◌++◌, map, Code, success, failure, ltb, ◌==◌,
  mul64, str_eq, if◌then◌else◌,
}
use simutgw_src.Trade.{not_match, error_match, FrozeComponent, OrderMessage}

-- `SzETFComponent` and `SzETF`, as far as they are read here.
pub record Component : Type 0 where
  pub underlying_security_id : String
  pub component_share : ℕ
  pub redemption_cash_substitute : ℕ

pub record TradedEtf : Type 0 where
  pub creation_redemption_unit : ℕ
  pub creation : Bool
  pub redemption : Bool
  pub components : List Component

-- The result of `ETFHelper::Query` is an argument.
unfoldable pub validate_etf : Option TradedEtf → OrderMessage → Code × OrderMessage
validate_etf etf o =
    let o1 = record o { match_type = not_match } in
    let refused : Code × OrderMessage = (failure, record o { match_type = error_match }) in
    elim etf [
      | none ↦ (failure, o1)
      | some e ↦
          if not (if str_eq o.side "D" then e.creation else e.redemption)
          then refused
          else if ltb o.order_qty_origin e.creation_redemption_unit
          then refused
          else (success, o1)
    ]

-- One round of the loops. A new component begins with all its numbers 0.
abbrev pub creation_component : ℕ → Component → FrozeComponent
creation_component times c = record {
  security_id = c.underlying_security_id;
  act_pch_count = mul64 c.component_share times;
  avl_count = 0;
  cash = mul64 c.redemption_cash_substitute times;
  rdp_count = 0;
}

abbrev pub redemption_component : ℕ → Component → FrozeComponent
redemption_component times c = record {
  security_id = c.underlying_security_id;
  act_pch_count = 0;
  avl_count = 0;
  cash = mul64 c.redemption_cash_substitute times;
  rdp_count = mul64 c.component_share times;
}

-- The loops, and `none` for the division by a unit of 0.
unfoldable pub add_components :
    (ℕ → Component → FrozeComponent) → TradedEtf → OrderMessage → Option OrderMessage
add_components one e o =
    if e.creation_redemption_unit == 0
    then none
    else some (record o {
      froze_components =
          o.froze_components
          ++ map (one (o.order_qty_origin / e.creation_redemption_unit)) e.components;
    })

unfoldable pub add_creation_component : TradedEtf → OrderMessage → Option OrderMessage
unfolding add_components
add_creation_component e o = add_components creation_component e o

unfoldable pub add_redeption_component : TradedEtf → OrderMessage → Option OrderMessage
unfolding add_components
add_redeption_component e o = add_components redemption_component e o
