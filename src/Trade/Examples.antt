-- ===== src/Trade/Examples.antt =====
-- A sale in Shenzhen, and an order to create units of an ETF.
use simutgw_src.Common.{
  arith, String, ◌≡◌, ◌⊎◌, refl, true, false, Option, some, [], ◌∷◌, success, failure,
}
use simutgw_src.Trade.{OrderMessage, DeclarationType, all_match_at_market_or_cancel}
use simutgw_src.Trade.Declare.{Terms, get_order_del_type}
use simutgw_src.Trade.Rows.{Declares, LimitAllOrCancel}
use simutgw_src.Trade.Rows.{Declares, LimitAllOrCancel}
use simutgw_src.Trade.Declarations.{Refused, get_order_del_type-Declares}
use simutgw_src.Trade.Sample.{order}
use simutgw_src.Trade.Checks.{Quotation, check_order_by_quotation}
use simutgw_src.Trade.Etf.{TradedEtf}
use simutgw_src.Trade.Prices.{IsAllowed, Marked, check_order_by_quotation-IsAllowed}

abbrev quote : Quotation
quote = record { max_gain = 110; min_fall = 90; tpbz = "F" }

abbrev quotes : String → Option Quotation
quotes circle = some quote

abbrev etf : TradedEtf
etf = record {
  creation_redemption_unit = 100;
  creation = true;
  redemption = false;
  components =
      record {
        underlying_security_id = "600000";
        component_share = 300;
        redemption_cash_substitute = 7;
      }
      ∷ [];
}

abbrev etf_without_unit : TradedEtf
etf_without_unit = record etf { creation_redemption_unit = 0 }

check_order_by_quotation-IsAllowed_example :
    (IsAllowed quote order × (check_order_by_quotation quotes order ≡ (success, order)))
    ⊎ ((¬ IsAllowed quote order) × Marked order (check_order_by_quotation quotes order))
check_order_by_quotation-IsAllowed_example =
    check_order_by_quotation-IsAllowed quotes quote order refl

-- An order of Shenzhen at the market for the whole quantity.
abbrev market_order : OrderMessage
market_order = record order { ord_type = "1" }

abbrev whole : Terms
whole = record { time_in_force = "3"; max_price_levels = "0"; min_qty = 500 }

declared_kind : (get_order_del_type whole market_order).1.del_type ≡ all_match_at_market_or_cancel
unfolding get_order_del_type
declared_kind = refl

-- A limit order for the whole quantity is given no kind.
refused_limit : (get_order_del_type whole order).0 ≡ failure
unfolding get_order_del_type
refused_limit = refl

get_order_del_type-Declares_example :
    ((k : DeclarationType) × Declares whole market_order k
      × (get_order_del_type whole market_order ≡ (success, record market_order { del_type = k }))
      × ((j : DeclarationType) → Declares whole market_order j → j ≡ k)
      × (¬ LimitAllOrCancel whole market_order))
    ⊎ (LimitAllOrCancel whole market_order
        × ((k : DeclarationType) → ¬ Declares whole market_order k)
        × Refused market_order (get_order_del_type whole market_order))
    ⊎ ((¬ LimitAllOrCancel whole market_order)
        × ((k : DeclarationType) → ¬ Declares whole market_order k)
        × Refused market_order (get_order_del_type whole market_order))
get_order_del_type-Declares_example = get_order_del_type-Declares whole market_order (omega arith)
