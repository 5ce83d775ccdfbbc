-- ===== src/Trade/Declare.antt =====
-- `GetOrder_DEL_TYPE` of `AppId_010_OrderValide` (shared_src/simutgw/biz/AppId_010_OrderValide.cpp): the kind of a
-- declaration, from the texts of an order.
use simutgw_src.Common.{
  ℕ, String, Bool, true, ◌&&◌, ◌||◌, Option, none, some, Code, success, failure, ◌==◌, str_eq,
  if◌then◌else◌,
}
use simutgw_src.Trade.{
  DeclarationType, ordinary_limit, the_side_optimal, the_oppsite_side_optimal_and_remainder_hold,
  match_at_market_and_remainder_cancel, all_match_at_market_or_cancel,
  match_in_five_and_remainder_cancel, match_in_five_and_remainder_hold, error_match,
  unknown_order_type, error_trade_market, OrderMessage,
}

-- `strTimeInForce`, `strMaxPriceLevels` and the number in `strMinQty`.
pub record Terms : Type 0 where
  pub time_in_force : String
  pub max_price_levels : String
  pub min_qty : ℕ

abbrev pub has : Terms → String → String → Bool
has t tif levels = str_eq t.time_in_force tif && str_eq t.max_price_levels levels

-- Orders at the market, of Shenzhen.
abbrev pub market_del_type : Terms → OrderMessage → Option DeclarationType
market_del_type t o =
    if has t "0" "1" && (t.min_qty == 0)
    then some the_oppsite_side_optimal_and_remainder_hold
    else if has t "3" "0" && (t.min_qty == 0)
    then some match_at_market_and_remainder_cancel
    else if has t "3" "0" && (t.min_qty == o.order_qty_origin)
    then some all_match_at_market_or_cancel
    else if has t "3" "5" && (t.min_qty == 0)
    then some match_in_five_and_remainder_cancel
    else none

-- Orders of Shenzhen.
abbrev pub sz_del_type : Terms → OrderMessage → Option DeclarationType
sz_del_type t o =
    if str_eq o.ord_type "2" && str_eq t.max_price_levels "0"
    then if str_eq t.time_in_force "0" && (t.min_qty == 0) then some ordinary_limit else none
    else if str_eq o.ord_type "U"
    then if has t "0" "0" && (t.min_qty == 0) then some the_side_optimal else none
    else if str_eq o.ord_type "1"
    then market_del_type t o
    else none

-- Orders of Shanghai.
abbrev pub sh_del_type : OrderMessage → Option DeclarationType
sh_del_type o =
    if str_eq o.ord_type "LPT" || (str_eq o.ord_type "LRZ" || str_eq o.ord_type "LRQ")
    then some ordinary_limit
    else if str_eq o.ord_type "MPT"
    then some match_in_five_and_remainder_cancel
    else if str_eq o.ord_type "NPT"
    then some match_in_five_and_remainder_hold
    else none

-- An order of a kind that is not known keeps the kind it had.
abbrev pub declared : Option DeclarationType → OrderMessage → Code × OrderMessage
declared (some k) o = (success, record o { del_type = k })
declared none o =
    (failure, record o { error = unknown_order_type; data_error = true; match_type = error_match })

unfoldable pub get_order_del_type : Terms → OrderMessage → Code × OrderMessage
get_order_del_type t o =
    if str_eq o.trade_market "102"
    then declared (sz_del_type t o) o
    else if str_eq o.trade_market "101"
    then declared (sh_del_type o) o
    else (
      failure,
      record o {
        error = error_trade_market o.trade_market;
        data_error = true;
        match_type = error_match;
      },
    )
