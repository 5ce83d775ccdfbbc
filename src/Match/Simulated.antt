-- ===== src/Match/Simulated.antt =====
-- The matches that do not look at the quotation, and `MatchOrder`, which chooses by the mode.
use simutgw_src.Common.{
  ℕ, ◌/◌, true, not, Option, none, some, Code, success, sub64, mul64, leb, ◌==◌, if◌then◌else◌,
}
use simutgw_src.Trade.{
  MatchType, match_all, match_part, error_match, simulated_error, enable_quota, simul_match_all,
  simul_match_by_divide, simul_not_match, simul_err_match, simul_match_part, other_match_mode,
  SysMatchMode, OrderMessage,
}
use simutgw_src.Trade.Checks.{market_code}
use simutgw_src.Accounts.Orders.{update_after_trade}
use simutgw_src.Match.{Desk, Market, push_back, gen_task_match}
use simutgw_src.Match.Fill.{all_filled}
use simutgw_src.Match.Quoted.{ab_stock_enable_quo_match}

abbrev pub Answer : Type 0
Answer = Option (Code × OrderMessage × Desk)

-- The holdings are updated and the message is pushed.
abbrev pub traded : Market → OrderMessage → Desk → Option (OrderMessage × Desk)
traded m o d = elim (update_after_trade m.world o d.cache) [
  | none ↦ none
  | some (code, o', c') ↦ some (o', (push_back o' (record d { cache = c' })).1)
]

unfoldable pub ab_stock_match_all : Market → OrderMessage → Desk → Answer
ab_stock_match_all m o d = elim (traded m (all_filled o.order_price o) d) [
  | none ↦ none
  | some (o', d') ↦ some (success, o', d')
]

-- The amount to match next, and the type of the match.
unfoldable pub divide_qty : ℕ → ℕ → MatchType × ℕ
divide_qty part leaves =
    if part == 0
    then (match_all, leaves)
    else if leb (mul64 2 part) leaves
    then (match_part, part)
    else if leb part leaves
    then (match_all, leaves)
    else (match_all, leaves)

-- The order after a match without quotation of a part of it, at its own price.
abbrev pub simulated : MatchType → ℕ → OrderMessage → OrderMessage
simulated type n o =
    let unmatched = sub64 o.leaves_qty n in
    record o {
      match_type = type;
      exec_type = "F";
      ord_status = "1";
      msg_type = "8";
      order_qty_matched = n;
      last_qty = n;
      price_matched = o.order_price;
      last_px = o.order_price;
      cash_order_qty_matched = mul64 o.order_price n;
      cash_order_qty_text = mul64 o.order_price n;
      order_qty_unmatched = unmatched;
      leaves_qty = unmatched;
      leaves_qty_text = unmatched;
      cum_qty = n;
      cash_order_qty_unmatched = 0;
    }

-- What is left is handed on.
abbrev pub traded_on : Market → OrderMessage → Desk → Answer
traded_on m o d = elim (traded m o d) [
  | none ↦ none
  | some (o', d') ↦
      some (success, o', if not (o'.leaves_qty == 0) then (gen_task_match m o' d').1 else d')
]

-- `none` also stands for the division by 0 parts.
unfoldable pub ab_stock_match_divide : Market → OrderMessage → Desk → Answer
unfolding divide_qty
ab_stock_match_divide m o d =
    if o.trade_policy.part_match_num == 0
    then none
    else (let (type, n) =
          divide_qty (o.order_qty_origin / o.trade_policy.part_match_num) o.leaves_qty in
        traded_on m (simulated type n o) d)

unfoldable pub ab_stock_match_un_match : Market → OrderMessage → Desk → Answer
ab_stock_match_un_match m o d = some (success, o, (gen_task_match m o d).1)

unfoldable pub ab_stock_match_error : Market → OrderMessage → Desk → Answer
unfolding ab_stock_match_un_match
ab_stock_match_error m o d =
    if o.leaves_qty == o.order_qty_origin
    then (let o' = record o {
      match_type = error_match;
      data_error = true;
      error = simulated_error;
      error_code = market_code "20001" "215" o;
    } in
        some (success, o', (push_back o' d).1))
    else ab_stock_match_un_match m o d

unfoldable pub ab_stock_match_part : Market → OrderMessage → Desk → Answer
ab_stock_match_part m o d =
    if not (o.leaves_qty == o.order_qty_origin)
    then some (success, o, (gen_task_match m o d).1)
    else if o.order_qty_origin == 1
    then traded_on m (simulated match_all o.order_qty_origin o) d
    else traded_on m (simulated match_part (o.order_qty_origin / 2) o) d

-- A mode that is not known is logged, and 0 is returned.
abbrev pub by_mode : SysMatchMode → Market → OrderMessage → Desk → Answer
by_mode enable_quota = ab_stock_enable_quo_match
by_mode simul_match_all = ab_stock_match_all
by_mode simul_match_by_divide = ab_stock_match_divide
by_mode simul_not_match = ab_stock_match_un_match
by_mode simul_err_match = ab_stock_match_error
by_mode simul_match_part = ab_stock_match_part
by_mode other_match_mode = λ m o d. some (success, o, d)

unfoldable pub match_order : Market → OrderMessage → Desk → Answer
unfolding ab_stock_match_all ab_stock_match_divide ab_stock_match_un_match ab_stock_match_error
    ab_stock_match_part ab_stock_enable_quo_match
match_order m o d = by_mode o.trade_policy.match_mode m o d
