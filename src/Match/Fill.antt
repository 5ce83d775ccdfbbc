-- ===== src/Match/Fill.antt =====
-- `Match_Ordinary_Limit`, `Match_Optimal`, `Match_Optimal_And_Remainder_Cancel` and
-- `Match_All_Market_Or_Cancel`: an order is filled at the average price of the market, as far as the
-- volume goes. The four functions are the same but for the price limit and for what becomes of the rest.
use simutgw_src.Common.{
  ℕ, Bool, true, false, ◌/◌, Option, none, some, success, failure, sub64, mul64, ltb, if◌then◌else◌,
}
use simutgw_src.Trade.{match_all, match_part, cancel_match, OrderMessage}
use simutgw_src.Trade.Checks.{check_match_method}
use simutgw_src.Accounts.Orders.{update_after_trade}
use simutgw_src.Match.{Desk, Market, push_back}

-- The order after `n` of its shares are matched at a price, and the rest is not.
abbrev pub part_filled : ℕ → ℕ → OrderMessage → OrderMessage
part_filled price n o =
    let unmatched = sub64 o.leaves_qty n in
    record o {
      match_type = match_part;
      exec_type = "F";
      ord_status = "1";
      msg_type = "8";
      order_qty_matched = n;
      last_qty = n;
      price_matched = price;
      last_px = price;
      cash_order_qty_matched = mul64 price n;
      cash_order_qty_text = mul64 price n;
      order_qty_unmatched = unmatched;
      leaves_qty_text = unmatched;
      leaves_qty = unmatched;
      cum_qty = sub64 o.order_qty_origin unmatched;
      cash_order_qty_unmatched = mul64 unmatched o.order_price;
    }

-- The order after all that was left of it is matched. `ui64LeavesQty` stays as it is.
abbrev pub all_filled : ℕ → OrderMessage → OrderMessage
all_filled price o = record o {
  match_type = match_all;
  exec_type = "F";
  ord_status = "2";
  msg_type = "8";
  order_qty_matched = o.leaves_qty;
  last_qty = o.leaves_qty;
  price_matched = price;
  last_px = price;
  cash_order_qty_matched = mul64 price o.leaves_qty;
  cash_order_qty_text = mul64 price o.leaves_qty;
  order_qty_unmatched = 0;
  leaves_qty_text = 0;
  cum_qty = o.order_qty_origin;
  cash_order_qty_unmatched = 0;
}

-- `ProcCancelOrder::ProcSingleCancelOrder_Without_Request`, which pushes the message.
unfoldable pub cancelled_rest : OrderMessage → OrderMessage
cancelled_rest o = record o {
  match_type = cancel_match;
  msg_type = "8";
  exec_type = "4";
  ord_status = "4";
  last_px = 0;
  order_qty_origin = o.order_qty_text;
  last_qty = o.leaves_qty_text;
  cum_qty = o.leaves_qty_text;
  cash_order_qty_text = 0;
}

-- The order, what has changed, and `out_ui64Cjsl_Remain` and `out_ui64mCjje_Remain`.
abbrev pub Result : Type 0
Result = Option (OrderMessage × Desk × ℕ × ℕ)

-- `UserStockHelper::UpdateAfterTrade`, of which the code is not looked at.
abbrev pub after_trade : Market → ℕ → ℕ → OrderMessage → Desk → Result
after_trade m cjsl cjje o d = elim (update_after_trade m.world o d.cache) [
  | none ↦ none
  | some (code, o', c') ↦ some (o', record d { cache = c' }, cjsl, cjje)
]

-- What a partial match does with the rest: it is kept, or cancelled on the spot.
pub data Rest : Type 0 where
  keep_rest cancel_rest : Rest

abbrev pub with_rest : Rest → OrderMessage → Desk → OrderMessage × Desk
with_rest keep_rest o d = (o, d)
with_rest cancel_rest o d = (cancelled_rest o, (push_back (cancelled_rest o) d).1)

abbrev pub fill : Rest → Market → ℕ → ℕ → OrderMessage → Desk → Result
fill rest m cjsl cjje o d =
    let price = cjje / cjsl in
    if ltb cjsl o.leaves_qty
    then (let (o', d') = with_rest rest (part_filled price cjsl o) d in after_trade m 0 0 o' d')
    else after_trade m (sub64 cjsl o.leaves_qty) (sub64 cjje (mul64 o.leaves_qty price))
        (all_filled price o) d

-- What the four functions share.
abbrev pub checked_fill : Bool → Rest → Market → ℕ → ℕ → OrderMessage → Desk → Result
checked_fill limit rest m cjsl cjje o d = elim (check_match_method cjsl cjje limit o) [
  | none ↦ none
  | some (failure, o') ↦ some (o', d, 0, 0)
  | some (success, o') ↦ fill rest m cjsl cjje o' d
]

unfoldable pub match_ordinary_limit : Market → ℕ → ℕ → OrderMessage → Desk → Result
unfolding cancelled_rest
match_ordinary_limit m cjsl cjje o d = checked_fill true keep_rest m cjsl cjje o d

unfoldable pub match_optimal : Market → ℕ → ℕ → OrderMessage → Desk → Result
unfolding cancelled_rest
match_optimal m cjsl cjje o d = checked_fill false keep_rest m cjsl cjje o d

unfoldable pub match_optimal_and_remainder_cancel : Market → ℕ → ℕ → OrderMessage → Desk → Result
unfolding cancelled_rest
match_optimal_and_remainder_cancel m cjsl cjje o d = checked_fill false cancel_rest m cjsl cjje o d

unfoldable pub match_all_market_or_cancel : Market → ℕ → ℕ → OrderMessage → Desk → Result
unfolding cancelled_rest
match_all_market_or_cancel m cjsl cjje o d = checked_fill false cancel_rest m cjsl cjje o d
