-- ===== src/Match/Examples.antt =====
-- Tests of the match tasks, and instances of the theorems.
use simutgw_src.Common.{
  ◌/◌, ◌≡◌, ◌⊎◌, inl, inr, refl, none, some, Option, List, ℕ, ◌∷◌, [], success, failure, arith,
}
use simutgw_src.Trade.{OrderMessage, match_part, a_trade, simul_match_by_divide}
use simutgw_src.Trade.Prices.{MayMatch, Waits}
use simutgw_src.Trade.Sample.{order, sale, held_for_sale}
use simutgw_src.Accounts.{store}
use simutgw_src.Accounts.Split.{Backed}
use simutgw_src.Accounts.Fills.{IsSale, shenzhen}
use simutgw_src.Accounts.Orders.{update_after_trade}
use simutgw_src.Match.{Desk, Market, task_kind, gen_task_match, push_back}
use simutgw_src.Match.Simulated.{divide_qty, match_order}
use simutgw_src.Match.Bounds.{limit, remainder_cancel, match_by, is_limit, Fills, match_by-Fills}
use simutgw_src.Match.Holdings.{IsHeld, Sells, match_by-Sells}
use simutgw_src.Match.Rounds.{IsDivided}
use simutgw_src.Match.Divide.{serve, amounts, Filled, serve-gen_task_match}

abbrev market : Market
market = record {
  world = record { time = 1001; rows = λ account stock. none };
  quotation = λ circle. none;
  write_result = success;
  assign_result = success;
}

abbrev desk : Desk
desk = record {
  cache = store "A1" "600000" held_for_sale (record { user_stock = []; statements = [] });
  out_msgs = [];
  tasks = [];
  written = [];
}

sale-IsSale : IsSale sale
sale-IsSale = record { listed = shenzhen refl refl; type = inl refl; side = refl; checked = refl }

sale-Backed : Backed held_for_sale sale.sell_cps
sale-Backed = ground arith

sale-IsHeld : IsHeld sale held_for_sale desk.cache
sale-IsHeld = record {
  sale = sale-IsSale;
  found = refl;
  backed = sale-Backed;
  enough = omega arith;
  size = omega arith;
}

-- 10 shares in parts of 3.
parts_of_10 : divide_qty 3 10 ≡ (match_part, 3)
unfolding divide_qty
parts_of_10 = refl

match_by-Fills_example :
    (MayMatch (5000 / 40) (is_limit limit) sale
      × Fills 40 5000 sale (match_by limit market 40 5000 sale desk))
    ⊎ ((¬ MayMatch (5000 / 40) (is_limit limit) sale)
        × (o' : OrderMessage) × (match_by limit market 40 5000 sale desk ≡ some (o', desk, 0, 0))
        × Waits sale o')
match_by-Fills_example =
    match_by-Fills limit market 40 5000 sale desk (omega arith) (omega arith) (omega arith)
      (omega arith) refl

match_by-Sells_example :
    Sells 40 sale held_for_sale (match_by remainder_cancel market 40 5000 sale desk)
match_by-Sells_example =
    match_by-Sells remainder_cancel market 40 5000 sale held_for_sale desk sale-IsHeld (omega arith)
      (inr (refl, inl refl))

-- 500 shares in four parts.
abbrev divided : OrderMessage
divided = record order {
  trade_type = a_trade;
  trade_policy = record order.trade_policy { match_mode = simul_match_by_divide };
}

divided-IsDivided : IsDivided divided
unfolding task_kind
divided-IsDivided = record {
  kind = refl;
  mode = refl;
  parts = omega arith;
  quick = refl;
  size = omega arith;
  leaves = omega arith;
}

serve-gen_task_match_example : Filled 500 (serve 4 market (gen_task_match market divided desk).1)
serve-gen_task_match_example =
    serve-gen_task_match 4 market divided desk refl divided-IsDivided (omega arith) (omega arith)
      refl

-- The orders of a run.
abbrev run_orders : Option (List OrderMessage × Desk) → List ℕ
run_orders none = []
run_orders (some (os, d)) = amounts os

-- 500 shares in four parts are matched by 125 each time, and a fifth match finds no task.
four_parts :
    run_orders (serve 5 market (gen_task_match market divided desk).1) ≡ 125 ∷ 125 ∷ 125 ∷ 125 ∷ []
unfolding serve gen_task_match match_order push_back divide_qty update_after_trade
four_parts = refl

-- A pool that takes no task leaves the order with no match.
dropped :
    serve 4 market (gen_task_match (record market { assign_result = failure }) divided desk).1
    ≡ some ([], desk)
unfolding serve gen_task_match
dropped = refl

-- The request to cancel the sale.
abbrev request : OrderMessage
request = record order { cl_ord_id = "2"; orig_cl_ord_id = "1" }
