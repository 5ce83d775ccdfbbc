-- ===== src/Trade/Sample.antt =====
-- An order for shares in Shenzhen, and one that sells 60 of 100 shares held, for the tests.
use simutgw_src.Common.{ℕ, ◌+◌, true, false, []}
use simutgw_src.Volume.{FrozeVolume}
use simutgw_src.Stock.{UserStockVolume}
use simutgw_src.Trade.{
  not_match, no_text, OrderMessage, ordinary_limit, trade_error, a_trade, mini_mode, enable_quota,
}

abbrev pub order : OrderMessage
order = record {
  data_error = false;
  side_code = 2;
  match_type = not_match;
  order_qty_origin = 500;
  leaves_qty = 500;
  order_price = 120;
  froze_components = [];
  trade_market = "102";
  trade_group = "";
  side = "D";
  ord_type = "2";
  market_branch_id = "C7";
  error_code = "";
  error = no_text;
  del_type = ordinary_limit;
  sell_cps = record { first = 0; avl = 0 };
  sell_etf_cps = record { first = 0; avl = 0 };
  rdp_etf_cps = record { first = 0; avl = 0 };
  order_qty_matched = 0;
  price_matched = 0;
  cash_order_qty_matched = 0;
  order_qty_unmatched = 0;
  cash_order_qty_unmatched = 0;
  trade_type = trade_error;
  account_id = "A1";
  sender_comp_id = "S1";
  stock_id = "600000";
  appl_id = "010";
  msg_type = "D";
  exec_type = "";
  ord_status = "";
  cl_ord_id = "1";
  orig_cl_ord_id = "";
  cxl_rej_reason = "";
  last_qty = 0;
  last_px = 0;
  leaves_qty_text = 500;
  cum_qty = 0;
  order_qty_text = 500;
  cash_order_qty_text = 0;
  trade_policy = record {
    run_mode = mini_mode;
    check_assets = true;
    match_mode = enable_quota;
    part_match_num = 4;
    rule_id = 0;
    has_rule_sh = false;
    has_rule_sz = false;
  };
}

abbrev pub sale : OrderMessage
sale = record order {
  trade_type = a_trade;
  side = "2";
  leaves_qty = 60;
  sell_cps = record { first = 20; avl = 40 };
}

-- A counter with `n` free and `m` frozen.
abbrev counter : ℕ → ℕ → FrozeVolume
counter n m = record { latest_syn_volume = n + m; un_froze_volume = n; forze_volume = m }

-- 100 shares: 30 bought today, 20 redeemed and 50 available, of which 60 are frozen for the sale.
abbrev pub held_for_sale : UserStockVolume
held_for_sale = record {
  stored = true;
  stk_balance = counter 40 60;
  stk_act_pch_balance = counter 30 0;
  stk_stp_pch_balance = counter 0 0;
  stk_etf_rdp_balance = counter 0 20;
  stk_crt_balance = counter 0 0;
  stk_avl_balance = counter 10 40;
  stk_last_balance = counter 90 0;
  last_access_time = 1000;
  time_interval = 600;
  expire = false;
}
