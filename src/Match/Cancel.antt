-- ===== src/Match/Cancel.antt =====
-- `Task_CancelOrder` (shared_src/simutgw/work_manage/Task_CancelOrder.cpp): the request to cancel an order that
-- waits to be matched.
use simutgw_src.Common.{Option, none, some, Code, success, is_ok, sub64, if◌then◌else◌}
use simutgw_src.Trade.{cancel_match, OrderMessage}
use simutgw_src.Accounts.Orders.{update_after_cancel}
use simutgw_src.Match.{Desk, Market, push_back}

-- `ProcCancelFail_OrigIsProc`: the request is answered with a refusal.
unfoldable pub refused : OrderMessage → OrderMessage
refused req = record req {
  msg_type = "9";
  match_type = cancel_match;
  ord_status = "2";
  cxl_rej_reason = "20096";
}

-- `ProcCancelSuccess`: the order as it is reported. `req` is the request.
unfoldable pub cancelled : OrderMessage → OrderMessage → OrderMessage
cancelled req o = record o {
  match_type = cancel_match;
  msg_type = "8";
  exec_type = "4";
  ord_status = "4";
  orig_cl_ord_id = req.orig_cl_ord_id;
  cl_ord_id = req.cl_ord_id;
  last_px = 0;
  price_matched = 0;
  order_qty_unmatched = o.leaves_qty_text;
  order_qty_origin = o.order_qty_text;
  last_qty = o.leaves_qty_text;
  order_qty_matched = o.leaves_qty_text;
  leaves_qty_text = 0;
  cum_qty = sub64 o.order_qty_text o.leaves_qty_text;
}

-- The shares are released, if the account is checked.
abbrev pub released : Market → OrderMessage → Desk → Option (Code × Desk)
released m o d =
    if o.trade_policy.check_assets
    then elim (update_after_cancel m.world o d.cache) [
      | none ↦ none
      | some (code, c') ↦ some (code, record d { cache = c' })
    ]
    else some (success, d)

-- `ProcSingleCancelOrder`. The order is that of the task which `DeleteIfHaveTask` has found in the queue and
-- taken out of it, or none, also when there is no queue.
unfoldable pub proc_single_cancel_order :
    Market → Option OrderMessage → OrderMessage → Desk → Option (Code × Desk)
unfolding refused cancelled
proc_single_cancel_order m orig req d = elim orig [
  | none ↦ some (push_back (refused req) d)
  | some o ↦
      let (code, d') = push_back (cancelled req o) d in
      if is_ok code then released m (cancelled req o) d' else some (code, d')
]
