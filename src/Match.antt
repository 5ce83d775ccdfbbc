-- ===== src/Match.antt =====
-- `Task_ABStockMatch` (shared_src/simutgw/work_manage/Task_ABStockMatch.cpp): an order for shares or for ETF
-- units is matched, against the quotation or without it, and its trade updates the holdings.
-- Counters of matches and log output are left out.

pub mod Fill
pub mod Quoted
pub mod Simulated
pub mod Etf
pub mod Cancel
pub mod Bounds
pub mod Rounds
pub mod Divide
pub mod Holdings
pub mod Release
mod Examples
use simutgw_src.Common.{
  ℕ, String, Bool, true, false, Option, none, some, List, [], ◌∷◌, Code, success, failure, ◌==◌,
  str_eq, if◌then◌else◌, not,
}
use simutgw_src.Trade.{
  TradeType, trade_error, cancel, a_trade, b_trade, margin_cash, margin_stock, etf_buy, etf_sell,
  etf_crt, etf_rdp, OrderMessage,
}
use simutgw_src.Accounts.{Cache, World}

-- The tasks that an order can be handed on as.
pub data TaskKind : Type 0 where
  cancel_order ab_stock_match etf_match sh_rule_match sz_rule_match : TaskKind

-- What a task changes: the holdings; `g_outMsg_buffer`, the last message first, each as it is when it is
-- pushed; the tasks given to `g_mtskPool_match_cancel`, the last one first; and what was written to the
-- quotation, the volume and the money that are left for a circle.
pub record Desk : Type 0 where
  pub cache : Cache
  pub out_msgs : List OrderMessage
  pub tasks : List (TaskKind × OrderMessage)
  pub written : List (String × ℕ × ℕ)

-- What `MarketInfoHelper` gives for a security and a side: the limits of the day, the volume and the money
-- that are left to be matched, and whether the security is halted.
pub record MarketQuotation : Type 0 where
  pub max_gain : ℕ
  pub min_fall : ℕ
  pub cjsl : ℕ
  pub cjje : ℕ
  pub tpbz : String

-- What a task meets: the quotation of each circle, the results of writing to it and of assigning a task.
pub record Market : Type 0 where
  pub world : World
  pub quotation : String → Option MarketQuotation
  pub write_result : Code
  pub assign_result : Code

abbrev pub kind_by_type : TradeType → Option TaskKind
kind_by_type cancel = some cancel_order
kind_by_type a_trade = some ab_stock_match
kind_by_type b_trade = some ab_stock_match
kind_by_type margin_cash = some ab_stock_match
kind_by_type margin_stock = some ab_stock_match
kind_by_type etf_buy = some ab_stock_match
kind_by_type etf_sell = some ab_stock_match
kind_by_type etf_crt = some etf_match
kind_by_type etf_rdp = some etf_match
kind_by_type trade_error = none

-- The kind of task for an order, if there is one.
unfoldable pub task_kind : OrderMessage → Option TaskKind
task_kind o =
    if not (o.trade_policy.rule_id == 0)
    then if o.trade_policy.has_rule_sh
      then some sh_rule_match
      else if o.trade_policy.has_rule_sz
      then some sz_rule_match
      else none
    else kind_by_type o.trade_type

-- `GenTaskHelper::GenTask_Match`. A task that the pool does not take is dropped.
unfoldable pub gen_task_match : Market → OrderMessage → Desk → Code × Desk
unfolding task_kind
gen_task_match m o d = elim (task_kind o) [
  | none ↦ (failure, d)
  | some k ↦ elim m.assign_result [
    | success ↦ (success, record d { tasks = (k, o) ∷ d.tasks })
    | failure ↦ (failure, d)
  ]
]

-- `OutMemoryManage::PushBack` (shared_src/simutgw/order/OutMemoryManage.cpp). The queues by connection and the
-- one of Shanghai are one list here. A Shenzhen message without a sender, and one of another market, is
-- dropped.
unfoldable pub push_back : OrderMessage → Desk → Code × Desk
push_back o d =
    if str_eq o.trade_market "102"
    then if str_eq o.sender_comp_id ""
      then (failure, d)
      else (success, record d { out_msgs = o ∷ d.out_msgs })
    else if str_eq o.trade_market "101"
    then (success, record d { out_msgs = o ∷ d.out_msgs })
    else (failure, d)
