-- ===== src/Trade.antt =====
-- The checks of an order before it is traded: `PreTrade` and `MatchUtil` (shared_src/simutgw/biz/), on
-- the fields of `OrderMessage` that they and the other parts read and write. `TradePrep` and `GetTradeType`
-- are in Prep. An error text is held as what it is made of.
pub mod Checks
pub mod Etf
pub mod Prices
pub mod Components
pub mod Sample
pub mod Declare
pub mod Rows
pub mod Declarations
mod Examples
use simutgw_src.Common.{ℕ, String, Bool, List}

pub data MatchType : Type 0 where
  match_all match_part cancel_match not_match out_of_range stop_trans error_match : MatchType

-- `strError`.
pub data ErrorText : Type 0 where
  no_text is_halted : ErrorText
  beyond_limits : ℕ → ℕ → ErrorText
  simulated_error unknown_order_type : ErrorText
  error_trade_market : String → ErrorText
  below_average above_average : ℕ → ErrorText
  unknown_side : String → ErrorText

-- `EtfCrt_FrozeComponent`.
pub record FrozeComponent : Type 0 where
  pub security_id : String
  pub act_pch_count : ℕ
  pub avl_count : ℕ
  pub cash : ℕ
  pub rdp_count : ℕ

-- `enum TADE_TYPE`; `trade_error` is -1.
pub data TradeType : Type 0 where
  trade_error cancel a_trade b_trade margin_cash margin_stock : TradeType
  etf_buy etf_sell etf_crt etf_rdp : TradeType

-- `enum DECLARATION_TYPE`, by the words that tell them apart. The last stands for any other number.
pub data DeclarationType : Type 0 where
  ordinary_limit the_side_optimal the_oppsite_side_optimal_and_remainder_hold : DeclarationType
  match_at_market_and_remainder_cancel all_match_at_market_or_cancel : DeclarationType
  match_in_five_and_remainder_cancel match_in_five_and_remainder_hold : DeclarationType
  other_declaration : DeclarationType

pub data SysRunMode : Type 0 where
  pressure_mode mini_mode normal_mode : SysRunMode

-- The last stands for any other number.
pub data SysMatchMode : Type 0 where
  enable_quota simul_match_all simul_match_by_divide simul_not_match simul_err_match : SysMatchMode
  simul_match_part other_match_mode : SysMatchMode

-- `ptrRule_Sh` and `ptrRule_Sz` by whether they are there.
pub record TradePolicyCell : Type 0 where
  pub run_mode : SysRunMode
  pub check_assets : Bool
  pub match_mode : SysMatchMode
  pub part_match_num : ℕ
  pub rule_id : ℕ
  pub has_rule_sh : Bool
  pub has_rule_sz : Bool

-- `SellCps`, `SellETFCps` and `RdpETFCps`: what is frozen for the order in its first source and in the
-- available shares. The structs differ in the name of the first: `ui64Etf_rdp`, `ui64Etf_crt` and
-- `ui64Act_pch`.
pub record Cps : Type 0 where
  pub first : ℕ
  pub avl : ℕ

-- A text that holds a number is held as the number: `strLastQty`, `strLastPx`, `strLeavesQty`, `strCumQty`,
-- `strOrderqty_origin` and `strCashorderqty`. The random identifiers and the time of a trade are left out.
pub record OrderMessage : Type 0 where
  pub data_error : Bool
  pub side_code : ℕ
  pub match_type : MatchType
  pub order_qty_origin : ℕ
  pub leaves_qty : ℕ
  pub order_price : ℕ
  pub froze_components : List FrozeComponent
  pub trade_market : String
  pub trade_group : String
  pub side : String
  pub ord_type : String
  pub market_branch_id : String
  pub error_code : String
  pub error : ErrorText
  pub del_type : DeclarationType
  pub sell_cps : Cps
  pub sell_etf_cps : Cps
  pub rdp_etf_cps : Cps
  pub order_qty_matched : ℕ
  pub price_matched : ℕ
  pub cash_order_qty_matched : ℕ
  pub order_qty_unmatched : ℕ
  pub cash_order_qty_unmatched : ℕ
  pub trade_type : TradeType
  pub account_id : String
  pub sender_comp_id : String
  pub stock_id : String
  pub appl_id : String
  pub msg_type : String
  pub exec_type : String
  pub ord_status : String
  pub cl_ord_id : String
  pub orig_cl_ord_id : String
  pub cxl_rej_reason : String
  pub last_qty : ℕ
  pub last_px : ℕ
  pub leaves_qty_text : ℕ
  pub cum_qty : ℕ
  pub order_qty_text : ℕ
  pub cash_order_qty_text : ℕ
  pub trade_policy : TradePolicyCell
