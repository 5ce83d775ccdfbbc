-- ===== src/Prep.antt =====
-- `TradePrep` and `GetTradeType` of `PreTrade` (shared_src/simutgw/biz/PreTrade.cpp), and `CreationQuery` of
-- `UserStockHelper`: an order is dispatched by its kind, and freezes what it sells or gives. What is outside
-- stands in `Doubles` and `Sources`; log output is left out.
pub mod Creation
pub mod Dispatch
pub mod Kinds
pub mod Freeze
pub mod Sales
pub mod Query
mod Examples
use Prim.Native.String.{len}
use simutgw_src.Common.{
  ℕ, String, Bool, not, Option, List, map, ◌==◌, str_eq, if◌then◌else◌, true, false,
}
use simutgw_src.Trade.{
  TradeType, trade_error, cancel, a_trade, etf_buy, etf_sell, etf_crt, etf_rdp, OrderMessage,
}
use simutgw_src.Trade.Checks.{Quotation}
use simutgw_src.Trade.Etf.{Component, TradedEtf}
use simutgw_src.Accounts.{World}
use simutgw_src.Accounts.Securities.{head_2, is_etf_head}
use simutgw_src.Accounts.Orders.{is_sell_side, is_buy_side}

-- The operations on `double` that the source uses.
pub record Doubles : Type 1 where
  pub Double : Type 0
  -- A `uint64_t` times a `double`.
  pub times : ℕ → Double → Double
  -- A `double` less a `uint64_t`.
  pub minus : Double → ℕ → Double
  -- `0 > d`.
  pub is_negative : Double → Bool
  -- `(uint64_t)(n * (1 + d))`.
  pub with_premium : ℕ → Double → ℕ

-- `emSubstituteFlag`. The last stands for any other number.
pub data SubstituteFlag : Type 0 where
  only_security security_and_cash only_cash other_flag : SubstituteFlag

-- `SzETFComponent` and `SzETF`, as far as they are read.
pub record EtfComponent (D : Type 0) : Type 0 where
  pub component : Component
  pub substitute_flag : SubstituteFlag
  pub premium_ratio : D
  pub creation_cash_substitute : ℕ

pub record EtfInfo (D : Type 0) : Type 0 where
  pub creation_redemption_unit : ℕ
  pub nav_per_cu : ℕ
  pub max_cash_ratio : D
  pub creation : Bool
  pub redemption : Bool
  pub components : List (EtfComponent D)

-- What `ValidateETF` and the components of an order read of it.
abbrev pub traded_etf : {D : Type 0} → EtfInfo D → TradedEtf
traded_etf e = record {
  creation_redemption_unit = e.creation_redemption_unit;
  creation = e.creation;
  redemption = e.redemption;
  components = map (λ x. x.component) e.components;
}

-- The database, the quotations by security and circle, `GetCurrStaticQuot` with the last closing price and `TPBZ`, and
-- `ETFHelper::Query`.
pub record Sources (D : Type 0) : Type 0 where
  pub world : World
  pub quotes : String → String → Option Quotation
  pub static_quot : String → Option (ℕ × String)
  pub etf_query : String → Option (EtfInfo D)

abbrev pub type_by_side : Bool → String → TradeType
type_by_side etf side =
    if is_buy_side side
    then if etf then etf_buy else a_trade
    else if is_sell_side side
    then if etf then etf_sell else a_trade
    else if str_eq side "D"
    then if etf then etf_crt else trade_error
    else if str_eq side "E"
    then if etf then etf_rdp else trade_error
    else trade_error

-- `GetTradeType`: the kind, and the order, which keeps what it had if the number of the security has not six
-- characters.
unfoldable pub get_trade_type : OrderMessage → TradeType × OrderMessage
get_trade_type o =
    if not (len o.stock_id == 6)
    then (trade_error, o)
    else (let t =
          if str_eq o.msg_type "F"
          then cancel
          else type_by_side (is_etf_head (head_2 o.stock_id)) o.side in
        (t, record o { trade_type = t }))
