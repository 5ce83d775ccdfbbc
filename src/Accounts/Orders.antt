-- ===== src/Accounts/Orders.antt =====
-- `UserStockHelper::UpdateAfterTrade` and `UpdateAfterCancel`: what a trade and a cancellation do to the
-- holdings.
use simutgw_src.Common.{
  ℕ, String, Bool, not, ◌||◌, Option, none, some, List, [], ◌∷◌, Code, success, add64, sub64, ltb,
  leb, ◌==◌, str_eq, if◌then◌else◌,
}
use simutgw_src.Stock.Sell.{sell_defroze}
use simutgw_src.Stock.SellEtf.{sell_etf_defroze}
use simutgw_src.Trade.{
  TradeType, a_trade, b_trade, etf_buy, etf_sell, etf_crt, etf_rdp, SysRunMode, normal_mode, Cps,
  FrozeComponent, OrderMessage,
}
use simutgw_src.Accounts.{Cache, Op, World, at_stock, succeed, ◌>>>◌}
use simutgw_src.Accounts.Synchronise.{
  cache_sell_syn, cache_sell_etf_syn, cache_add_syn, cache_add_etf_syn, cache_crt_etf_syn,
  cache_crt_component_syn, cache_rdp_etf_syn, cache_rdp_component_syn,
}
use simutgw_src.Accounts.Methods.{
  account_sell_confirm, account_sell_etf_confirm, account_creation_confirm,
  account_redemption_confirm, account_add_act, account_add_crt, account_add_rdp,
}

abbrev pub is_sell_side : String → Bool
is_sell_side side = str_eq side "S" || str_eq side "2"

abbrev pub is_buy_side : String → Bool
is_buy_side side = str_eq side "B" || str_eq side "1"

abbrev pub is_normal : SysRunMode → Bool
is_normal normal_mode = Bool.true
is_normal _ = Bool.false

-- `if (simutgw::SysRunMode::NormalMode == ...)`: a call that is made in this mode only.
abbrev pub in_normal_mode : OrderMessage → Op → Op
in_normal_mode o m c = if is_normal o.trade_policy.run_mode then m c else some (success, c)

-- `m; if (NormalMode) iRes = n;`: the code is that of the last call.
abbrev pub and_then : OrderMessage → Op → Op → Op
and_then o n m c = elim (m c) [
  | none ↦ none
  | some (code, c') ↦ if is_normal o.trade_policy.run_mode then n c' else some (code, c')
]

-- How a sale of ordinary shares divides the amount that was matched between what is frozen in the two
-- sources: what is taken of each, and what is left frozen.
unfoldable pub sell_split : ℕ → Cps → Cps × Cps
sell_split matched p =
    if leb matched (add64 p.first p.avl)
    then if leb matched p.first
      then (
        record { first = matched; avl = 0 },
        record { first = sub64 p.first matched; avl = p.avl },
      )
      else (
        record { first = p.first; avl = sub64 matched p.first },
        record { first = 0; avl = sub64 p.avl (sub64 matched p.first) },
      )
    else (p, record { first = 0; avl = 0 })

-- The same for the sale of ETF units. As written, a sale of all that is frozen takes its amounts from
-- `sellCps`, which is `other`.
unfoldable pub sell_etf_split : ℕ → Cps → Cps → Cps × Cps
sell_etf_split matched p other =
    if ltb matched (add64 p.first p.avl)
    then if ltb matched p.first
      then (
        record { first = matched; avl = 0 },
        record { first = sub64 p.first matched; avl = p.avl },
      )
      else (
        record { first = p.first; avl = sub64 matched p.first },
        record { first = 0; avl = sub64 p.avl (sub64 matched p.first) },
      )
    else (other, record { first = 0; avl = 0 })

-- An order message and the holdings, changed by a call.
abbrev pub OrderOp : Type 0
OrderOp = OrderMessage → Cache → Option (Code × OrderMessage × Cache)

-- A call on the holdings that comes after a change of the order.
abbrev pub with_order : OrderMessage → Op → Cache → Option (Code × OrderMessage × Cache)
with_order o m c = elim (m c) [ none ↦ none | some (code, c') ↦ some (code, o, c') ]

unfoldable pub update_sale : World → OrderOp
unfolding sell_split
update_sale w o c =
    let (taken, left) = sell_split o.order_qty_matched o.sell_cps in
    with_order (record o { sell_cps = left })
      (and_then o (cache_sell_syn o.account_id o.stock_id)
        (account_sell_confirm w o.account_id o.stock_id taken))
      c

unfoldable pub update_purchase : World → OrderOp
update_purchase w o c =
    with_order o
      (and_then o (cache_add_syn o.account_id o.stock_id)
        (account_add_act w o.account_id o.stock_id o.order_qty_matched))
      c

unfoldable pub update_etf_sale : World → OrderOp
unfolding sell_etf_split
update_etf_sale w o c =
    let (taken, left) = sell_etf_split o.order_qty_matched o.sell_etf_cps o.sell_cps in
    with_order (record o { sell_etf_cps = left })
      (and_then o (cache_sell_etf_syn o.account_id o.stock_id)
        (account_sell_etf_confirm w o.account_id o.stock_id taken))
      c

unfoldable pub update_etf_purchase : World → OrderOp
update_etf_purchase w o c =
    with_order o
      (and_then o (cache_add_etf_syn o.account_id o.stock_id)
        (account_add_act w o.account_id o.stock_id o.order_qty_matched))
      c

abbrev pub no_update : OrderOp
no_update o c = some (success, o, c)

abbrev pub update_ordinary : World → OrderOp
update_ordinary w o =
    if is_sell_side o.side
    then update_sale w o
    else if is_buy_side o.side
    then update_purchase w o
    else no_update o

-- By the type of the trade.
abbrev pub update_by_type : World → TradeType → OrderOp
update_by_type w a_trade = update_ordinary w
update_by_type w b_trade = update_ordinary w
update_by_type w etf_sell = update_etf_sale w
update_by_type w etf_buy = update_etf_purchase w
update_by_type w _ = no_update

unfoldable pub update_trade : World → OrderOp
update_trade w o c =
    if not o.trade_policy.check_assets
    then some (success, o, c)
    else update_by_type w o.trade_type o c

-- The rows "159900", the cash of an ETF, are passed over.
abbrev pub is_cash : FrozeComponent → Bool
is_cash f = str_eq f.security_id "159900"

abbrev pub each : (FrozeComponent → Op) → List FrozeComponent → Op
each f [] c = some (success, c)
each f (x ∷ xs) c = (if is_cash x then each f xs else f x >>> each f xs) c

unfoldable pub take_component : World → OrderMessage → FrozeComponent → Op
take_component w o f =
    account_creation_confirm w o.account_id f.security_id
      (record { first = f.act_pch_count; avl = f.avl_count })
    >>> in_normal_mode o (cache_crt_component_syn o.account_id f.security_id)

unfoldable pub give_component : World → OrderMessage → FrozeComponent → Op
give_component w o f =
    account_add_rdp w o.account_id f.security_id f.rdp_count
    >>> in_normal_mode o (cache_rdp_component_syn o.account_id f.security_id)

unfoldable pub creation_done : World → OrderMessage → Op
unfolding take_component
creation_done w o =
    each (take_component w o) o.froze_components
    >>> account_add_crt w o.account_id o.stock_id o.order_qty_matched
    >>> in_normal_mode o (cache_crt_etf_syn o.account_id o.stock_id)

unfoldable pub redemption_done : World → OrderMessage → Op
unfolding give_component
redemption_done w o =
    account_redemption_confirm w o.account_id o.stock_id o.rdp_etf_cps
    >>> in_normal_mode o (cache_rdp_etf_syn o.account_id o.stock_id)
    >>> each (give_component w o) o.froze_components

abbrev pub crt_rdp_by_type : World → TradeType → OrderMessage → Op
crt_rdp_by_type w etf_crt = creation_done w
crt_rdp_by_type w etf_rdp = redemption_done w
crt_rdp_by_type w _ = λ o. succeed

-- `UpdateETFCrtRdp`, which returns 0 whatever the calls return. The records of the match, which are written
-- for each component, are output.
unfoldable pub update_etf_crt_rdp : World → OrderOp
unfolding creation_done redemption_done
update_etf_crt_rdp w o c =
    if o.trade_policy.check_assets
    then with_order o (crt_rdp_by_type w o.trade_type o >>> succeed) c
    else some (success, o, c)

-- `UpdateCancel` does not look the holding up.
abbrev pub cancel_by_type : World → TradeType → OrderMessage → Op
cancel_by_type w etf_sell o =
    at_stock o.account_id o.stock_id
      (sell_etf_defroze w.time o.sell_etf_cps.first o.sell_etf_cps.avl)
cancel_by_type w a_trade o =
    if is_sell_side o.side
    then at_stock o.account_id o.stock_id (sell_defroze w.time o.sell_cps.first o.sell_cps.avl)
    else succeed
cancel_by_type w b_trade o =
    if is_sell_side o.side
    then at_stock o.account_id o.stock_id (sell_defroze w.time o.sell_cps.first o.sell_cps.avl)
    else succeed
cancel_by_type w _ o = succeed

unfoldable pub update_cancel : World → OrderMessage → Op
update_cancel w o c =
    if not o.trade_policy.check_assets || (o.leaves_qty == 0)
    then some (success, c)
    else cancel_by_type w o.trade_type o c

unfoldable pub update_after_trade : World → OrderOp
unfolding update_trade update_etf_crt_rdp
update_after_trade w o c =
    if str_eq o.trade_market "102"
    then if str_eq o.appl_id "010"
      then update_trade w o c
      else if str_eq o.appl_id "120"
      then update_etf_crt_rdp w o c
      else some (success, o, c)
    else if str_eq o.trade_market "101"
    then update_trade w o c
    else some (success, o, c)

unfoldable pub update_after_cancel : World → OrderMessage → Op
unfolding update_cancel
update_after_cancel w o c =
    if str_eq o.trade_market "102"
    then if str_eq o.appl_id "010" then update_cancel w o c else some (success, c)
    else if str_eq o.trade_market "101"
    then update_cancel w o c
    else some (success, c)
