-- ===== src/Prep/Dispatch.antt =====
-- `TradePrep` (shared_src/simutgw/biz/PreTrade.cpp).
use simutgw_src.Common.{
  Bool, true, false, not, ◌&&◌, Option, none, some, Code, success, failure, is_ok, if◌then◌else◌,
}
use simutgw_src.Trade.{
  TradeType, trade_error, a_trade, b_trade, etf_buy, etf_sell, etf_crt, etf_rdp, SysMatchMode,
  enable_quota, error_match, OrderMessage,
}
use simutgw_src.Trade.Checks.{check_order_by_quotation}
use simutgw_src.Trade.Etf.{validate_etf, add_creation_component, add_redeption_component}
use simutgw_src.Accounts.{Cache}
use simutgw_src.Accounts.Methods.{
  account_sell_froze, account_sell_etf_froze, account_redemption_froze,
}
use simutgw_src.Accounts.Orders.{is_sell_side}
use simutgw_src.Prep.{Doubles, EtfInfo, Sources, traded_etf, get_trade_type}
use simutgw_src.Prep.Creation.{account_creation_query}

-- 0, -1 and -2.
pub data PrepCode : Type 0 where
  prepared froze_failed quotation_failed : PrepCode

abbrev pub Prep : Type 0
Prep = Option (PrepCode × OrderMessage × Cache)

abbrev pub uses_quotation : SysMatchMode → Bool
uses_quotation enable_quota = true
uses_quotation _ = false

-- The last lines.
abbrev pub finish : Code → OrderMessage → Cache → Prep
finish success o c = some (prepared, o, c)
finish failure o c = some (froze_failed, record o { match_type = error_match }, c)

module _ (d : Doubles) (q : Sources d.Double) where
  -- The check by quotation, in the mode that uses it.
  unfoldable pub by_quotation : OrderMessage → Code × OrderMessage
  by_quotation o =
      if uses_quotation o.trade_policy.match_mode
      then check_order_by_quotation (q.quotes o.stock_id) o
      else (success, o)

  -- The freeze of a sale of shares, and of ETF units.
  unfoldable pub prep_sale : OrderMessage → Cache → Prep
  prep_sale o c =
      if o.trade_policy.check_assets && is_sell_side o.side
      then elim (account_sell_froze q.world o.account_id o.stock_id o.leaves_qty o.sell_cps c) [
        | none ↦ none
        | some (code, p, c') ↦ finish code (record o { sell_cps = p }) c'
      ]
      else finish success o c

  unfoldable pub prep_etf_sale : OrderMessage → Cache → Prep
  prep_etf_sale o c =
      if o.trade_policy.check_assets
      then elim (account_sell_etf_froze q.world o.account_id o.stock_id o.leaves_qty o.sell_etf_cps
          c) [ none ↦ none | some (code, p, c') ↦ finish code (record o { sell_etf_cps = p }) c' ]
      else finish success o c

  -- `ETFHelper::Query` is called twice.
  abbrev pub valid_etf :
      (EtfInfo d.Double → OrderMessage → Cache → Prep) → OrderMessage → Cache → Prep
  valid_etf next o c =
      let known = q.etf_query o.stock_id in
      let (code, o1) = validate_etf (elim known [ none ↦ none | some e ↦ some (traded_etf e) ]) o in
      if not (is_ok code) then some (froze_failed, o1, c) else elim known [
        | none ↦ some (froze_failed, record o1 { match_type = error_match }, c)
        | some e ↦ next e o1 c
      ]

  unfoldable pub prep_creation : EtfInfo d.Double → OrderMessage → Cache → Prep
  unfolding add_creation_component
  prep_creation e o c =
      if o.trade_policy.check_assets
      then elim (account_creation_query d q o.account_id o.order_qty_origin e o.froze_components
          c) [
            | none ↦ none
            | some (code, fs, c') ↦ finish code (record o { froze_components = fs }) c'
          ]
      else elim (add_creation_component (traded_etf e) o) [
        | none ↦ none
        | some o' ↦ finish success o' c
      ]

  abbrev pub with_components : Code → EtfInfo d.Double → OrderMessage → Cache → Prep
  with_components code e o c = elim (add_redeption_component (traded_etf e) o) [
    | none ↦ none
    | some o' ↦ finish code o' c
  ]

  unfoldable pub prep_redemption : EtfInfo d.Double → OrderMessage → Cache → Prep
  prep_redemption e o c =
      if o.trade_policy.check_assets
      then elim (account_redemption_froze q.world o.account_id o.stock_id o.leaves_qty o.rdp_etf_cps
          c) [
            | none ↦ none
            | some (code, p, c') ↦ with_components code e (record o { rdp_etf_cps = p }) c'
          ]
      else with_components success e o c

  abbrev pub after_quotation : (OrderMessage → Cache → Prep) → OrderMessage → Cache → Prep
  after_quotation next o c =
      let (code, o1) = by_quotation o in
      if is_ok code then next o1 c else some (quotation_failed, o1, c)

  abbrev pub prep_by_type : TradeType → OrderMessage → Cache → Prep
  prep_by_type trade_error o c = some (froze_failed, o, c)
  prep_by_type a_trade o c = after_quotation prep_sale o c
  prep_by_type b_trade o c = after_quotation prep_sale o c
  prep_by_type etf_buy o c = after_quotation prep_sale o c
  prep_by_type etf_sell o c = after_quotation prep_etf_sale o c
  prep_by_type etf_crt o c = valid_etf prep_creation o c
  prep_by_type etf_rdp o c = valid_etf prep_redemption o c
  prep_by_type _ o c = finish success o c

  unfoldable pub trade_prep : OrderMessage → Cache → Prep
  unfolding by_quotation prep_sale prep_etf_sale prep_creation prep_redemption
  trade_prep o c = let (type, o1) = get_trade_type o in prep_by_type type o1 c
