-- ===== src/Prep/Kinds.antt =====
-- `CheckOrder_TradeType` of `StockOrderHelper` (shared_src/order/StockOrderHelper.cpp), which gives an order a kind
-- before `TradePrep` does.
use Prim.Native.String.{len, slice}
use simutgw_src.Common.{
  String, Bool, true, false, not, ◌&&◌, ◌||◌, ◌≡◌, ◌≢◌, inl, inr, refl, Code, success, failure,
  ◌==◌, str_eq, if◌then◌else◌, Bool-cases, if-true, if-false, ap, sym, ◌∙◌, arith, subst,
}
use simutgw_src.Trade.{
  TradeType, cancel, a_trade, b_trade, margin_cash, margin_stock, etf_crt, etf_rdp, OrderMessage,
}
use simutgw_src.Accounts.Securities.{head_2, head_3, is_etf_head}
use simutgw_src.Accounts.Orders.{is_sell_side, is_buy_side}
use simutgw_src.Prep.{get_trade_type, type_by_side}

-- A shares and funds of the two exchanges, and B shares. B shares are not among the former here.
abbrev pub is_shenzhen_a : String → String → Bool
is_shenzhen_a head fund =
    str_eq head "000"
    || (str_eq head "001"
        || (str_eq head "002"
            || (str_eq head "300" || (str_eq fund "15" || (str_eq fund "16" || str_eq fund "18")))))

abbrev pub is_shanghai_a : String → String → Bool
is_shanghai_a head fund =
    str_eq head "600"
    || (str_eq head "601" || (str_eq head "603" || (str_eq fund "50" || str_eq fund "51")))

abbrev pub is_b_share : String → Bool
is_b_share head = str_eq head "200" || str_eq head "900"

-- By `strCashMargin`, in Shenzhen.
abbrev pub sz_kind : String → String → TradeType
sz_kind margin side =
    if (str_eq margin "2" && is_buy_side side) || (str_eq margin "3" && is_sell_side side)
    then margin_cash
    else if (str_eq margin "2" && is_sell_side side) || (str_eq margin "3" && is_buy_side side)
    then margin_stock
    else a_trade

-- By `strOrdType`, in Shanghai.
abbrev pub sh_kind : String → TradeType
sh_kind type =
    if (len type == 3) && str_eq (slice type 1 3) "RZ"
    then margin_cash
    else if (len type == 3) && str_eq (slice type 1 3) "RQ"
    then margin_stock
    else a_trade

-- The last lines.
abbrev pub exchange_kind : OrderMessage → TradeType → TradeType
exchange_kind o k =
    if str_eq o.msg_type "F"
    then cancel
    else if str_eq o.appl_id "120"
    then if str_eq o.side "D" then etf_crt else if str_eq o.side "E" then etf_rdp else k
    else k

unfoldable pub check_order_trade_type : String → OrderMessage → Code × OrderMessage
check_order_trade_type margin o =
    let head = head_3 o.stock_id in
    let fund = head_2 o.stock_id in
    let accepted : TradeType → Code × OrderMessage =
      λ k. (success, record o { trade_type = exchange_kind o k }) in
    if not (len o.stock_id == 6)
    then (failure, o)
    else if is_shenzhen_a head fund
    then accepted (sz_kind margin o.side)
    else if is_shanghai_a head fund
    then accepted (sh_kind o.ord_type)
    else if is_b_share head
    then accepted b_trade
    else (failure, o)

branch-stock :
    (s : String) (b : Bool) (x y : Code × OrderMessage)
    → x.1.stock_id ≡ s
    → y.1.stock_id ≡ s
    → (if b then x else y).1.stock_id ≡ s
branch-stock s true x y e f = e
branch-stock s false x y e f = f

stock-kept :
    (margin : String) (o : OrderMessage) → (check_order_trade_type margin o).1.stock_id ≡ o.stock_id
unfolding check_order_trade_type
stock-kept margin o =
    let s = o.stock_id in
    branch-stock s (not (len s == 6)) _ _ refl (
      branch-stock s (is_shenzhen_a (head_3 s) (head_2 s)) _ _ refl (
        branch-stock s (is_shanghai_a (head_3 s) (head_2 s)) _ _ refl
          (branch-stock s (is_b_share (head_3 s)) _ _ refl refl)))

len-accepted :
    (margin : String) (o : OrderMessage)
    → (check_order_trade_type margin o).0 ≡ success
    → (len (check_order_trade_type margin o).1.stock_id == 6) ≡ true
unfolding check_order_trade_type
len-accepted margin o h = elim (Bool-cases (len o.stock_id == 6)) [
  | inl e ↦ subst (λ s. (len s == 6) ≡ true) (sym (stock-kept margin o)) e
  | inr e ↦
      let r : check_order_trade_type margin o ≡ (failure, o) =
        if-true (not (len o.stock_id == 6)) _ _ (ap not e) in
      let t : success ≡ failure = sym h ∙ ap (λ x. x.0) r in cc
]

-- A kind that `GetTradeType` gives.
pub record Plain (t : TradeType) : Type 0 where
  pub not_b : t ≢ b_trade
  pub not_cash : t ≢ margin_cash
  pub not_stock : t ≢ margin_stock

type_by_side-Plain : (etf : Bool) (side : String) → Plain (type_by_side etf side)
type_by_side-Plain etf side = ground arith

kind_of-Plain : (x etf : Bool) (side : String) → Plain (if x then cancel else type_by_side etf side)
kind_of-Plain true etf side = ground arith
kind_of-Plain false etf side = type_by_side-Plain etf side

get_trade_type-Plain :
    (o : OrderMessage) → (len o.stock_id == 6) ≡ true → Plain (get_trade_type o).1.trade_type
unfolding get_trade_type
get_trade_type-Plain o h =
    subst (λ (r : TradeType × OrderMessage). Plain r.1.trade_type)
      (sym (if-false (not (len o.stock_id == 6)) _ _ (ap not h)))
      (kind_of-Plain (str_eq o.msg_type "F") (is_etf_head (head_2 o.stock_id)) o.side)

-- Whatever kind `CheckOrder_TradeType` has given an order that it accepts, one of B shares or on margin among
-- them, after `GetTradeType` the order is of none of these three kinds.
pub get_trade_type-check_order_trade_type :
    (margin : String) (o : OrderMessage)
    → (check_order_trade_type margin o).0 ≡ success
    → Plain (get_trade_type (check_order_trade_type margin o).1).1.trade_type
get_trade_type-check_order_trade_type margin o h =
    get_trade_type-Plain (check_order_trade_type margin o).1 (len-accepted margin o h)
