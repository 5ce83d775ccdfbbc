-- ===== src/Match/Release.antt =====
-- What the cancellation of a sale of shares does.
use simutgw_src.Common.{
  ◌+◌, ◌%◌, u64_mod, true, false, ◌≡◌, refl, ap, ◌∙◌, Option, none, some, ◌∷◌, Code, success,
  if-true, if-false, str_eq,
}
use simutgw_src.Stock.{UserStockVolume}
use simutgw_src.Trade.{cancel_match, OrderMessage}
use simutgw_src.Accounts.{holding}
use simutgw_src.Accounts.Split.{Freed}
use simutgw_src.Match.{Desk, Market, push_back}
use simutgw_src.Match.Cancel.{refused, proc_single_cancel_order}

-- The report of the cancellation of an order: under the numbers of the request, with all that was left of the order as
-- the quantity that is cancelled, and nothing left.
pub record Reports (req o msg : OrderMessage) : Type 0 where
  pub msg_type : msg.msg_type ≡ "8"
  pub exec_type : msg.exec_type ≡ "4"
  pub ord_status : msg.ord_status ≡ "4"
  pub match_type : msg.match_type ≡ cancel_match
  pub number : msg.cl_ord_id ≡ req.cl_ord_id
  pub orig_number : msg.orig_cl_ord_id ≡ req.orig_cl_ord_id
  pub account : msg.account_id ≡ o.account_id
  pub stock : msg.stock_id ≡ o.stock_id
  pub market : msg.trade_market ≡ o.trade_market
  pub side : msg.side ≡ o.side
  pub quantity : msg.last_qty ≡ o.leaves_qty_text
  pub left : msg.leaves_qty_text ≡ 0
  pub traded : (msg.cum_qty + o.leaves_qty_text) % u64_mod ≡ o.order_qty_text % u64_mod
  pub price : msg.last_px ≡ 0

-- A cancellation that is found has returned 0, pushed its report and released the shares.
pub record Cancels (req o : OrderMessage) (s : UserStockVolume) (d : Desk)
    (r : Option (Code × Desk)) : Type 0 where
  pub desk : Desk
  pub holding_after : UserStockVolume
  pub returned : r ≡ some (success, desk)
  pub msg : OrderMessage
  pub pushed : desk.out_msgs ≡ msg ∷ d.out_msgs
  pub reports : Reports req o msg
  pub found : holding o.account_id o.stock_id desk.cache ≡ some holding_after
  pub freed : Freed s o.sell_cps holding_after

-- A message of Shanghai, or of Shenzhen with a sender.
pub data CanBePushed (o : OrderMessage) : Type 0 where
  to_shenzhen :
      str_eq o.trade_market "102" ≡ true → str_eq o.sender_comp_id "" ≡ false → CanBePushed o
  to_shanghai :
      str_eq o.trade_market "102" ≡ false → str_eq o.trade_market "101" ≡ true → CanBePushed o

push_back-CanBePushed :
    (o : OrderMessage) (d : Desk)
    → CanBePushed o
    → push_back o d ≡ (success, record d { out_msgs = o ∷ d.out_msgs })
unfolding push_back
push_back-CanBePushed o d (to_shenzhen e f) =
    if-true (str_eq o.trade_market "102") _ _ e ∙ if-false (str_eq o.sender_comp_id "") _ _ f
push_back-CanBePushed o d (to_shanghai e f) =
    if-false (str_eq o.trade_market "102") _ _ e ∙ if-true (str_eq o.trade_market "101") _ _ f

pushes :
    (o o' : OrderMessage)
    → o'.trade_market ≡ o.trade_market
    → o'.sender_comp_id ≡ o.sender_comp_id
    → CanBePushed o
    → CanBePushed o'
pushes o o' e f (to_shenzhen a b) = to_shenzhen (rw e a) (rw f b)
pushes o o' e f (to_shanghai a b) = to_shanghai (rw e a) (rw e b)

-- The request to cancel an order that does not wait any more changes nothing but for the refusal that is pushed,
-- if it can be.
pub proc_single_cancel_order-refused :
    (m : Market) (req : OrderMessage) (d : Desk)
    → CanBePushed req
    → (o : OrderMessage) × (proc_single_cancel_order m none req d
        ≡ some (success, record d { out_msgs = o ∷ d.out_msgs }))
      × (o.msg_type ≡ "9")
      × (o.cl_ord_id ≡ req.cl_ord_id)
unfolding proc_single_cancel_order refused
proc_single_cancel_order-refused m req d p =
    let o = refused req in
    (o, ap some (push_back-CanBePushed o d (pushes req o refl refl p)), refl, refl)
