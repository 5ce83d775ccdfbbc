-- ===== src/Accounts/Message.antt =====
-- A trade changes nothing of the order but what is frozen for it.
use simutgw_src.Common.{
  not, ◌≡◌, inl, inr, refl, Bool, true, false, Option, none, some, Code, success, Option-cases,
  Bool-cases, str_eq, if◌then◌else◌, subst,
}
use simutgw_src.Trade.{
  TradeType, trade_error, cancel, a_trade, b_trade, margin_cash, margin_stock, etf_buy, etf_sell,
  etf_crt, etf_rdp, OrderMessage,
}
use simutgw_src.Accounts.{Cache, World, Op, ◌>>>◌, succeed}
use simutgw_src.Accounts.Methods.{account_sell_confirm, account_sell_etf_confirm, account_add_act}
use simutgw_src.Accounts.Synchronise.{
  cache_sell_syn, cache_sell_etf_syn, cache_add_syn, cache_add_etf_syn,
}
use simutgw_src.Accounts.Orders.{
  with_order, and_then, crt_rdp_by_type, sell_split, sell_etf_split, update_sale, update_purchase,
  update_etf_sale, update_etf_purchase, update_by_type, update_ordinary, update_trade,
  update_etf_crt_rdp, update_after_trade, is_sell_side, is_buy_side,
}

-- The orders differ in what is frozen at most.
abbrev pub SameOrder : OrderMessage → OrderMessage → Type 0
SameOrder o o' = o' ≡ record o { sell_cps = o'.sell_cps; sell_etf_cps = o'.sell_etf_cps }

abbrev KeepsMessage : OrderMessage → Option (Code × OrderMessage × Cache) → Type 0
KeepsMessage o none = Unit {0}
KeepsMessage o (some (code, o', c')) = SameOrder o o'

with_order-Keeps :
    (o o' : OrderMessage) (m : Op) (c : Cache) → SameOrder o o' → KeepsMessage o (with_order o' m c)
with_order-Keeps o o' m c k = elim (Option-cases (m c)) [
  | inl e ↦ rw (e, with_order) tt
  | inr ((code, c'), e) ↦ rw (e, with_order) k
]

module _ (w : World) (o : OrderMessage) where
  update_sale-Keeps : (c : Cache) → KeepsMessage o (update_sale w o c)
  unfolding update_sale
  update_sale-Keeps c =
      let (taken, left) = sell_split o.order_qty_matched o.sell_cps in
      with_order-Keeps o (record o { sell_cps = left })
        (and_then o (cache_sell_syn o.account_id o.stock_id)
          (account_sell_confirm w o.account_id o.stock_id taken))
        c refl

  update_purchase-Keeps : (c : Cache) → KeepsMessage o (update_purchase w o c)
  unfolding update_purchase
  update_purchase-Keeps c =
      with_order-Keeps o o
        (and_then o (cache_add_syn o.account_id o.stock_id)
          (account_add_act w o.account_id o.stock_id o.order_qty_matched))
        c refl

  update_ordinary-Keeps : (c : Cache) → KeepsMessage o (update_ordinary w o c)
  update_ordinary-Keeps c = elim (Bool-cases (is_sell_side o.side)) [
    | inl e ↦ rw e (update_sale-Keeps c)
    | inr e ↦ elim (Bool-cases (is_buy_side o.side)) [
      | inl d ↦ rw e (rw d (update_purchase-Keeps c))
      | inr d ↦ rw e (rw d refl)
    ]
  ]

  update_etf_sale-Keeps : (c : Cache) → KeepsMessage o (update_etf_sale w o c)
  unfolding update_etf_sale
  update_etf_sale-Keeps c =
      let (taken, left) = sell_etf_split o.order_qty_matched o.sell_etf_cps o.sell_cps in
      with_order-Keeps o (record o { sell_etf_cps = left })
        (and_then o (cache_sell_etf_syn o.account_id o.stock_id)
          (account_sell_etf_confirm w o.account_id o.stock_id taken))
        c refl

  update_etf_purchase-Keeps : (c : Cache) → KeepsMessage o (update_etf_purchase w o c)
  unfolding update_etf_purchase
  update_etf_purchase-Keeps c =
      with_order-Keeps o o
        (and_then o (cache_add_etf_syn o.account_id o.stock_id)
          (account_add_act w o.account_id o.stock_id o.order_qty_matched))
        c refl

  by_type-Keeps : (t : TradeType) (c : Cache) → KeepsMessage o (update_by_type w t o c)
  by_type-Keeps a_trade c = update_ordinary-Keeps c
  by_type-Keeps b_trade c = update_ordinary-Keeps c
  by_type-Keeps etf_sell c = update_etf_sale-Keeps c
  by_type-Keeps etf_buy c = update_etf_purchase-Keeps c
  by_type-Keeps trade_error c = refl
  by_type-Keeps cancel c = refl
  by_type-Keeps margin_cash c = refl
  by_type-Keeps margin_stock c = refl
  by_type-Keeps etf_crt c = refl
  by_type-Keeps etf_rdp c = refl

  unless-Keeps :
      (x : Bool) (c : Cache) (r : Option (Code × OrderMessage × Cache))
      → KeepsMessage o r
      → KeepsMessage o (if not x then some (success, o, c) else r)
  unless-Keeps true c r k = k
  unless-Keeps false c r k = refl

  branch-Keeps :
      (x : Bool) (r s : Option (Code × OrderMessage × Cache))
      → KeepsMessage o r
      → KeepsMessage o s
      → KeepsMessage o (if x then r else s)
  branch-Keeps true r s k l = k
  branch-Keeps false r s k l = l

  update_trade-Keeps : (c : Cache) → KeepsMessage o (update_trade w o c)
  unfolding update_trade
  update_trade-Keeps c =
      unless-Keeps o.trade_policy.check_assets c (update_by_type w o.trade_type o c)
        (by_type-Keeps o.trade_type c)

  update_etf_crt_rdp-Keeps : (c : Cache) → KeepsMessage o (update_etf_crt_rdp w o c)
  unfolding update_etf_crt_rdp
  update_etf_crt_rdp-Keeps c =
      branch-Keeps o.trade_policy.check_assets
        (with_order o (crt_rdp_by_type w o.trade_type o >>> succeed) c) (some (success, o, c))
        (with_order-Keeps o o (crt_rdp_by_type w o.trade_type o >>> succeed) c refl) refl

  update_after_trade-Keeps : (c : Cache) → KeepsMessage o (update_after_trade w o c)
  unfolding update_after_trade
  update_after_trade-Keeps c =
      branch-Keeps (str_eq o.trade_market "102") _ _
        (branch-Keeps (str_eq o.appl_id "010") _ _ (update_trade-Keeps c) (
          branch-Keeps (str_eq o.appl_id "120") _ (some (success, o, c))
            (update_etf_crt_rdp-Keeps c) refl))
        (branch-Keeps (str_eq o.trade_market "101") _ (some (success, o, c)) (update_trade-Keeps c)
          refl)

pub update_after_trade-SameOrder :
    (w : World) (o o' : OrderMessage) (code : Code) (c c' : Cache)
    → update_after_trade w o c ≡ some (code, o', c')
    → SameOrder o o'
update_after_trade-SameOrder w o o' code c c' e =
    subst (λ r. KeepsMessage o r) e (update_after_trade-Keeps w o c)
