-- ===== src/Accounts/Returns.antt =====
-- Outside the normal mode, where nothing is handed to the database, a trade meets no null pointer.
use simutgw_src.Common.{
  String, not, ◌≡◌, inl, inr, refl, Bool, true, false, Option, some, List, [], ◌∷◌, Code, success,
  failure, Option-cases, Bool-cases, str_eq, if◌then◌else◌, if-false,
}
use simutgw_src.Stock.{UserStockVolume}
use simutgw_src.Trade.{
  TradeType, trade_error, cancel, a_trade, b_trade, margin_cash, margin_stock, etf_buy, etf_sell,
  etf_crt, etf_rdp, FrozeComponent, OrderMessage,
}
use simutgw_src.Accounts.{Cache, World, Op, store, look_up, ◌>>>◌, succeed}
use simutgw_src.Accounts.Methods.{
  looked_up, added, nothing_held, account_sell_confirm, account_sell_etf_confirm,
  account_creation_confirm, account_redemption_confirm, account_add_act, account_add_crt,
  account_add_rdp,
}
use simutgw_src.Accounts.Synchronise.{
  cache_sell_syn, cache_sell_etf_syn, cache_add_syn, cache_add_etf_syn, cache_crt_etf_syn,
  cache_crt_component_syn, cache_rdp_etf_syn, cache_rdp_component_syn,
}
use simutgw_src.Accounts.Lookup.{
  known, looked_up-known, looked_up-unknown, added-known, added-unknown,
}
use simutgw_src.Accounts.Orders.{
  is_normal, in_normal_mode, and_then, with_order, each, is_cash, sell_split, sell_etf_split,
  update_sale, update_purchase, update_etf_sale, update_etf_purchase, update_by_type,
  update_ordinary, update_trade, take_component, give_component, creation_done, redemption_done,
  crt_rdp_by_type, update_etf_crt_rdp, is_sell_side, is_buy_side, update_after_trade,
}

abbrev pub IsSome {ℓ} : {A : Type ℓ} → Option A → Type ℓ
IsSome {A = A} r = (a : A) × (r ≡ some a)

-- A call that returns, whatever the holdings.
abbrev Total : Op → Type 0
Total m = (c : Cache) → IsSome (m c)

looked_up-Total :
    (w : World) (a k : String) (f : UserStockVolume → Code × UserStockVolume)
    → Total (looked_up w a k f)
looked_up-Total w a k f c = elim (Option-cases (known w a k c)) [
  | inl e ↦ ((failure, c), looked_up-unknown w a k f c e)
  | inr (s, e) ↦ (((f s).0, store a k (f s).1 (look_up w a k c).1), looked_up-known w a k f c s e)
]

added-Total :
    (w : World) (a k : String) (f : UserStockVolume → UserStockVolume) → Total (added w a k f)
added-Total w a k f c = elim (Option-cases (known w a k c)) [
  | inl e ↦ (
    (success, store a k (f (nothing_held w.time)) (store a k (nothing_held w.time) c)),
    added-unknown w a k f c e,
  )
  | inr (s, e) ↦ ((success, store a k (f s) (look_up w a k c).1), added-known w a k f c s e)
]

>>>-Total : (m n : Op) → Total m → Total n → Total (m >>> n)
>>>-Total m n f g c = rw ((f c).1, ◌>>>◌) (g (f c).0.1)

each-Total :
    (f : FrozeComponent → Op) (xs : List FrozeComponent)
    → ((x : FrozeComponent) → Total (f x))
    → Total (each f xs)
each-Total f [] g c = ((success, c), refl)
each-Total f (x ∷ xs) g c = elim (Bool-cases (is_cash x)) [
  | inl e ↦ rw e (each-Total f xs g c)
  | inr e ↦ rw e (>>>-Total (f x) (each f xs) (g x) (each-Total f xs g) c)
]

with_order-IsSome :
    (o : OrderMessage) (m : Op) (c : Cache) → IsSome (m c) → IsSome (with_order o m c)
with_order-IsSome o m c (r, e) = ((r.0, o, r.1), rw (e, with_order) refl)

branch-IsSome {ℓ} :
    {A : Type ℓ} (x : Bool) (r s : Option A) → IsSome r → IsSome s → IsSome (if x then r else s)
branch-IsSome true r s k l = k
branch-IsSome false r s k l = l

module _ (w : World) (o : OrderMessage) (h : is_normal o.trade_policy.run_mode ≡ false) where
  in_normal_mode-Total : (m : Op) → Total (in_normal_mode o m)
  in_normal_mode-Total m c = ((success, c), if-false (is_normal o.trade_policy.run_mode) _ _ h)

  and_then-Total : (n m : Op) → Total m → Total (and_then o n m)
  and_then-Total n m f c =
      ((f c).0, rw ((f c).1, and_then) (if-false (is_normal o.trade_policy.run_mode) _ _ h))

  update_sale-IsSome : (c : Cache) → IsSome (update_sale w o c)
  unfolding update_sale account_sell_confirm
  update_sale-IsSome c =
      let (taken, left) = sell_split o.order_qty_matched o.sell_cps in
      let n = cache_sell_syn o.account_id o.stock_id in
      let m = account_sell_confirm w o.account_id o.stock_id taken in
      with_order-IsSome (record o { sell_cps = left }) (and_then o n m) c
        (and_then-Total n m (looked_up-Total w o.account_id o.stock_id _) c)

  update_etf_sale-IsSome : (c : Cache) → IsSome (update_etf_sale w o c)
  unfolding update_etf_sale account_sell_etf_confirm
  update_etf_sale-IsSome c =
      let (taken, left) = sell_etf_split o.order_qty_matched o.sell_etf_cps o.sell_cps in
      let n = cache_sell_etf_syn o.account_id o.stock_id in
      let m = account_sell_etf_confirm w o.account_id o.stock_id taken in
      with_order-IsSome (record o { sell_etf_cps = left }) (and_then o n m) c
        (and_then-Total n m (looked_up-Total w o.account_id o.stock_id _) c)

  update_purchase-IsSome : (c : Cache) → IsSome (update_purchase w o c)
  unfolding update_purchase account_add_act
  update_purchase-IsSome c =
      let n = cache_add_syn o.account_id o.stock_id in
      let m = account_add_act w o.account_id o.stock_id o.order_qty_matched in
      with_order-IsSome o (and_then o n m) c
        (and_then-Total n m (added-Total w o.account_id o.stock_id _) c)

  update_etf_purchase-IsSome : (c : Cache) → IsSome (update_etf_purchase w o c)
  unfolding update_etf_purchase account_add_act
  update_etf_purchase-IsSome c =
      let n = cache_add_etf_syn o.account_id o.stock_id in
      let m = account_add_act w o.account_id o.stock_id o.order_qty_matched in
      with_order-IsSome o (and_then o n m) c
        (and_then-Total n m (added-Total w o.account_id o.stock_id _) c)

  no_update-IsSome : (c : Cache) → IsSome {A = Code × OrderMessage × Cache} (some (success, o, c))
  no_update-IsSome c = ((success, o, c), refl)

  update_ordinary-IsSome : (c : Cache) → IsSome (update_ordinary w o c)
  update_ordinary-IsSome c = elim (Bool-cases (is_sell_side o.side)) [
    | inl e ↦ rw e (update_sale-IsSome c)
    | inr e ↦ elim (Bool-cases (is_buy_side o.side)) [
      | inl d ↦ rw e (rw d (update_purchase-IsSome c))
      | inr d ↦ rw e (rw d (no_update-IsSome c))
    ]
  ]

  by_type-IsSome : (t : TradeType) (c : Cache) → IsSome (update_by_type w t o c)
  by_type-IsSome a_trade c = update_ordinary-IsSome c
  by_type-IsSome b_trade c = update_ordinary-IsSome c
  by_type-IsSome etf_sell c = update_etf_sale-IsSome c
  by_type-IsSome etf_buy c = update_etf_purchase-IsSome c
  by_type-IsSome trade_error c = no_update-IsSome c
  by_type-IsSome cancel c = no_update-IsSome c
  by_type-IsSome margin_cash c = no_update-IsSome c
  by_type-IsSome margin_stock c = no_update-IsSome c
  by_type-IsSome etf_crt c = no_update-IsSome c
  by_type-IsSome etf_rdp c = no_update-IsSome c

  take_component-Total : (f : FrozeComponent) → Total (take_component w o f)
  unfolding take_component account_creation_confirm
  take_component-Total f =
      let n = cache_crt_component_syn o.account_id f.security_id in
      >>>-Total
        (account_creation_confirm w o.account_id f.security_id
          (record { first = f.act_pch_count; avl = f.avl_count }))
        (in_normal_mode o n) (looked_up-Total w o.account_id f.security_id _)
        (in_normal_mode-Total n)

  give_component-Total : (f : FrozeComponent) → Total (give_component w o f)
  unfolding give_component account_add_rdp
  give_component-Total f =
      let n = cache_rdp_component_syn o.account_id f.security_id in
      >>>-Total (account_add_rdp w o.account_id f.security_id f.rdp_count) (in_normal_mode o n)
        (added-Total w o.account_id f.security_id _) (in_normal_mode-Total n)

  creation_done-Total : Total (creation_done w o)
  unfolding creation_done account_add_crt
  creation_done-Total =
      let n = cache_crt_etf_syn o.account_id o.stock_id in
      let m = account_add_crt w o.account_id o.stock_id o.order_qty_matched in
      let e = each (take_component w o) o.froze_components in
      >>>-Total (e >>> m) (in_normal_mode o n)
        (>>>-Total e m (each-Total (take_component w o) o.froze_components take_component-Total)
          (added-Total w o.account_id o.stock_id _))
        (in_normal_mode-Total n)

  redemption_done-Total : Total (redemption_done w o)
  unfolding redemption_done account_redemption_confirm
  redemption_done-Total =
      let n = cache_rdp_etf_syn o.account_id o.stock_id in
      let m = account_redemption_confirm w o.account_id o.stock_id o.rdp_etf_cps in
      let e = each (give_component w o) o.froze_components in
      >>>-Total (m >>> in_normal_mode o n) e
        (>>>-Total m (in_normal_mode o n) (looked_up-Total w o.account_id o.stock_id _)
          (in_normal_mode-Total n))
        (each-Total (give_component w o) o.froze_components give_component-Total)

  succeed-Total : Total succeed
  succeed-Total c = ((success, c), refl)

  crt_rdp_by_type-Total : (t : TradeType) → Total (crt_rdp_by_type w t o)
  crt_rdp_by_type-Total etf_crt = creation_done-Total
  crt_rdp_by_type-Total etf_rdp = redemption_done-Total
  crt_rdp_by_type-Total a_trade = succeed-Total
  crt_rdp_by_type-Total b_trade = succeed-Total
  crt_rdp_by_type-Total etf_sell = succeed-Total
  crt_rdp_by_type-Total etf_buy = succeed-Total
  crt_rdp_by_type-Total trade_error = succeed-Total
  crt_rdp_by_type-Total cancel = succeed-Total
  crt_rdp_by_type-Total margin_cash = succeed-Total
  crt_rdp_by_type-Total margin_stock = succeed-Total

  update_trade-IsSome : (c : Cache) → IsSome (update_trade w o c)
  unfolding update_trade
  update_trade-IsSome c =
      branch-IsSome (not o.trade_policy.check_assets) (some (success, o, c))
        (update_by_type w o.trade_type o c) (no_update-IsSome c) (by_type-IsSome o.trade_type c)

  update_etf_crt_rdp-IsSome : (c : Cache) → IsSome (update_etf_crt_rdp w o c)
  unfolding update_etf_crt_rdp
  update_etf_crt_rdp-IsSome c =
      let m = crt_rdp_by_type w o.trade_type o >>> succeed in
      branch-IsSome o.trade_policy.check_assets (with_order o m c) (some (success, o, c))
        (with_order-IsSome o m c (
          >>>-Total (crt_rdp_by_type w o.trade_type o) succeed (crt_rdp_by_type-Total o.trade_type)
            succeed-Total c))
        (no_update-IsSome c)

-- `UpdateAfterTrade` returns for every order whose run mode is not the normal one: it meets no null pointer, whatever
-- holdings are known.
pub update_after_trade-IsSome :
    (w : World) (o : OrderMessage) (c : Cache)
    → is_normal o.trade_policy.run_mode ≡ false
    → IsSome (update_after_trade w o c)
unfolding update_after_trade
update_after_trade-IsSome w o c h =
    branch-IsSome (str_eq o.trade_market "102") _ _
      (branch-IsSome (str_eq o.appl_id "010") _ _ (update_trade-IsSome w o h c) (
        branch-IsSome (str_eq o.appl_id "120") _ _ (update_etf_crt_rdp-IsSome w o h c)
          (no_update-IsSome w o h c)))
      (branch-IsSome (str_eq o.trade_market "101") _ _ (update_trade-IsSome w o h c)
        (no_update-IsSome w o h c))
