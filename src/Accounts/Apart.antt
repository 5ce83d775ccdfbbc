-- ===== src/Accounts/Apart.antt =====
-- A trade and a cancellation change the holdings of the account of the order only.
use simutgw_src.Common.{
  String, not, ◌≡◌, ◌≢◌, inl, inr, refl, Bool, true, false, Option, none, some, Code, success,
  Option-cases, Bool-cases, str_eq, subst, if◌then◌else◌,
}
use simutgw_src.Trade.{
  TradeType, trade_error, cancel, a_trade, b_trade, margin_cash, margin_stock, etf_buy, etf_sell,
  etf_crt, etf_rdp, FrozeComponent, OrderMessage,
}
use simutgw_src.Accounts.{Cache, World, Op, holding, ◌>>>◌, succeed}
use simutgw_src.Accounts.Methods.{
  account_sell_confirm, account_sell_etf_confirm, account_creation_confirm,
  account_redemption_confirm, account_add_act, account_add_crt, account_add_rdp,
}
use simutgw_src.Accounts.Synchronise.{
  cache_sell_syn, cache_sell_etf_syn, cache_add_syn, cache_add_etf_syn, cache_crt_etf_syn,
  cache_crt_component_syn, cache_rdp_etf_syn, cache_rdp_component_syn,
}
use simutgw_src.Accounts.Orders.{
  and_then, with_order, sell_split, sell_etf_split, update_sale, update_purchase, update_etf_sale,
  update_etf_purchase, update_by_type, update_ordinary, update_trade, take_component,
  give_component, creation_done, redemption_done, crt_rdp_by_type, update_etf_crt_rdp, is_sell_side,
  is_buy_side, update_after_trade,
}
use simutgw_src.Accounts.Isolation.{
  Keeps, synchronise-Keeps, looked_up-Keeps, added-Keeps, >>>-Keeps, and_then-Keeps,
  in_normal_mode-Keeps, each-Keeps,
}

-- The same for a call that returns the order too.
abbrev pub KeepsOrder : String → String → Cache → Option (Code × OrderMessage × Cache) → Type 0
KeepsOrder b j c none = Unit {0}
KeepsOrder b j c (some (code, o, c')) = holding b j c' ≡ holding b j c

module _ (w : World) (o : OrderMessage) (b j : String) (h : b ≢ o.account_id) where
  with_order-Keeps :
      (o' : OrderMessage) (m : Op) (c : Cache)
      → Keeps b j c (m c)
      → KeepsOrder b j c (with_order o' m c)
  with_order-Keeps o' m c k = elim (Option-cases (m c)) [
    | inl e ↦ rw (e, with_order) tt
    | inr ((code, c'), e) ↦ rw (e, with_order) (subst (λ r. Keeps b j c r) e k)
  ]

  -- A change of the holding of the order and the statement that follows.
  pair-Keeps :
      (o' : OrderMessage) (n m : Op) (c : Cache)
      → ((d : Cache) → Keeps b j d (n d))
      → ((d : Cache) → Keeps b j d (m d))
      → KeepsOrder b j c (with_order o' (and_then o n m) c)
  pair-Keeps o' n m c f g =
      with_order-Keeps o' (and_then o n m) c (and_then-Keeps o.account_id b j h o n m f g c)

  update_sale-Keeps : (c : Cache) → KeepsOrder b j c (update_sale w o c)
  unfolding update_sale cache_sell_syn account_sell_confirm
  update_sale-Keeps c =
      let (taken, left) = sell_split o.order_qty_matched o.sell_cps in
      pair-Keeps (record o { sell_cps = left }) (cache_sell_syn o.account_id o.stock_id)
        (account_sell_confirm w o.account_id o.stock_id taken) c
        (synchronise-Keeps o.account_id b j h o.stock_id _)
        (looked_up-Keeps o.account_id b j h w o.stock_id _)

  update_etf_sale-Keeps : (c : Cache) → KeepsOrder b j c (update_etf_sale w o c)
  unfolding update_etf_sale cache_sell_etf_syn account_sell_etf_confirm
  update_etf_sale-Keeps c =
      let (taken, left) = sell_etf_split o.order_qty_matched o.sell_etf_cps o.sell_cps in
      pair-Keeps (record o { sell_etf_cps = left }) (cache_sell_etf_syn o.account_id o.stock_id)
        (account_sell_etf_confirm w o.account_id o.stock_id taken) c
        (synchronise-Keeps o.account_id b j h o.stock_id _)
        (looked_up-Keeps o.account_id b j h w o.stock_id _)

  update_purchase-Keeps : (c : Cache) → KeepsOrder b j c (update_purchase w o c)
  unfolding update_purchase cache_add_syn account_add_act
  update_purchase-Keeps c =
      pair-Keeps o (cache_add_syn o.account_id o.stock_id)
        (account_add_act w o.account_id o.stock_id o.order_qty_matched) c
        (synchronise-Keeps o.account_id b j h o.stock_id _)
        (added-Keeps o.account_id b j h w o.stock_id _)

  update_etf_purchase-Keeps : (c : Cache) → KeepsOrder b j c (update_etf_purchase w o c)
  unfolding update_etf_purchase cache_add_etf_syn account_add_act
  update_etf_purchase-Keeps c =
      pair-Keeps o (cache_add_etf_syn o.account_id o.stock_id)
        (account_add_act w o.account_id o.stock_id o.order_qty_matched) c
        (synchronise-Keeps o.account_id b j h o.stock_id _)
        (added-Keeps o.account_id b j h w o.stock_id _)

  update_ordinary-Keeps : (c : Cache) → KeepsOrder b j c (update_ordinary w o c)
  update_ordinary-Keeps c = elim (Bool-cases (is_sell_side o.side)) [
    | inl e ↦ rw e (update_sale-Keeps c)
    | inr e ↦ elim (Bool-cases (is_buy_side o.side)) [
      | inl d ↦ rw e (rw d (update_purchase-Keeps c))
      | inr d ↦ rw e (rw d refl)
    ]
  ]

  update_by_type-Keeps : (t : TradeType) (c : Cache) → KeepsOrder b j c (update_by_type w t o c)
  update_by_type-Keeps a_trade c = update_ordinary-Keeps c
  update_by_type-Keeps b_trade c = update_ordinary-Keeps c
  update_by_type-Keeps etf_sell c = update_etf_sale-Keeps c
  update_by_type-Keeps etf_buy c = update_etf_purchase-Keeps c
  update_by_type-Keeps trade_error c = refl
  update_by_type-Keeps cancel c = refl
  update_by_type-Keeps margin_cash c = refl
  update_by_type-Keeps margin_stock c = refl
  update_by_type-Keeps etf_crt c = refl
  update_by_type-Keeps etf_rdp c = refl

  -- Two branches, one of which changes nothing.
  branch-Keeps :
      (x : Bool) (c : Cache) (r : Option (Code × OrderMessage × Cache))
      → KeepsOrder b j c r
      → KeepsOrder b j c (if x then r else some (success, o, c))
  branch-Keeps true c r k = k
  branch-Keeps false c r k = refl

  unless-Keeps :
      (x : Bool) (c : Cache) (r : Option (Code × OrderMessage × Cache))
      → KeepsOrder b j c r
      → KeepsOrder b j c (if not x then some (success, o, c) else r)
  unless-Keeps true c r k = k
  unless-Keeps false c r k = refl

  update_trade-Keeps : (c : Cache) → KeepsOrder b j c (update_trade w o c)
  unfolding update_trade
  update_trade-Keeps c =
      unless-Keeps o.trade_policy.check_assets c (update_by_type w o.trade_type o c)
        (update_by_type-Keeps o.trade_type c)

  take_component-Keeps : (f : FrozeComponent) (c : Cache) → Keeps b j c (take_component w o f c)
  unfolding take_component cache_crt_component_syn account_creation_confirm
  take_component-Keeps f =
      >>>-Keeps o.account_id b j h _ _ (looked_up-Keeps o.account_id b j h w f.security_id _) (
        in_normal_mode-Keeps o.account_id b j h o _
          (synchronise-Keeps o.account_id b j h f.security_id _))

  give_component-Keeps : (f : FrozeComponent) (c : Cache) → Keeps b j c (give_component w o f c)
  unfolding give_component cache_rdp_component_syn account_add_rdp
  give_component-Keeps f =
      >>>-Keeps o.account_id b j h _ _ (added-Keeps o.account_id b j h w f.security_id _) (
        in_normal_mode-Keeps o.account_id b j h o _
          (synchronise-Keeps o.account_id b j h f.security_id _))

  creation_done-Keeps : (c : Cache) → Keeps b j c (creation_done w o c)
  unfolding creation_done cache_crt_etf_syn account_add_crt
  creation_done-Keeps =
      >>>-Keeps o.account_id b j h _ _
        (>>>-Keeps o.account_id b j h _ _
          (each-Keeps o.account_id b j h (take_component w o) o.froze_components
            take_component-Keeps)
          (added-Keeps o.account_id b j h w o.stock_id _))
        (in_normal_mode-Keeps o.account_id b j h o _
          (synchronise-Keeps o.account_id b j h o.stock_id _))

  redemption_done-Keeps : (c : Cache) → Keeps b j c (redemption_done w o c)
  unfolding redemption_done cache_rdp_etf_syn account_redemption_confirm
  redemption_done-Keeps =
      >>>-Keeps o.account_id b j h _ _
        (>>>-Keeps o.account_id b j h _ _ (looked_up-Keeps o.account_id b j h w o.stock_id _) (
          in_normal_mode-Keeps o.account_id b j h o _
            (synchronise-Keeps o.account_id b j h o.stock_id _)))
        (each-Keeps o.account_id b j h (give_component w o) o.froze_components give_component-Keeps)

  crt_rdp_by_type-Keeps : (t : TradeType) (c : Cache) → Keeps b j c (crt_rdp_by_type w t o c)
  crt_rdp_by_type-Keeps etf_crt c = creation_done-Keeps c
  crt_rdp_by_type-Keeps etf_rdp c = redemption_done-Keeps c
  crt_rdp_by_type-Keeps a_trade c = refl
  crt_rdp_by_type-Keeps b_trade c = refl
  crt_rdp_by_type-Keeps etf_sell c = refl
  crt_rdp_by_type-Keeps etf_buy c = refl
  crt_rdp_by_type-Keeps trade_error c = refl
  crt_rdp_by_type-Keeps cancel c = refl
  crt_rdp_by_type-Keeps margin_cash c = refl
  crt_rdp_by_type-Keeps margin_stock c = refl

  update_etf_crt_rdp-Keeps : (c : Cache) → KeepsOrder b j c (update_etf_crt_rdp w o c)
  unfolding update_etf_crt_rdp
  update_etf_crt_rdp-Keeps c =
      branch-Keeps o.trade_policy.check_assets c
        (with_order o (crt_rdp_by_type w o.trade_type o >>> succeed) c)
        (with_order-Keeps o (crt_rdp_by_type w o.trade_type o >>> succeed) c (
          >>>-Keeps o.account_id b j h (crt_rdp_by_type w o.trade_type o) succeed
            (crt_rdp_by_type-Keeps o.trade_type) (λ d. refl) c))

  update_after_trade-Keeps : (c : Cache) → KeepsOrder b j c (update_after_trade w o c)
  unfolding update_after_trade
  update_after_trade-Keeps c = elim (Bool-cases (str_eq o.trade_market "102")) [
    | inl e ↦ elim (Bool-cases (str_eq o.appl_id "010")) [
      | inl d ↦ rw (e, update_after_trade) (rw d (update_trade-Keeps c))
      | inr d ↦ elim (Bool-cases (str_eq o.appl_id "120")) [
        | inl g ↦ rw (e, update_after_trade) (rw d (rw g (update_etf_crt_rdp-Keeps c)))
        | inr g ↦ rw (e, update_after_trade) (rw d (rw g refl))
      ]
    ]
    | inr e ↦ elim (Bool-cases (str_eq o.trade_market "101")) [
      | inl d ↦ rw (e, update_after_trade) (rw d (update_trade-Keeps c))
      | inr d ↦ rw (e, update_after_trade) (rw d refl)
    ]
  ]

-- `UpdateAfterTrade` changes no holding of an account other than that of the order, on any branch, in any
-- mode and for any kind of trade.
pub update_after_trade-other_account :
    (w : World) (o o' : OrderMessage) (b j : String) (code : Code) (c c' : Cache)
    → b ≢ o.account_id
    → update_after_trade w o c ≡ some (code, o', c')
    → holding b j c' ≡ holding b j c
update_after_trade-other_account w o o' b j code c c' h e =
    subst (λ r. KeepsOrder b j c r) e (update_after_trade-Keeps w o b j h c)
