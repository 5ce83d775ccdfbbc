-- ===== src/Accounts/EtfSales.antt =====
-- The last trade of a sale of ETF units, and a cancellation when the holdings have been cleared.
use simutgw_src.Common.{
  ℕ, String, ◌+◌, ◌≤◌, ◌<◌, ◌≡◌, ◌≢◌, refl, sym, ap, ◌∙◌, true, Option, none, some, Code, success,
  arith, u64_mod, Bool-cases, failure, Option-cases, none≢some, if-not, inl, inr,
}
use simutgw_src.Volume.{db_syn, reset_syn, confirm}
use simutgw_src.Volume.Account.{Fits}
use simutgw_src.Stock.{UserStockVolume, is_expired}
use simutgw_src.Stock.SellEtf.{sell_etf_confirm, sell_etf_db_syn}
use simutgw_src.Stock.Sell.{sell_confirm}
use simutgw_src.Trade.{TradeType, etf_sell, Cps, OrderMessage}
use simutgw_src.Accounts.{
  Sql, Cache, World, Op, stock_etf_asset, stock_creation_balance, holding, store, look_up,
  day_end_clean_up,
}
use simutgw_src.Accounts.Methods.{account_sell_confirm, account_sell_etf_confirm}
use simutgw_src.Accounts.Synchronise.{
  cache_sell_syn, cache_sell_etf_syn, synchronise, exc_update_sql, three_of,
}
use simutgw_src.Accounts.Orders.{
  sell_split, update_sale, is_normal, and_then, with_order, sell_etf_split, update_etf_sale,
  update_by_type, update_trade, update_after_trade, update_after_cancel,
}
use simutgw_src.Accounts.Lookup.{known, holding-store, looked_up-known, looked_up-unknown}
use simutgw_src.Accounts.Fills.{
  update_after_trade-sale, Listed, IsSale, trade, update_after_trade-Listed, with_order-some,
  known-holding,
}
use simutgw_src.Accounts.Sales.{update_after_cancel-sale}

-- A sale of ETF units whose account is checked. No ordinary shares are frozen for it.
pub record IsEtfSale (o : OrderMessage) : Type 0 where
  pub listed : Listed o.trade_market o.appl_id
  pub type : o.trade_type ≡ etf_sell
  pub checked : o.trade_policy.check_assets ≡ true
  pub other : o.sell_cps ≡ record { first = 0; avl = 0 }

-- Nothing has left the holding, and what was frozen is frozen still.
pub record Untouched (s s' : UserStockVolume) : Type 0 where
  pub created_free : s'.stk_crt_balance.un_froze_volume ≡ s.stk_crt_balance.un_froze_volume
  pub created_held : s'.stk_crt_balance.forze_volume ≡ s.stk_crt_balance.forze_volume
  pub available_free : s'.stk_avl_balance.un_froze_volume ≡ s.stk_avl_balance.un_froze_volume
  pub available_held : s'.stk_avl_balance.forze_volume ≡ s.stk_avl_balance.forze_volume
  pub balance_free : s'.stk_balance.un_froze_volume ≡ s.stk_balance.un_froze_volume
  pub balance_held : s'.stk_balance.forze_volume ≡ s.stk_balance.forze_volume

sell_etf_confirm-Untouched :
    (time : ℕ) (s : UserStockVolume)
    → Fits s.stk_balance
    → ((sell_etf_confirm time 0 0 s).0 ≡ success) × Untouched s (sell_etf_confirm time 0 0 s).1
unfolding sell_etf_confirm confirm is_expired
sell_etf_confirm-Untouched time s h = ground arith

syn-Untouched :
    (s s' : UserStockVolume) (a k : String)
    → Untouched s s'
    → Untouched s (three_of stock_etf_asset stock_creation_balance sell_etf_db_syn a k s').1
unfolding sell_etf_db_syn db_syn reset_syn
syn-Untouched s s' a k f = ground arith

-- A call has returned 0 and left the holding as it was.
record Passed (a k : String) (s : UserStockVolume) (r : Option (Code × Cache)) : Type 0 where
  after : Cache
  holding_after : UserStockVolume
  returned : r ≡ some (success, after)
  found : holding a k after ≡ some holding_after
  untouched : Untouched s holding_after

confirm-Passed :
    (w : World) (a k : String) (p : Cps) (c : Cache) (s : UserStockVolume)
    → p ≡ record { first = 0; avl = 0 }
    → holding a k c ≡ some s
    → Fits s.stk_balance
    → Passed a k s (account_sell_etf_confirm w a k p c)
unfolding account_sell_etf_confirm
confirm-Passed w a k p c s e h b =
    let f = sell_etf_confirm w.time 0 0 in
    let (ok, same) = sell_etf_confirm-Untouched w.time s b in
    record {
      after = store a k (f s).1 (look_up w a k c).1;
      holding_after = (f s).1;
      returned = rw e (
          looked_up-known w a k f c s (known-holding w a k c s h)
          ∙ ap (λ x. some (x, store a k (f s).1 (look_up w a k c).1)) ok);
      found = holding-store a k (f s).1 (look_up w a k c).1;
      untouched = same;
    }

and_then-Passed :
    (o : OrderMessage) (a k : String) (c : Cache) (s : UserStockVolume) (m : Op)
    → Passed a k s (m c)
    → Passed a k s (and_then o (cache_sell_etf_syn a k) m c)
unfolding cache_sell_etf_syn exc_update_sql
and_then-Passed o a k c s m d =
    let f = three_of stock_etf_asset stock_creation_balance sell_etf_db_syn a k in
    elim (Bool-cases (is_normal o.trade_policy.run_mode)) [
      | inl e ↦ record {
        after = exc_update_sql (f d.holding_after).0 (store a k (f d.holding_after).1 d.after);
        holding_after = (f d.holding_after).1;
        returned = rw (d.returned, and_then) (rw e (rw (d.found, synchronise) refl));
        found = holding-store a k (f d.holding_after).1 d.after;
        untouched = syn-Untouched s d.holding_after a k d.untouched;
      }
      | inr e ↦ record {
        after = d.after;
        holding_after = d.holding_after;
        returned = rw (d.returned, and_then) (rw e refl);
        found = d.found;
        untouched = d.untouched;
      }
    ]

sell_etf_split-all :
    (n : ℕ) (p other : Cps)
    → p.first + p.avl ≤ n
    → p.first + p.avl < u64_mod
    → sell_etf_split n p other ≡ (other, record { first = 0; avl = 0 })
unfolding sell_etf_split
sell_etf_split-all n p other h k = ground arith

by_type-etf_sale :
    (w : World) (o : OrderMessage) (t : TradeType) (c : Cache)
    → t ≡ etf_sell
    → update_by_type w t o c ≡ update_etf_sale w o c
by_type-etf_sale w o t c e = rw e refl

update_after_trade-etf_sale :
    (w : World) (o : OrderMessage) (c : Cache)
    → IsEtfSale o
    → update_after_trade w o c ≡ update_etf_sale w o c
unfolding update_trade
update_after_trade-etf_sale w o c h =
    update_after_trade-Listed w o c h.listed
    ∙ if-not o.trade_policy.check_assets _ _ h.checked
    ∙ by_type-etf_sale w o o.trade_type c h.type

-- A trade of all that is frozen for a sale of ETF units, in any run mode, returns 0 and leaves the holding as it was:
-- no unit has left it, and what was frozen for the order is frozen still, while the order has nothing frozen any
-- more.
pub update_after_trade-Untouched :
    (w : World) (n : ℕ) (o : OrderMessage) (c : Cache) (s : UserStockVolume)
    → IsEtfSale o
    → holding o.account_id o.stock_id c ≡ some s
    → Fits s.stk_balance
    → o.sell_etf_cps.first + o.sell_etf_cps.avl < u64_mod
    → o.sell_etf_cps.first + o.sell_etf_cps.avl ≤ n
    → (c' : Cache) × (s' : UserStockVolume) × (trade w n o c
        ≡ some (
          success,
          record o { order_qty_matched = n; sell_etf_cps = record { first = 0; avl = 0 } },
          c',
        ))
      × (holding o.account_id o.stock_id c' ≡ some s')
      × Untouched s s'
unfolding update_etf_sale
update_after_trade-Untouched w n o c s i h b k l =
    let o1 = record o { order_qty_matched = n } in
    let (taken, left) = sell_etf_split n o.sell_etf_cps o.sell_cps in
    let e = sell_etf_split-all n o.sell_etf_cps o.sell_cps l k in
    let m = account_sell_etf_confirm w o.account_id o.stock_id taken in
    let d =
      and_then-Passed o1 o.account_id o.stock_id c s m
        (confirm-Passed w o.account_id o.stock_id taken c s (ap (λ x. x.0) e ∙ i.other) h b) in
    (
      d.after,
      d.holding_after,
      update_after_trade-etf_sale w o1 c
            (record { listed = i.listed; type = i.type; checked = i.checked; other = i.other })
          ∙ with_order-some (record o1 { sell_etf_cps = left })
              (and_then o1 (cache_sell_etf_syn o.account_id o.stock_id) m) c (success, d.after)
              d.returned
          ∙ ap (λ x. some (success, record o1 { sell_etf_cps = x.1 }, d.after)) e,
      d.found,
      d.untouched,
    )

-- The cancellation of a sale of shares, of which something is left and whose account is checked, meets a null pointer
-- if the holdings have been cleared at the end of the day since.
pub update_after_cancel-day_end_clean_up :
    (w : World) (o : OrderMessage) (c : Cache)
    → IsSale o
    → o.leaves_qty ≢ 0
    → update_after_cancel w o (day_end_clean_up c) ≡ none
unfolding day_end_clean_up
update_after_cancel-day_end_clean_up w o c i z =
    update_after_cancel-sale w o (day_end_clean_up c) i z

-- In the normal mode, a sale of shares whose account is checked and of which nothing is held, in the map or in the
-- database, meets a null pointer: the confirmation fails, and its code is not looked at before the holding is
-- synchronised.
pub update_after_trade-unknown :
    (w : World) (o : OrderMessage) (c : Cache)
    → IsSale o
    → is_normal o.trade_policy.run_mode ≡ true
    → known w o.account_id o.stock_id c ≡ none
    → update_after_trade w o c ≡ none
unfolding update_sale account_sell_confirm cache_sell_syn
update_after_trade-unknown w o c i n k =
    let (taken, left) = sell_split o.order_qty_matched o.sell_cps in
    let syn = cache_sell_syn o.account_id o.stock_id in
    let m = account_sell_confirm w o.account_id o.stock_id taken in
    update_after_trade-sale w o c i
    ∙ with_order-none (record o { sell_cps = left }) (and_then o syn m) c
        (and_then-none o syn m c (failure, c)
          (looked_up-unknown w o.account_id o.stock_id (sell_confirm w.time taken.first taken.avl) c
            k)
          n (synchronise-none o.account_id o.stock_id _ c (holding-unknown w _ _ c k)))
  where
    with_order-none : (o : OrderMessage) (m : Op) (c : Cache) → m c ≡ none → with_order o m c ≡ none
    with_order-none o m c h = rw (h, with_order) refl

    and_then-none :
        (o : OrderMessage) (n m : Op) (c : Cache) (r : Code × Cache)
        → m c ≡ some r
        → is_normal o.trade_policy.run_mode ≡ true
        → n r.1 ≡ none
        → and_then o n m c ≡ none
    and_then-none o n m c r h e k = rw (h, and_then) (rw e k)

    synchronise-none :
        (a k : String) (f : UserStockVolume → Sql × UserStockVolume) (c : Cache)
        → holding a k c ≡ none
        → synchronise a k f c ≡ none
    synchronise-none a k f c h = rw (h, synchronise) refl

    holding-unknown :
        (w : World) (a k : String) (c : Cache) → known w a k c ≡ none → holding a k c ≡ none
    holding-unknown w a k c h = elim (Option-cases (holding a k c)) [
      | inl e ↦ e
      | inr (s, e) ↦ absurd (none≢some (sym h ∙ known-holding w a k c s e))
    ]
