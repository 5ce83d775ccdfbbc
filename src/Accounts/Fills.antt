-- ===== src/Accounts/Fills.antt =====
-- A sale of shares that is traded in parts, with what is left cancelled.
use simutgw_src.Common.{
  if-true, if-false, if-not, ℕ, ◌+◌, ◌≤◌, ◌<◌, String, ◌≡◌, ◌⊎◌, inl, inr, refl, ap, ◌∙◌, true,
  false, Option, some, Code, success, arith, u64_mod, str_eq, Bool-cases,
}
use simutgw_src.Volume.{db_syn, reset_syn}
use simutgw_src.Stock.{UserStockVolume}
use simutgw_src.Stock.Sell.{sell_confirm, sell_db_syn}
use simutgw_src.Trade.{TradeType, a_trade, b_trade, Cps, OrderMessage}
use simutgw_src.Accounts.{
  Cache, World, Op, stock_asset, stock_etf_redemption_balance, holding, store, look_up,
}
use simutgw_src.Accounts.Methods.{account_sell_confirm}
use simutgw_src.Accounts.Synchronise.{cache_sell_syn, synchronise, exc_update_sql, three_of}
use simutgw_src.Accounts.Orders.{
  is_sell_side, is_normal, and_then, with_order, sell_split, update_sale, update_by_type,
  update_ordinary, update_trade, update_after_trade,
}
use simutgw_src.Accounts.Lookup.{known, holding-store, looked_up-known}
use simutgw_src.Accounts.Split.{Backed, Filled, sell_split-Shares, sell_confirm-Filled}

-- Where orders for shares come from.
pub data Listed (market appl : String) : Type 0 where
  shenzhen : str_eq market "102" ≡ true → str_eq appl "010" ≡ true → Listed market appl
  shanghai : str_eq market "102" ≡ false → str_eq market "101" ≡ true → Listed market appl

-- A sale of shares whose account is checked.
pub record IsSale (o : OrderMessage) : Type 0 where
  pub listed : Listed o.trade_market o.appl_id
  pub type : (o.trade_type ≡ a_trade) ⊎ (o.trade_type ≡ b_trade)
  pub side : is_sell_side o.side ≡ true
  pub checked : o.trade_policy.check_assets ≡ true

-- `n` shares of an order have been matched.
abbrev pub trade : World → ℕ → OrderMessage → Cache → Option (Code × OrderMessage × Cache)
trade w n o c = update_after_trade w (record o { order_qty_matched = n }) c

update_ordinary-sale :
    (w : World) (o : OrderMessage) (c : Cache)
    → is_sell_side o.side ≡ true
    → update_ordinary w o c ≡ update_sale w o c
update_ordinary-sale w o c h = rw h refl

by_type-sale :
    (w : World) (o : OrderMessage) (t : TradeType) (c : Cache)
    → is_sell_side o.side ≡ true
    → (t ≡ a_trade) ⊎ (t ≡ b_trade)
    → update_by_type w t o c ≡ update_sale w o c
by_type-sale w o t c h (inl e) = rw e (update_ordinary-sale w o c h)
by_type-sale w o t c h (inr e) = rw e (update_ordinary-sale w o c h)

pub update_after_trade-Listed :
    (w : World) (o : OrderMessage) (c : Cache)
    → Listed o.trade_market o.appl_id
    → update_after_trade w o c ≡ update_trade w o c
unfolding update_after_trade
update_after_trade-Listed w o c (shenzhen e f) =
    if-true (str_eq o.trade_market "102") _ _ e ∙ if-true (str_eq o.appl_id "010") _ _ f
update_after_trade-Listed w o c (shanghai e f) =
    if-false (str_eq o.trade_market "102") _ _ e ∙ if-true (str_eq o.trade_market "101") _ _ f

pub update_after_trade-sale :
    (w : World) (o : OrderMessage) (c : Cache)
    → IsSale o
    → update_after_trade w o c ≡ update_sale w o c
unfolding update_trade
update_after_trade-sale w o c h =
    update_after_trade-Listed w o c h.listed
    ∙ if-not o.trade_policy.check_assets _ _ h.checked
    ∙ by_type-sale w o o.trade_type c h.side h.type

pub known-holding :
    (w : World) (a k : String) (c : Cache) (s : UserStockVolume)
    → holding a k c ≡ some s
    → known w a k c ≡ some s
known-holding w a k c s h = rw (h, known) refl

-- A call has returned 0 and left a holding of which the shares are sold.
record Sold (a k : String) (s : UserStockVolume) (p : Cps) (n : ℕ) (left : Cps)
    (r : Option (Code × Cache)) : Type 0 where
  after : Cache
  holding_after : UserStockVolume
  returned : r ≡ some (success, after)
  found : holding a k after ≡ some holding_after
  filled : Filled s p n holding_after left

Backed-lt : (s : UserStockVolume) (p : Cps) → Backed s p → p.first + p.avl < u64_mod
Backed-lt s p b = omega (arith, b.balance, b.fits.stk)

confirm-Sold :
    (w : World) (a k : String) (n : ℕ) (p : Cps) (c : Cache) (s : UserStockVolume)
    → holding a k c ≡ some s
    → Backed s p
    → n ≤ p.first + p.avl
    → Sold a k s p n (sell_split n p).1 (account_sell_confirm w a k (sell_split n p).0 c)
unfolding account_sell_confirm
confirm-Sold w a k n p c s h b l =
    let (taken, left) = sell_split n p in
    let f = sell_confirm w.time taken.first taken.avl in
    let (ok, filled) =
      sell_confirm-Filled w.time n s p taken left b (sell_split-Shares n p l (Backed-lt s p b)) in
    record {
      after = store a k (f s).1 (look_up w a k c).1;
      holding_after = (f s).1;
      returned =
          looked_up-known w a k f c s (known-holding w a k c s h)
          ∙ ap (λ x. some (x, store a k (f s).1 (look_up w a k c).1)) ok;
      found = holding-store a k (f s).1 (look_up w a k c).1;
      filled = filled;
    }

-- A synchronisation leaves the frozen and the free parts alone.
syn-Filled :
    (s s' : UserStockVolume) (p left : Cps) (n : ℕ) (a k : String)
    → Filled s p n s' left
    → Filled s p n (three_of stock_asset stock_etf_redemption_balance sell_db_syn a k s').1 left
unfolding sell_db_syn db_syn reset_syn
syn-Filled s s' p left n a k f = ground arith

and_then-Sold :
    (o : OrderMessage) (a k : String) (n : ℕ) (p left : Cps) (c : Cache) (s : UserStockVolume)
    (m : Op)
    → Sold a k s p n left (m c)
    → Sold a k s p n left (and_then o (cache_sell_syn a k) m c)
unfolding cache_sell_syn exc_update_sql
and_then-Sold o a k n p left c s m d =
    let f = three_of stock_asset stock_etf_redemption_balance sell_db_syn a k in
    elim (Bool-cases (is_normal o.trade_policy.run_mode)) [
      | inl e ↦ record {
        after = exc_update_sql (f d.holding_after).0 (store a k (f d.holding_after).1 d.after);
        holding_after = (f d.holding_after).1;
        returned = rw (d.returned, and_then) (rw e (rw (d.found, synchronise) refl));
        found = holding-store a k (f d.holding_after).1 d.after;
        filled = syn-Filled s d.holding_after p left n a k d.filled;
      }
      | inr e ↦ record {
        after = d.after;
        holding_after = d.holding_after;
        returned = rw (d.returned, and_then) (rw e refl);
        found = d.found;
        filled = d.filled;
      }
    ]

pub with_order-some :
    (o : OrderMessage) (m : Op) (c : Cache) (r : Code × Cache)
    → m c ≡ some r
    → with_order o m c ≡ some (r.0, o, r.1)
with_order-some o m c r h = rw (h, with_order) refl

-- What a trade leaves behind: the order with less frozen, and a holding.
pub record Trade (n : ℕ) (o : OrderMessage) (s : UserStockVolume) (c : Cache)
    (r : Option (Code × OrderMessage × Cache)) : Type 0 where
  pub left : Cps
  pub after : Cache
  pub holding_after : UserStockVolume
  pub returned : r ≡ some (success, record o { order_qty_matched = n; sell_cps = left }, after)
  pub found : holding o.account_id o.stock_id after ≡ some holding_after
  pub filled : Filled s o.sell_cps n holding_after left

-- `UpdateAfterTrade` of a sale of shares whose account is checked, in any run mode: if what is frozen for the
-- order is frozen of the holding too, and no more than that has been matched, it returns 0, takes the amount
-- out of the frozen parts of the two sources and of the balance, and leaves the rest of it frozen for the order.
pub update_after_trade-Trade :
    (w : World) (n : ℕ) (o : OrderMessage) (c : Cache) (s : UserStockVolume)
    → IsSale o
    → holding o.account_id o.stock_id c ≡ some s
    → Backed s o.sell_cps
    → n ≤ o.sell_cps.first + o.sell_cps.avl
    → Trade n o s c (trade w n o c)
unfolding update_sale
update_after_trade-Trade w n o c s i h b l =
    let o1 = record o { order_qty_matched = n } in
    let (taken, left) = sell_split n o.sell_cps in
    let d =
      and_then-Sold o1 o.account_id o.stock_id n o.sell_cps left c s
        (account_sell_confirm w o.account_id o.stock_id taken)
        (confirm-Sold w o.account_id o.stock_id n o.sell_cps c s h b l) in
    record {
      left = left;
      after = d.after;
      holding_after = d.holding_after;
      returned =
          update_after_trade-sale w o1 c
            (record { listed = i.listed; type = i.type; side = i.side; checked = i.checked })
          ∙ with_order-some (record o1 { sell_cps = left })
              (and_then o1 (cache_sell_syn o.account_id o.stock_id)
                (account_sell_confirm w o.account_id o.stock_id taken))
              c (success, d.after) d.returned;
      found = d.found;
      filled = d.filled;
    }
