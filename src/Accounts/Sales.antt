-- ===== src/Accounts/Sales.antt =====
-- A sale of shares that is traded in parts, and whose rest is cancelled.
use simutgw_src.Common.{
  ℕ, ◌+◌, ◌≤◌, String, ◌≡◌, ◌≢◌, ◌⊎◌, inl, inr, refl, ap, ◌∙◌, Bool, true, false, Option, none,
  some, List, [], ◌∷◌, Code, success, failure, arith, str_eq, if-true, if-false, ◌==◌, not, ◌||◌,
}
use simutgw_src.Volume.Account.{total}
use simutgw_src.Stock.{UserStockVolume}
use simutgw_src.Stock.Sell.{sell_defroze}
use simutgw_src.Trade.{TradeType, a_trade, b_trade, Cps, OrderMessage}
use simutgw_src.Accounts.{Cache, World, holding, store, at_stock}
use simutgw_src.Accounts.Orders.{is_sell_side, cancel_by_type, update_cancel, update_after_cancel}
use simutgw_src.Accounts.Lookup.{holding-store}
use simutgw_src.Accounts.Split.{Backed, SameRest, Filled, Freed, sell_defroze-Freed}
use simutgw_src.Accounts.Fills.{Listed, shenzhen, shanghai, IsSale, trade, update_after_trade-Trade}

abbrev pub sum : List ℕ → ℕ
sum [] = 0
sum (n ∷ ns) = n + sum ns

-- One trade after another, up to one that fails.
unfoldable pub trades : World → List ℕ → OrderMessage → Cache → Option (Code × OrderMessage × Cache)
trades w [] o c = some (success, o, c)
trades w (n ∷ ns) o c = elim (trade w n o c) [
  | none ↦ none
  | some (failure, o', c') ↦ some (failure, o', c')
  | some (success, o', c') ↦ trades w ns o' c'
]

Filled-none : (s : UserStockVolume) (p : Cps) → Backed s p → Filled s p 0 s p
Filled-none s p b = ground arith

Filled-Filled :
    (s s' s'' : UserStockVolume) (p p' p'' : Cps) (m n : ℕ)
    → Filled s p m s' p'
    → Filled s' p' n s'' p''
    → Filled s p (m + n) s'' p''
Filled-Filled s s' s'' p p' p'' m n f g = ground arith

-- All trades have succeeded, and `n` shares are sold.
record Trades (n : ℕ) (o : OrderMessage) (s : UserStockVolume)
    (r : Option (Code × OrderMessage × Cache)) : Type 0 where
  last : ℕ
  left : Cps
  after : Cache
  holding_after : UserStockVolume
  returned : r ≡ some (success, record o { order_qty_matched = last; sell_cps = left }, after)
  found : holding o.account_id o.stock_id after ≡ some holding_after
  filled : Filled s o.sell_cps n holding_after left

trades-Trades :
    (w : World) (ns : List ℕ) (o : OrderMessage) (c : Cache) (s : UserStockVolume)
    → IsSale o
    → holding o.account_id o.stock_id c ≡ some s
    → Backed s o.sell_cps
    → sum ns ≤ o.sell_cps.first + o.sell_cps.avl
    → Trades (sum ns) o s (trades w ns o c)
unfolding trades
trades-Trades w [] o c s i h b l = record {
  last = o.order_qty_matched;
  left = o.sell_cps;
  after = c;
  holding_after = s;
  returned = refl;
  found = h;
  filled = Filled-none s o.sell_cps b;
}
trades-Trades w (n ∷ ns) o c s i h b l =
    let t = update_after_trade-Trade w n o c s i h b (omega (arith, l)) in
    let o1 = record o { order_qty_matched = n; sell_cps = t.left } in
    let r =
      trades-Trades w ns o1 t.after t.holding_after
        (record { listed = i.listed; type = i.type; side = i.side; checked = i.checked }) t.found
        t.filled.backed (omega (arith, l, t.filled.order)) in
    record {
      last = r.last;
      left = r.left;
      after = r.after;
      holding_after = r.holding_after;
      returned = rw (t.returned, trades) r.returned;
      found = r.found;
      filled =
          Filled-Filled s t.holding_after r.holding_after o.sell_cps t.left r.left n (sum ns)
            t.filled r.filled;
    }

-- `UpdateAfterCancel` of a sale of which something is left.
cancel_by_type-sale :
    (w : World) (o : OrderMessage) (t : TradeType) (c : Cache)
    → is_sell_side o.side ≡ true
    → (t ≡ a_trade) ⊎ (t ≡ b_trade)
    → cancel_by_type w t o c
      ≡ at_stock o.account_id o.stock_id (sell_defroze w.time o.sell_cps.first o.sell_cps.avl) c
cancel_by_type-sale w o t c h (inl e) = rw e (rw h refl)
cancel_by_type-sale w o t c h (inr e) = rw e (rw h refl)

update_after_cancel-Listed :
    (w : World) (o : OrderMessage) (c : Cache)
    → Listed o.trade_market o.appl_id
    → update_after_cancel w o c ≡ update_cancel w o c
unfolding update_after_cancel
update_after_cancel-Listed w o c (shenzhen e f) =
    if-true (str_eq o.trade_market "102") _ _ e ∙ if-true (str_eq o.appl_id "010") _ _ f
update_after_cancel-Listed w o c (shanghai e f) =
    if-false (str_eq o.trade_market "102") _ _ e ∙ if-true (str_eq o.trade_market "101") _ _ f

leaves-test : (b : Bool) (n : ℕ) → b ≡ true → n ≢ 0 → (not b || (n == 0)) ≡ false
leaves-test b n h z = ground arith

pub update_after_cancel-sale :
    (w : World) (o : OrderMessage) (c : Cache)
    → IsSale o
    → o.leaves_qty ≢ 0
    → update_after_cancel w o c
      ≡ at_stock o.account_id o.stock_id (sell_defroze w.time o.sell_cps.first o.sell_cps.avl) c
unfolding update_cancel
update_after_cancel-sale w o c i z =
    update_after_cancel-Listed w o c i.listed
    ∙ if-false (not o.trade_policy.check_assets || (o.leaves_qty == 0)) _ _
        (leaves-test o.trade_policy.check_assets o.leaves_qty i.checked z)
    ∙ cancel_by_type-sale w o o.trade_type c i.side i.type

-- Trades, and then the cancellation of the rest.
unfoldable pub trades_and_cancel : World → List ℕ → OrderMessage → Cache → Option (Code × Cache)
trades_and_cancel w ns o c = elim (trades w ns o c) [
  | none ↦ none
  | some (failure, o', c') ↦ some (failure, c')
  | some (success, o', c') ↦ update_after_cancel w o' c'
]

-- Of a holding, `n` shares are sold; nothing that was frozen as `p` is frozen still, and what was not sold of it is
-- free.
pub record Settled (s : UserStockVolume) (p : Cps) (n : ℕ) (s' : UserStockVolume) : Type 0 where
  pub first : s'.stk_etf_rdp_balance.forze_volume + p.first ≡ s.stk_etf_rdp_balance.forze_volume
  pub avl : s'.stk_avl_balance.forze_volume + p.avl ≡ s.stk_avl_balance.forze_volume
  pub balance : s'.stk_balance.forze_volume + p.first + p.avl ≡ s.stk_balance.forze_volume
  pub free : s'.stk_balance.un_froze_volume + n ≡ s.stk_balance.un_froze_volume + p.first + p.avl
  pub sold :
      total s'.stk_etf_rdp_balance + total s'.stk_avl_balance + n
      ≡ total s.stk_etf_rdp_balance + total s.stk_avl_balance
  pub rest : SameRest s s'

Freed-Filled :
    (s s' s'' : UserStockVolume) (p p' : Cps) (n : ℕ)
    → Filled s p n s' p'
    → Freed s' p' s''
    → Settled s p n s''
Freed-Filled s s' s'' p p' n f g = ground arith

pub at_stock-some :
    (a k : String) (f : UserStockVolume → Code × UserStockVolume) (c : Cache) (s : UserStockVolume)
    → holding a k c ≡ some s
    → at_stock a k f c ≡ some ((f s).0, store a k (f s).1 c)
at_stock-some a k f c s h = rw (h, at_stock) refl

-- A sale of shares whose account is checked, with as much frozen of the holding as for the order, is traded in any
-- parts that are no more than that in all, in any run mode, and then cancelled. Every call returns 0. Just the
-- amount that was traded has left the holding, from the two sources of a sale and from the balance alike;
-- nothing is frozen for the order any more, and what was not sold of it is free.
pub trades_and_cancel-Settled :
    (w : World) (ns : List ℕ) (o : OrderMessage) (c : Cache) (s : UserStockVolume)
    → IsSale o
    → o.leaves_qty ≢ 0
    → holding o.account_id o.stock_id c ≡ some s
    → Backed s o.sell_cps
    → sum ns ≤ o.sell_cps.first + o.sell_cps.avl
    → (c' : Cache) × (s' : UserStockVolume) × (trades_and_cancel w ns o c ≡ some (success, c'))
      × (holding o.account_id o.stock_id c' ≡ some s')
      × Settled s o.sell_cps (sum ns) s'
unfolding trades_and_cancel
trades_and_cancel-Settled w ns o c s i z h b l =
    let r = trades-Trades w ns o c s i h b l in
    let o1 = record o { order_qty_matched = r.last; sell_cps = r.left } in
    let f = sell_defroze w.time r.left.first r.left.avl in
    let (ok, freed) = sell_defroze-Freed w.time r.holding_after r.left r.filled.backed in
    (
      store o.account_id o.stock_id (f r.holding_after).1 r.after,
      (f r.holding_after).1,
      rw (r.returned, trades_and_cancel)
          (update_after_cancel-sale w o1 r.after
              (record { listed = i.listed; type = i.type; side = i.side; checked = i.checked }) z
            ∙ at_stock-some o.account_id o.stock_id f r.after r.holding_after r.found
            ∙ ap (λ x. some (x, store o.account_id o.stock_id (f r.holding_after).1 r.after)) ok),
      holding-store o.account_id o.stock_id (f r.holding_after).1 r.after,
      Freed-Filled s r.holding_after (f r.holding_after).1 o.sell_cps r.left (sum ns) r.filled
          freed,
    )
