-- ===== src/Prep/Sales.antt =====
-- A sale of shares from its preparation to its end.
use simutgw_src.Common.{
  ℕ, ◌+◌, ◌-◌, ◌≤◌, String, true, ◌&&◌, ◌≡◌, inl, refl, ap, ◌∙◌, Option, none, some, List, Code,
  success, failure, is_ok, arith, if◌then◌else◌, if-true,
}
use simutgw_src.Volume.Account.{total}
use simutgw_src.Stock.{UserStockVolume}
use simutgw_src.Stock.Sell.{sell_froze}
use simutgw_src.Stock.Uses.{sell}
use simutgw_src.Stock.Outcomes.{shared}
use simutgw_src.Trade.{a_trade, OrderMessage, Cps}
use simutgw_src.Accounts.{Cache, World, holding, store, look_up}
use simutgw_src.Accounts.Methods.{account_sell_froze}
use simutgw_src.Accounts.Lookup.{known, holding-store, frozen-known}
use simutgw_src.Accounts.Orders.{is_sell_side}
use simutgw_src.Accounts.Split.{SameRest}
use simutgw_src.Accounts.Fills.{Listed}
use simutgw_src.Accounts.Sales.{sum, Settled, trades_and_cancel, trades_and_cancel-Settled}
use simutgw_src.Prep.{Doubles, Sources, get_trade_type}
use simutgw_src.Prep.Dispatch.{
  prepared, froze_failed, quotation_failed, Prep, by_quotation, prep_sale, prep_by_type, trade_prep,
}
use simutgw_src.Prep.Freeze.{CanFroze, Frozen, sell_froze-Frozen, Frozen-Backed}

-- A sale of shares that `GetTradeType` takes for one of A shares, whose account is checked and which the
-- quotation, where it is used, lets pass.
pub record IsNewSale (d : Doubles) (q : Sources d.Double) (o : OrderMessage) : Type 0 where
  pub kind : get_trade_type o ≡ (a_trade, record o { trade_type = a_trade })
  pub quotation :
      by_quotation d q (record o { trade_type = a_trade })
      ≡ (success, record o { trade_type = a_trade })
  pub checked : o.trade_policy.check_assets ≡ true
  pub side : is_sell_side o.side ≡ true
  pub listed : Listed o.trade_market o.appl_id

-- The order as `TradePrep` leaves it.
abbrev pub prepared_sale : OrderMessage → Cps → OrderMessage
prepared_sale o p = record o { trade_type = a_trade; sell_cps = p }

-- The order and the holding after `TradePrep`.
record Prepares (w : World) (o : OrderMessage) (s : UserStockVolume) (r : Prep) : Type 0 where
  cps : Cps
  after : Cache
  holding_after : UserStockVolume
  returned : r ≡ some (prepared, prepared_sale o cps, after)
  found : holding o.account_id o.stock_id after ≡ some holding_after
  frozen : Frozen s o.leaves_qty cps holding_after

account_sell_froze-known :
    (w : World) (a k : String) (n : ℕ) (p : Cps) (c : Cache) (s : UserStockVolume)
    → known w a k c ≡ some s
    → CanFroze s n
    → let i = s.stk_etf_rdp_balance.un_froze_volume in
      account_sell_froze w a k n p c
      ≡ some (
        success,
        record { first = i; avl = n - i },
        store a k (shared sell w.time n s) (look_up w a k c).1,
      )
unfolding account_sell_froze
account_sell_froze-known w a k n p c s h f =
    frozen-known w a k (sell_froze w.time n) p c s h
    ∙ ap (λ r. some (r.0, record { first = r.1; avl = r.2 }, store a k r.3 (look_up w a k c).1))
        (sell_froze-Frozen w.time n s f).0

prep_sale-some :
    (d : Doubles) (q : Sources d.Double) (o : OrderMessage) (p : Cps) (c c' : Cache)
    → o.trade_policy.check_assets ≡ true
    → is_sell_side o.side ≡ true
    → account_sell_froze q.world o.account_id o.stock_id o.leaves_qty o.sell_cps c
      ≡ some (success, p, c')
    → prep_sale d q o c ≡ some (prepared, record o { sell_cps = p }, c')
unfolding prep_sale
prep_sale-some d q o p c c' h i e =
    if-true (o.trade_policy.check_assets && is_sell_side o.side) _ _ (ground arith)
    ∙ rw (e, prep_sale) refl

trade_prep-Prepares :
    (d : Doubles) (q : Sources d.Double) (o : OrderMessage) (c : Cache) (s : UserStockVolume)
    → IsNewSale d q o
    → known q.world o.account_id o.stock_id c ≡ some s
    → CanFroze s o.leaves_qty
    → Prepares q.world o s (trade_prep d q o c)
unfolding trade_prep
trade_prep-Prepares d q o c s i h f =
    let w = q.world in
    let a = s.stk_etf_rdp_balance.un_froze_volume in
    let p : Cps = record { first = a; avl = o.leaves_qty - a } in
    let s' = shared sell w.time o.leaves_qty s in
    let c' = store o.account_id o.stock_id s' (look_up w o.account_id o.stock_id c).1 in
    let e = account_sell_froze-known w o.account_id o.stock_id o.leaves_qty o.sell_cps c s h f in
    record {
      cps = p;
      after = c';
      holding_after = s';
      returned =
          ap (λ r. prep_by_type d q r.0 r.1 c) i.kind
          ∙ ap (λ r. if is_ok r.0 then prep_sale d q r.1 c else some (quotation_failed, r.1, c))
              i.quotation
          ∙ prep_sale-some d q (record o { trade_type = a_trade }) p c c' i.checked i.side e;
      found = holding-store o.account_id o.stock_id s' (look_up w o.account_id o.stock_id c).1;
      frozen = (sell_froze-Frozen w.time o.leaves_qty s f).1;
    }

-- `TradePrep`, trades of a prepared order, and then its cancellation.
unfoldable pub sale_day :
    (d : Doubles) → Sources d.Double → List ℕ → OrderMessage → Cache → Option (Code × Cache)
sale_day d q ns o c = elim (trade_prep d q o c) [
  | none ↦ none
  | some (prepared, o', c') ↦ trades_and_cancel q.world ns o' c'
  | some (froze_failed, o', c') ↦ some (failure, c')
  | some (quotation_failed, o', c') ↦ some (failure, c')
]

-- `n` shares have left a holding, of which no more is frozen than before.
pub record Sold (s : UserStockVolume) (n : ℕ) (s' : UserStockVolume) : Type 0 where
  pub first : s'.stk_etf_rdp_balance.forze_volume ≡ s.stk_etf_rdp_balance.forze_volume
  pub avl : s'.stk_avl_balance.forze_volume ≡ s.stk_avl_balance.forze_volume
  pub balance : s'.stk_balance.forze_volume ≡ s.stk_balance.forze_volume
  pub sold :
      total s'.stk_etf_rdp_balance + total s'.stk_avl_balance + n
      ≡ total s.stk_etf_rdp_balance + total s.stk_avl_balance
  pub whole : total s'.stk_balance + n ≡ total s.stk_balance
  pub rest : SameRest s s'

Settled-Sold :
    (s s' s'' : UserStockVolume) (m n : ℕ) (p : Cps)
    → Frozen s m p s'
    → Settled s' p n s''
    → Sold s n s''
Settled-Sold s s' s'' m n p f g = record {
  first = omega (arith, f.first, g.first);
  avl = omega (arith, f.avl, g.avl);
  balance = omega (arith, f.balance, f.amount, g.balance);
  sold = omega (arith, f.first_total, f.avl_total, g.sold);
  whole = omega (arith, f.balance, f.balance_total, f.amount, g.balance, g.free);
  rest = record {
    act = g.rest.act ∙ f.rest.act;
    stp = g.rest.stp ∙ f.rest.stp;
    crt = g.rest.crt ∙ f.rest.crt;
  };
}

-- A sale of A shares whose account is checked, and which the quotation lets pass where it is used, of a holding that
-- is in the map or in the database. The holding covers it, but not by the redeemed shares alone. It is
-- prepared by `TradePrep`, traded in any parts that are no more than it in all, in any run mode, and then
-- cancelled: every call returns 0. Just the amount that was traded has left the holding, from the two sources of
-- a sale and from the balance alike, and of each of them as much is frozen as before.
pub sale_day-Sold :
    (d : Doubles) (q : Sources d.Double) (ns : List ℕ) (o : OrderMessage) (c : Cache)
    (s : UserStockVolume)
    → IsNewSale d q o
    → known q.world o.account_id o.stock_id c ≡ some s
    → CanFroze s o.leaves_qty
    → sum ns ≤ o.leaves_qty
    → (c' : Cache) × (s' : UserStockVolume) × (sale_day d q ns o c ≡ some (success, c'))
      × (holding o.account_id o.stock_id c' ≡ some s')
      × Sold s (sum ns) s'
unfolding sale_day
sale_day-Sold d q ns o c s i h f l =
    let r = trade_prep-Prepares d q o c s i h f in
    let b = Frozen-Backed s r.holding_after o.leaves_qty r.cps r.frozen in
    let (c', s', e, k, t) =
      trades_and_cancel-Settled q.world ns (prepared_sale o r.cps) r.after r.holding_after
        (record { listed = i.listed; type = inl refl; side = i.side; checked = i.checked })
        (omega (arith, f.short)) r.found b (omega (arith, l, r.frozen.amount)) in
    (
      c',
      s',
      rw (r.returned, sale_day) e,
      k,
      Settled-Sold s r.holding_after s' o.leaves_qty (sum ns) r.cps r.frozen t,
    )
