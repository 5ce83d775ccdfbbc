-- ===== src/Match/Holdings.antt =====
-- What the match and the cancellation of a sale of shares do to the holding.
use simutgw_src.Common.{
  ℕ, ◌+◌, ◌/◌, ◌≤◌, ◌<◌, min, ◌≡◌, ◌≢◌, inl, inr, refl, sym, subst, some, arith, u64_mod, sub64,
  mul64, le-or-lt, le→not_ltb, lt→ltb,
}
use simutgw_src.Stock.{UserStockVolume}
use simutgw_src.Trade.{OrderMessage}
use simutgw_src.Trade.Prices.{MayMatch, check_match_method-MayMatch}
use simutgw_src.Accounts.{Cache, holding}
use simutgw_src.Accounts.Split.{Backed, Filled}
use simutgw_src.Accounts.Fills.{IsSale, update_after_trade-Trade}
use simutgw_src.Match.{Desk, Market, push_back}
use simutgw_src.Match.Fill.{
  part_filled, all_filled, cancelled_rest, Result, after_trade, Rest, keep_rest, cancel_rest,
  with_rest, fill, checked_fill,
}
use simutgw_src.Match.Bounds.{Way, match_by, is_limit, rest_of, match_by-checked}

-- The order, and what is frozen for it, fit the holding.
pub record IsHeld (o : OrderMessage) (s : UserStockVolume) (c : Cache) : Type 0 where
  pub sale : IsSale o
  pub found : holding o.account_id o.stock_id c ≡ some s
  pub backed : Backed s o.sell_cps
  pub enough : o.leaves_qty ≤ o.sell_cps.first + o.sell_cps.avl
  pub size : o.leaves_qty < u64_mod

-- `n` shares of an order have been matched: they have left the holding, and the rest stays frozen for the order.
pub record Sells (n : ℕ) (o : OrderMessage) (s : UserStockVolume) (r : Result) : Type 0 where
  pub order : OrderMessage
  pub desk : Desk
  pub volume : ℕ
  pub money : ℕ
  pub holding_after : UserStockVolume
  pub returned : r ≡ some (order, desk, volume, money)
  pub amount : order.order_qty_matched ≡ n
  pub found : holding o.account_id o.stock_id desk.cache ≡ some holding_after
  pub filled : Filled s o.sell_cps n holding_after order.sell_cps

after_trade-Sells :
    (m : Market) (cjsl cjje : ℕ) (o o' : OrderMessage) (s : UserStockVolume) (d : Desk)
    → IsSale o'
    → o'.sell_cps ≡ o.sell_cps
    → o'.account_id ≡ o.account_id
    → o'.stock_id ≡ o.stock_id
    → holding o'.account_id o'.stock_id d.cache ≡ some s
    → Backed s o'.sell_cps
    → o'.order_qty_matched ≤ o'.sell_cps.first + o'.sell_cps.avl
    → Sells o'.order_qty_matched o s (after_trade m cjsl cjje o' d)
after_trade-Sells m cjsl cjje o o' s d i ep ea ek h b l =
    let t = update_after_trade-Trade m.world o'.order_qty_matched o' d.cache s i h b l in
    record {
      order = record o' { sell_cps = t.left };
      desk = record d { cache = t.after };
      volume = cjsl;
      money = cjje;
      holding_after = t.holding_after;
      returned = rw (t.returned, after_trade) refl;
      amount = refl;
      found =
          subst (λ x. holding x o.stock_id t.after ≡ some t.holding_after) ea
            (subst (λ x. holding o'.account_id x t.after ≡ some t.holding_after) ek t.found);
      filled = subst (λ x. Filled s x o'.order_qty_matched t.holding_after t.left) ep t.filled;
    }

pub push_back-cache : (o : OrderMessage) (d : Desk) → (push_back o d).1.cache ≡ d.cache
unfolding push_back
push_back-cache o d = grind arith

part-Sells :
    (rest : Rest) (m : Market) (cjsl cjje : ℕ) (o : OrderMessage) (s : UserStockVolume) (d : Desk)
    → IsHeld o s d.cache
    → cjsl < o.leaves_qty
    → let r = with_rest rest (part_filled (cjje / cjsl) cjsl o) d in
      Sells cjsl o s (after_trade m 0 0 r.0 r.1)
unfolding cancelled_rest
part-Sells keep_rest m cjsl cjje o s d i l =
    after_trade-Sells m 0 0 o (part_filled (cjje / cjsl) cjsl o) s d
      (record {
        listed = i.sale.listed;
        type = i.sale.type;
        side = i.sale.side;
        checked = i.sale.checked;
      })
      refl refl refl i.found i.backed (omega (arith, l, i.enough))
part-Sells cancel_rest m cjsl cjje o s d i l =
    let o' = cancelled_rest (part_filled (cjje / cjsl) cjsl o) in
    after_trade-Sells m 0 0 o o' s (push_back o' d).1
      (record {
        listed = i.sale.listed;
        type = i.sale.type;
        side = i.sale.side;
        checked = i.sale.checked;
      })
      refl refl refl
      (subst (λ x. holding o.account_id o.stock_id x ≡ some s) (sym (push_back-cache o' d)) i.found)
      i.backed (omega (arith, l, i.enough))

fill-Sells :
    (rest : Rest) (m : Market) (cjsl cjje : ℕ) (o : OrderMessage) (s : UserStockVolume) (d : Desk)
    → IsHeld o s d.cache
    → Sells (min o.leaves_qty cjsl) o s (fill rest m cjsl cjje o d)
fill-Sells rest m cjsl cjje o s d i = elim (le-or-lt o.leaves_qty cjsl) [
  | inl l ↦
      let e : o.leaves_qty ≡ min o.leaves_qty cjsl = omega (arith, l) in
      rw (le→not_ltb cjsl o.leaves_qty l, fill)
        (subst
          (λ n. Sells n o s (
            after_trade m (sub64 cjsl o.leaves_qty) (sub64 cjje (mul64 o.leaves_qty (cjje / cjsl)))
              (all_filled (cjje / cjsl) o) d))
          e
          (after_trade-Sells m (sub64 cjsl o.leaves_qty)
            (sub64 cjje (mul64 o.leaves_qty (cjje / cjsl))) o (all_filled (cjje / cjsl) o) s d
            (record {
              listed = i.sale.listed;
              type = i.sale.type;
              side = i.sale.side;
              checked = i.sale.checked;
            })
            refl refl refl i.found i.backed i.enough))
  | inr l ↦
      let e : cjsl ≡ min o.leaves_qty cjsl = omega (arith, l) in
      rw (lt→ltb cjsl o.leaves_qty l, fill)
        (subst
          (λ n. Sells n o s (
            let r = with_rest rest (part_filled (cjje / cjsl) cjsl o) d in
            after_trade m 0 0 r.0 r.1))
          e (part-Sells rest m cjsl cjje o s d i l))
]

-- A sale of shares that may be matched at the average price, with as much frozen of the holding as for the order
-- and no less than is left of it, is matched by each of the four functions and in any run mode: just the smaller
-- of what is left and of the volume leaves the holding, out of what was frozen for the order. The rest is
-- frozen still, also where the function has cancelled the rest of the order.
pub match_by-Sells :
    (x : Way) (m : Market) (cjsl cjje : ℕ) (o : OrderMessage) (s : UserStockVolume) (d : Desk)
    → IsHeld o s d.cache
    → cjsl ≢ 0
    → MayMatch (cjje / cjsl) (is_limit x) o
    → Sells (min o.leaves_qty cjsl) o s (match_by x m cjsl cjje o d)
match_by-Sells x m cjsl cjje o s d i z may =
    elim (check_match_method-MayMatch cjsl cjje (is_limit x) o z) [
      | inl (_, e) ↦
          rw (match_by-checked x m cjsl cjje o d)
            (rw (e, checked_fill) (fill-Sells (rest_of x) m cjsl cjje o s d i))
      | inr (not_may, _, _, _) ↦ absurd (not_may may)
    ]
