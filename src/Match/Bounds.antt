-- ===== src/Match/Bounds.antt =====
-- How much of an order is matched, at what price, and what is left of the market's volume and money.
use native.Mathlib.Nat.{div-mul-le_self, mul_comm, mul-le-mul_left}
use simutgw_src.Common.{
  ℕ, ◌+◌, ◌*◌, ◌/◌, ◌≤◌, ◌<◌, min, Bool, true, false, ◌≡◌, ◌≢◌, ◌⊎◌, inl, inr, refl, sym, subst,
  some, sub64, mul64, arith, u64_mod, le-or-lt, le→not_ltb, lt→ltb,
}
use simutgw_src.Trade.{OrderMessage}
use simutgw_src.Trade.Prices.{MayMatch, check_match_method-MayMatch, Waits}
use simutgw_src.Accounts.Orders.{is_normal}
use simutgw_src.Accounts.Returns.{update_after_trade-IsSome}
use simutgw_src.Accounts.Message.{update_after_trade-SameOrder}
use simutgw_src.Match.{Desk, Market, push_back}
use simutgw_src.Match.Fill.{
  part_filled, all_filled, cancelled_rest, Result, after_trade, Rest, keep_rest, cancel_rest,
  with_rest, fill, checked_fill, match_ordinary_limit, match_optimal,
  match_optimal_and_remainder_cancel, match_all_market_or_cancel,
}

-- The average price times a part of the volume is no more than the money.
price_mul_le : (cjje cjsl n : ℕ) → n ≤ cjsl → (cjje / cjsl) * n ≤ cjje
price_mul_le cjje cjsl n h =
    omega (arith, div-mul-le_self cjje cjsl, mul-le-mul_left (cjje / cjsl) h)

-- The four functions, by the declaration that they serve.
pub data Way : Type 0 where
  limit optimal remainder_cancel all_or_cancel : Way

abbrev pub match_by : Way → Market → ℕ → ℕ → OrderMessage → Desk → Result
match_by limit = match_ordinary_limit
match_by optimal = match_optimal
match_by remainder_cancel = match_optimal_and_remainder_cancel
match_by all_or_cancel = match_all_market_or_cancel

abbrev pub is_limit : Way → Bool
is_limit limit = true
is_limit _ = false

abbrev pub rest_of : Way → Rest
rest_of limit = keep_rest
rest_of optimal = keep_rest
rest_of _ = cancel_rest

pub match_by-checked :
    (x : Way) (m : Market) (cjsl cjje : ℕ) (o : OrderMessage) (d : Desk)
    → match_by x m cjsl cjje o d ≡ checked_fill (is_limit x) (rest_of x) m cjsl cjje o d
unfolding match_ordinary_limit match_optimal match_optimal_and_remainder_cancel
    match_all_market_or_cancel
match_by-checked limit m cjsl cjje o d = refl
match_by-checked optimal m cjsl cjje o d = refl
match_by-checked remainder_cancel m cjsl cjje o d = refl
match_by-checked all_or_cancel m cjsl cjje o d = refl

-- An order `o` has been matched as far as a volume and a money go, which are then `cjsl'` and `cjje'`.
pub record Matched (cjsl cjje : ℕ) (o o' : OrderMessage) (cjsl' cjje' : ℕ) : Type 0 where
  pub amount : o'.order_qty_matched ≡ min o.leaves_qty cjsl
  pub rest : o'.order_qty_matched + o'.order_qty_unmatched ≡ o.leaves_qty
  pub volume : o'.order_qty_matched + cjsl' ≡ cjsl
  pub price : o'.price_matched ≡ cjje / cjsl
  pub cash : o'.cash_order_qty_matched ≡ o'.price_matched * o'.order_qty_matched
  pub money : o'.cash_order_qty_matched + cjje' ≤ cjje

-- What the caller sees of `UpdateAfterTrade`.
after_trade-Matched :
    (m : Market) (cjsl cjje cjsl' cjje' : ℕ) (o o' : OrderMessage) (d : Desk)
    → is_normal o'.trade_policy.run_mode ≡ false
    → Matched cjsl cjje o o' cjsl' cjje'
    → (o'' : OrderMessage) × (d' : Desk) × (after_trade m cjsl' cjje' o' d
        ≡ some (o'', d', cjsl', cjje'))
      × Matched cjsl cjje o o'' cjsl' cjje'
after_trade-Matched m cjsl cjje cjsl' cjje' o o' d h k =
    let ((code, o'', c'), e) = update_after_trade-IsSome m.world o' d.cache h in
    let same = update_after_trade-SameOrder m.world o' o'' code d.cache c' e in
    (
      o'',
      record d { cache = c' },
      rw (e, after_trade) refl,
      subst (λ x. Matched cjsl cjje o x cjsl' cjje') (sym same)
          (record {
            amount = k.amount;
            rest = k.rest;
            volume = k.volume;
            price = k.price;
            cash = k.cash;
            money = k.money;
          }),
    )

part_filled-Matched :
    (cjsl cjje : ℕ) (o : OrderMessage)
    → cjje < u64_mod
    → o.leaves_qty < u64_mod
    → cjsl < o.leaves_qty
    → Matched cjsl cjje o (part_filled (cjje / cjsl) cjsl o) 0 0
part_filled-Matched cjsl cjje o h k l =
    let p = price_mul_le cjje cjsl cjsl (omega arith) in
    record {
      amount = omega (arith, l);
      rest = omega (arith, k, l);
      volume = omega arith;
      price = refl;
      cash = omega (arith, p, h);
      money = omega (arith, p, h);
    }

all_filled-Matched :
    (cjsl cjje : ℕ) (o : OrderMessage)
    → cjje < u64_mod
    → cjsl < u64_mod
    → o.leaves_qty ≤ cjsl
    → Matched cjsl cjje o
        (all_filled (cjje / cjsl) o)
        (sub64 cjsl o.leaves_qty)
        (sub64 cjje (mul64 o.leaves_qty (cjje / cjsl)))
all_filled-Matched cjsl cjje o h k l =
    let p = price_mul_le cjje cjsl o.leaves_qty l in
    let q = mul_comm o.leaves_qty (cjje / cjsl) in
    record {
      amount = omega (arith, l);
      rest = omega arith;
      volume = omega (arith, k, l);
      price = refl;
      cash = omega (arith, p, h);
      money = omega (arith, p, q, h);
    }

-- A match has returned an order, and what is left of the volume and the money.
pub record Fills (cjsl cjje : ℕ) (o : OrderMessage) (r : Result) : Type 0 where
  pub order : OrderMessage
  pub desk : Desk
  pub volume : ℕ
  pub money : ℕ
  pub returned : r ≡ some (order, desk, volume, money)
  pub matched : Matched cjsl cjje o order volume money

Fills-after_trade :
    (m : Market) (cjsl cjje cjsl' cjje' : ℕ) (o o' : OrderMessage) (d : Desk)
    → is_normal o'.trade_policy.run_mode ≡ false
    → Matched cjsl cjje o o' cjsl' cjje'
    → Fills cjsl cjje o (after_trade m cjsl' cjje' o' d)
Fills-after_trade m cjsl cjje cjsl' cjje' o o' d h k =
    let (o'', d', e, f) = after_trade-Matched m cjsl cjje cjsl' cjje' o o' d h k in
    record { order = o''; desk = d'; volume = cjsl'; money = cjje'; returned = e; matched = f }

-- The cancellation of the rest leaves what was matched of the order as it was.
cancelled_rest-Matched :
    (cjsl cjje cjsl' cjje' : ℕ) (o o' : OrderMessage)
    → Matched cjsl cjje o o' cjsl' cjje'
    → Matched cjsl cjje o (cancelled_rest o') cjsl' cjje'
unfolding cancelled_rest
cancelled_rest-Matched cjsl cjje cjsl' cjje' o o' k = record {
  amount = k.amount;
  rest = k.rest;
  volume = k.volume;
  price = k.price;
  cash = k.cash;
  money = k.money;
}

part-Fills :
    (rest : Rest) (m : Market) (cjsl cjje : ℕ) (o : OrderMessage) (d : Desk)
    → is_normal o.trade_policy.run_mode ≡ false
    → Matched cjsl cjje o (part_filled (cjje / cjsl) cjsl o) 0 0
    → let r = with_rest rest (part_filled (cjje / cjsl) cjsl o) d in
      Fills cjsl cjje o (after_trade m 0 0 r.0 r.1)
unfolding cancelled_rest
part-Fills keep_rest m cjsl cjje o d h k =
    Fills-after_trade m cjsl cjje 0 0 o (part_filled (cjje / cjsl) cjsl o) d h k
part-Fills cancel_rest m cjsl cjje o d h k =
    let o' = part_filled (cjje / cjsl) cjsl o in
    Fills-after_trade m cjsl cjje 0 0 o (cancelled_rest o') (push_back (cancelled_rest o') d).1 h
      (cancelled_rest-Matched cjsl cjje 0 0 o o' k)

fill-Fills :
    (rest : Rest) (m : Market) (cjsl cjje : ℕ) (o : OrderMessage) (d : Desk)
    → cjsl < u64_mod
    → cjje < u64_mod
    → o.leaves_qty < u64_mod
    → is_normal o.trade_policy.run_mode ≡ false
    → Fills cjsl cjje o (fill rest m cjsl cjje o d)
fill-Fills rest m cjsl cjje o d hs hj hl h = elim (le-or-lt o.leaves_qty cjsl) [
  | inl l ↦
      rw (le→not_ltb cjsl o.leaves_qty l, fill)
        (Fills-after_trade m cjsl cjje (sub64 cjsl o.leaves_qty)
          (sub64 cjje (mul64 o.leaves_qty (cjje / cjsl))) o (all_filled (cjje / cjsl) o) d h
          (all_filled-Matched cjsl cjje o hj hs l))
  | inr l ↦
      rw (lt→ltb cjsl o.leaves_qty l, fill)
        (part-Fills rest m cjsl cjje o d h (part_filled-Matched cjsl cjje o hj hl l))
]

-- The four functions return for every volume that is not 0, outside the normal mode. An order that may not be
-- matched at the average price, the money over the volume, with its own price as a limit only for the first of
-- them, is given back with nothing else changed. Else the smaller of what is left of the order and of the volume
-- is matched at that price, the rest is what is not matched, and the volume and the money are less by what was
-- matched, the money by no less than was paid; nothing wraps.
pub match_by-Fills :
    (x : Way) (m : Market) (cjsl cjje : ℕ) (o : OrderMessage) (d : Desk)
    → cjsl ≢ 0
    → cjsl < u64_mod
    → cjje < u64_mod
    → o.leaves_qty < u64_mod
    → is_normal o.trade_policy.run_mode ≡ false
    → (MayMatch (cjje / cjsl) (is_limit x) o × Fills cjsl cjje o (match_by x m cjsl cjje o d))
      ⊎ ((¬ MayMatch (cjje / cjsl) (is_limit x) o)
          × (o' : OrderMessage) × (match_by x m cjsl cjje o d ≡ some (o', d, 0, 0))
          × Waits o o')
match_by-Fills x m cjsl cjje o d z hs hj hl h =
    elim (check_match_method-MayMatch cjsl cjje (is_limit x) o z) [
      | inl (may, e) ↦ inl (
        may,
        rw (match_by-checked x m cjsl cjje o d)
            (rw (e, checked_fill) (fill-Fills (rest_of x) m cjsl cjje o d hs hj hl h)),
      )
      | inr (not_may, o', e, waits) ↦
          inr (
            not_may,
            o',
            rw (match_by-checked x m cjsl cjje o d) (rw (e, checked_fill) refl),
            waits,
          )
    ]
