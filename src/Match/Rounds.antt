-- ===== src/Match/Rounds.antt =====
-- One match of an order that is matched in parts, without the quotation (`ABStockMatch_Divide` of
-- shared_src/simutgw/work_manage/Task_ABStockMatch.cpp).
use native.Mathlib.Nat.{div-le_self, suc-mul}
use simutgw_src.Common.{
  ℕ, ◌+◌, ◌*◌, ◌/◌, ◌≤◌, ◌<◌, ◌^◌, min, max, suc, false, not, ◌≡◌, ◌≢◌, inl, inr, refl, sym, ap,
  ◌∙◌, subst, some, List, ◌∷◌, success, arith, ◌==◌, if◌then◌else◌, Bool-cases,
}
use simutgw_src.Trade.{MatchType, simul_match_by_divide, OrderMessage}
use simutgw_src.Accounts.Orders.{is_normal}
use simutgw_src.Accounts.Message.{update_after_trade-SameOrder}
use simutgw_src.Accounts.Returns.{update_after_trade-IsSome}
use simutgw_src.Match.{TaskKind, ab_stock_match, task_kind, Desk, Market, push_back, gen_task_match}
use simutgw_src.Match.Simulated.{
  Answer, traded, traded_on, simulated, divide_qty, ab_stock_match_divide, by_mode, match_order,
}

-- What is fixed for an order while it is matched: it is one to be matched in parts, by the task of shares.
pub record IsDivided (o : OrderMessage) : Type 0 where
  pub kind : task_kind o ≡ some ab_stock_match
  pub mode : o.trade_policy.match_mode ≡ simul_match_by_divide
  pub parts : o.trade_policy.part_match_num ≢ 0
  pub quick : is_normal o.trade_policy.run_mode ≡ false
  pub size : o.order_qty_origin < 2 ^ 63
  pub leaves : o.leaves_qty ≤ o.order_qty_origin

-- The size of a part, or 1 if it would be 0.
abbrev pub part_of : OrderMessage → ℕ
part_of o = max 1 (o.order_qty_origin / o.trade_policy.part_match_num)

-- The tasks after a match of an order: it is handed on if something is left of it.
abbrev pub handed_on :
    OrderMessage → List (TaskKind × OrderMessage) → List (TaskKind × OrderMessage)
handed_on o tasks = if o.leaves_qty == 0 then tasks else (ab_stock_match, o) ∷ tasks

-- A round matches at least a part, or all that is left.
pub record Round (o : OrderMessage) (d : Desk) (r : Answer) : Type 0 where
  pub order : OrderMessage
  pub desk : Desk
  pub returned : r ≡ some (success, order, desk)
  pub divided : IsDivided order
  pub same_part : part_of order ≡ part_of o
  pub amount : order.leaves_qty + order.order_qty_matched ≡ o.leaves_qty
  pub enough : min o.leaves_qty (part_of o) ≤ order.order_qty_matched
  pub tasks : desk.tasks ≡ handed_on order d.tasks

push_back-tasks : (o : OrderMessage) (d : Desk) → (push_back o d).1.tasks ≡ d.tasks
unfolding push_back
push_back-tasks o d = grind arith

pub gen_task_match-IsDivided :
    (m : Market) (o : OrderMessage) (d : Desk)
    → m.assign_result ≡ success
    → task_kind o ≡ some ab_stock_match
    → (gen_task_match m o d).1 ≡ record d { tasks = (ab_stock_match, o) ∷ d.tasks }
unfolding gen_task_match
gen_task_match-IsDivided m o d a k = rw (k, gen_task_match) (rw a refl)

-- What `traded_on` does with the order that is left.
left_over-tasks :
    (m : Market) (o : OrderMessage) (d : Desk)
    → m.assign_result ≡ success
    → task_kind o ≡ some ab_stock_match
    → (if not (o.leaves_qty == 0) then (gen_task_match m o d).1 else d).tasks ≡ handed_on o d.tasks
left_over-tasks m o d a k =
    rw (gen_task_match-IsDivided m o d a k)
      (elim (Bool-cases (o.leaves_qty == 0)) [ inl e ↦ rw e refl | inr e ↦ rw e refl ])

divide_qty-enough :
    (part leaves : ℕ)
    → part < 2 ^ 63
    → ((divide_qty part leaves).1 ≤ leaves) × (min leaves (max 1 part) ≤ (divide_qty part leaves).1)
unfolding divide_qty
divide_qty-enough part leaves h = ground arith

-- What is left after a match of `n` shares, whatever the updates of the holdings do.
traded_on-Round :
    (m : Market) (type : MatchType) (n : ℕ) (o : OrderMessage) (d : Desk)
    → m.assign_result ≡ success
    → IsDivided o
    → n ≤ o.leaves_qty
    → min o.leaves_qty (part_of o) ≤ n
    → Round o d (traded_on m (simulated type n o) d)
unfolding task_kind
traded_on-Round m type n o d a h l e =
    let o1 = simulated type n o in
    let ((code, o', c'), r) = update_after_trade-IsSome m.world o1 d.cache h.quick in
    let same = update_after_trade-SameOrder m.world o1 o' code d.cache c' r in
    let d1 = record d { cache = c' } in
    let d' = (push_back o' d1).1 in
    let fixed : IsDivided o' = subst IsDivided (sym same) (record {
      kind = h.kind;
      mode = h.mode;
      parts = h.parts;
      quick = h.quick;
      size = h.size;
      leaves = omega (arith, l, h.leaves, h.size);
    }) in
    let after : traded m o1 d ≡ some (o', d') = rw (r, traded) refl in
    record {
      order = o';
      desk = if not (o'.leaves_qty == 0) then (gen_task_match m o' d').1 else d';
      returned = rw (after, traded_on) refl;
      divided = fixed;
      same_part = ap part_of same;
      amount =
          subst (λ x. x.leaves_qty + x.order_qty_matched ≡ o.leaves_qty) (sym same)
            (omega (arith, l, h.leaves, h.size));
      enough = subst (λ x. min o.leaves_qty (part_of o) ≤ x.order_qty_matched) (sym same) e;
      tasks =
          left_over-tasks m o' d' a fixed.kind ∙ ap (λ ts. handed_on o' ts) (push_back-tasks o' d1);
    }

test-zero : (n : ℕ) → n ≢ 0 → (n == 0) ≡ false
test-zero n h = ground arith

pub not_zero : (n : ℕ) → (n == 0) ≡ false → n ≢ 0
not_zero n h = ground arith

part-lt : (n k : ℕ) → n < 2 ^ 63 → n / k < 2 ^ 63
part-lt n k h = omega (arith, div-le_self n k)

ab_stock_match_divide-Round :
    (m : Market) (o : OrderMessage) (d : Desk)
    → m.assign_result ≡ success
    → IsDivided o
    → Round o d (ab_stock_match_divide m o d)
unfolding ab_stock_match_divide
ab_stock_match_divide-Round m o d a h =
    let part = o.order_qty_origin / o.trade_policy.part_match_num in
    let (type, n) = divide_qty part o.leaves_qty in
    let (l, e) =
      divide_qty-enough part o.leaves_qty
        (part-lt o.order_qty_origin o.trade_policy.part_match_num h.size) in
    rw (test-zero o.trade_policy.part_match_num h.parts, ab_stock_match_divide)
      (traded_on-Round m type n o d a h l e)

pub match_order-Round :
    (m : Market) (o : OrderMessage) (d : Desk)
    → m.assign_result ≡ success
    → IsDivided o
    → Round o d (match_order m o d)
unfolding match_order
match_order-Round m o d a h =
    subst (λ x. Round o d (by_mode x m o d)) (sym h.mode) (ab_stock_match_divide-Round m o d a h)

pub rounds-left :
    (k part leaves left n : ℕ)
    → leaves ≤ suc k * part
    → left + n ≡ leaves
    → min leaves part ≤ n
    → left ≤ k * part
rounds-left k part leaves left n h e f =
    let g : suc k * part ≡ k * part + part = suc-mul k part in omega (arith, h, e, f, g)
