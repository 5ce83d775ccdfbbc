-- ===== src/Match/Divide.antt =====
-- An order that is matched in parts, without the quotation, is matched in full after finitely many rounds.
use simutgw_src.Common.{
  if-true, ℕ, ◌+◌, ◌*◌, ◌≤◌, ◌<◌, zero, suc, ◌≡◌, ◌≢◌, inl, inr, refl, sym, ap, ◌∙◌, subst, Option,
  none, some, List, [], ◌∷◌, success, arith, ◌==◌, ==_iff, if-false, Bool-cases,
}
use simutgw_src.Trade.{OrderMessage}
use simutgw_src.Accounts.Sales.{sum}
use simutgw_src.Match.{ab_stock_match, Desk, Market, gen_task_match}
use simutgw_src.Match.Rounds.{
  IsDivided, part_of, gen_task_match-IsDivided, match_order-Round, rounds-left, not_zero,
}
use simutgw_src.Match.Simulated.{match_order}

-- The pool as it runs the matches that wait in it, at most `k` of them, each as the task which it is and with what
-- that hands on: the orders as the matches left them, in turn, and what is changed. It stops where no match is next.
unfoldable pub serve : ℕ → Market → Desk → Option (List OrderMessage × Desk)
serve zero m d = some ([], d)
serve (suc k) m d = elim d.tasks [
  | (ab_stock_match, o) ∷ waiting ↦ elim (match_order m o (record d { tasks = waiting })) [
    | none ↦ none
    | some (code, o', d') ↦ elim (serve k m d') [
      | none ↦ none
      | some (os, d'') ↦ some (o' ∷ os, d'')
    ]
  ]
  | _ ↦ some ([], d)
]

-- The orders as the matches of one order left them: each is less by what was matched, some of it each time, and
-- nothing is left of the last one.
pub data Matches : ℕ → List OrderMessage → Type 0 where
  all_matched : Matches 0 []
  matches :
      (leaves : ℕ) (o : OrderMessage) (os : List OrderMessage)
      → o.leaves_qty + o.order_qty_matched ≡ leaves
      → 0 < o.order_qty_matched
      → Matches o.leaves_qty os
      → Matches leaves (o ∷ os)

abbrev pub amounts : List OrderMessage → List ℕ
amounts [] = []
amounts (o ∷ os) = o.order_qty_matched ∷ amounts os

Matches-sum : (leaves : ℕ) (os : List OrderMessage) → Matches leaves os → sum (amounts os) ≡ leaves
Matches-sum _ [] all_matched = refl
Matches-sum _ (o ∷ os) (matches leaves _ _ e p h) =
    let f : sum (amounts os) ≡ o.leaves_qty = Matches-sum o.leaves_qty os h in omega (arith, e, f)

-- All of an order is matched, and no task is left.
pub record Filled (leaves : ℕ) (r : Option (List OrderMessage × Desk)) : Type 0 where
  pub orders : List OrderMessage
  pub desk : Desk
  pub returned : r ≡ some (orders, desk)
  pub matched : Matches leaves orders
  pub total : sum (amounts orders) ≡ leaves
  pub no_task : desk.tasks ≡ []

serve-idle : (k : ℕ) (m : Market) (d : Desk) → d.tasks ≡ [] → serve k m d ≡ some ([], d)
unfolding serve
serve-idle zero m d e = refl
serve-idle (suc k) m d e =
    subst (λ ts. let d' = record d { tasks = ts } in serve (suc k) m d' ≡ some ([], d')) (sym e)
      refl

serve-suc :
    (k : ℕ) (m : Market) (o o' : OrderMessage) (d d' d'' : Desk) (os : List OrderMessage)
    → match_order m o d ≡ some (success, o', d')
    → serve k m d' ≡ some (os, d'')
    → serve (suc k) m (record d { tasks = (ab_stock_match, o) ∷ d.tasks }) ≡ some (o' ∷ os, d'')
unfolding serve
serve-suc k m o o' d d' d'' os e f = rw (e, serve) (rw (f, serve) refl)

serve-Filled :
    (k : ℕ) (m : Market) (o : OrderMessage) (d : Desk)
    → m.assign_result ≡ success
    → IsDivided o
    → o.leaves_qty ≢ 0
    → o.leaves_qty ≤ k * part_of o
    → d.tasks ≡ []
    → Filled o.leaves_qty (serve k m (record d { tasks = (ab_stock_match, o) ∷ d.tasks }))
serve-Filled zero m o d a h z l e = absurd (z (omega (arith, l)))
serve-Filled (suc k) m o d a h z l e =
    let r = match_order-Round m o d a h in
    let left =
      rounds-left k (part_of o) o.leaves_qty r.order.leaves_qty r.order.order_qty_matched l r.amount
        r.enough in
    let some_matched : 0 < r.order.order_qty_matched = omega (arith, z, r.enough) in
    let rest : Filled r.order.leaves_qty (serve k m r.desk) =
      elim (Bool-cases (r.order.leaves_qty == 0)) [
        | inl y ↦
            let y' = (==_iff r.order.leaves_qty 0).0 y in
            let idle : r.desk.tasks ≡ [] = r.tasks ∙ if-true (r.order.leaves_qty == 0) _ _ y ∙ e in
            record {
              orders = [];
              desk = r.desk;
              returned = serve-idle k m r.desk idle;
              matched = subst (λ n. Matches n []) (sym y') all_matched;
              total = sym y';
              no_task = idle;
            }
        | inr n ↦
            let d1 = record r.desk { tasks = [] } in
            let waits : r.desk.tasks ≡ (ab_stock_match, r.order) ∷ [] =
              r.tasks
              ∙ if-false (r.order.leaves_qty == 0) _ _ n
              ∙ ap (λ ts. (ab_stock_match, r.order) ∷ ts) e in
            let f =
              serve-Filled k m r.order d1 a r.divided (not_zero r.order.leaves_qty n)
                (subst (λ x. r.order.leaves_qty ≤ k * x) (sym r.same_part) left) refl in
            subst (λ ts. Filled r.order.leaves_qty (serve k m (record r.desk { tasks = ts })))
              (sym waits) f
      ] in
    record {
      orders = r.order ∷ rest.orders;
      desk = rest.desk;
      returned = serve-suc k m o r.order d r.desk rest.desk rest.orders r.returned rest.returned;
      matched = matches o.leaves_qty r.order rest.orders r.amount some_matched rest.matched;
      total = omega (arith, rest.total, r.amount);
      no_task = rest.no_task;
    }

-- An order that is to be matched in parts, in a mode other than the normal one, with a number of parts that is not
-- 0, and of which something is left that is no more than a quantity below 2^63, is matched in full by the pool, if
-- the pool takes every task and has no other. `GenTask_Match` hands the order to it, and then the pool runs
-- `MatchOrder` on the order that waits, and on what each match hands on in turn. Any number of matches is enough
-- whose product with the size of a part, or with 1 if that is 0, is no less than what is left. Each match takes
-- some of the order, the amounts add up to what was left of it, nothing is left of the last, and no task waits.
pub serve-gen_task_match :
    (k : ℕ) (m : Market) (o : OrderMessage) (d : Desk)
    → m.assign_result ≡ success
    → IsDivided o
    → o.leaves_qty ≢ 0
    → o.leaves_qty ≤ k * part_of o
    → d.tasks ≡ []
    → Filled o.leaves_qty (serve k m (gen_task_match m o d).1)
serve-gen_task_match k m o d a h z l e =
    rw (gen_task_match-IsDivided m o d a h.kind) (serve-Filled k m o d a h z l e)
