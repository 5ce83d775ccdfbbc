-- ===== src/Stock/Settle.antt =====
-- A confirmation of a freeze that was granted: the shares leave the holding.
use simutgw_src.Common.{
  ℕ, ◌+◌, ◌-◌, ◌≤◌, ◌<◌, ◌≡◌, refl, add64, Code, success, failure, arith, u64_mod,
}
use simutgw_src.Volume.{froze, confirm}
use simutgw_src.Volume.Account.{Fits, Spent, froze_lem, confirm-froze}
use simutgw_src.Stock.{UserStockVolume, is_expired}
use simutgw_src.Stock.Sell.{sell_confirm}
use simutgw_src.Stock.SellEtf.{sell_etf_confirm}
use simutgw_src.Stock.Creation.{creation_confirm}
use simutgw_src.Stock.Redemption.{redemption_confirm}
use simutgw_src.Stock.Uses.{
  Use, sell, sell_etf, creation, redemption, froze_for, confirm_for, first_source,
}
use simutgw_src.Stock.Parts.{AllFit}
use simutgw_src.Stock.Outcomes.{shared, covered, froze_for-shared, froze_for-covered}

-- A confirmation that returned 0 and took `a` shares of the first source, `b` of the available ones
-- and `a + b` of the balance.
pub record Traded (u : Use) (s : UserStockVolume) (a b : ℕ) (r : Code × UserStockVolume)
    : Type 0 where
  pub code : r.0 ≡ success
  pub first : Spent (first_source u s) a (first_source u r.1)
  pub second : Spent s.stk_avl_balance b r.1.stk_avl_balance
  pub whole : Spent s.stk_balance (a + b) r.1.stk_balance

first-Fits : (u : Use) (s : UserStockVolume) → AllFit s → Fits (first_source u s)
first-Fits sell s fit = fit.rdp
first-Fits sell_etf s fit = fit.crt
first-Fits creation s fit = fit.act
first-Fits redemption s fit = fit.act

-- The three confirmations of a freeze that was shared, each on its own counter.
shared_parts :
    (u : Use) (n : ℕ) (s : UserStockVolume)
    → AllFit s
    → n < u64_mod
    → (first_source u s).un_froze_volume < n
    → n ≤ s.stk_balance.un_froze_volume
    → n - (first_source u s).un_froze_volume ≤ s.stk_avl_balance.un_froze_volume
    → let v = first_source u s in
      let a = v.un_froze_volume in
      let r = confirm (froze v n).2 a in
      let q = confirm (froze s.stk_avl_balance (n - a)).2 (n - a) in
      let p = confirm (froze s.stk_balance n).2 (add64 a (n - a)) in
      (r.0 ≡ success)
      × Spent v a r.1
      × (q.0 ≡ success)
      × Spent s.stk_avl_balance (n - a) q.1
      × (p.0 ≡ success)
      × Spent s.stk_balance (a + (n - a)) p.1
      × (a ≡ 0 → Spent v a (froze v n).2)
shared_parts u n s fit h k b c =
    let v = first_source u s in
    let a = v.un_froze_volume in
    let e : add64 a (n - a) ≡ n = omega arith in
    let first = confirm-froze v n a (first-Fits u s fit) (omega arith) in
    let second = confirm-froze s.stk_avl_balance (n - a) (n - a) fit.avl (omega arith) in
    let whole = confirm-froze s.stk_balance n n fit.stk (omega arith) in
    (
      first.0,
      first.1,
      second.0,
      second.1,
      rw e whole.0,
      rw e (let d : a + (n - a) ≡ n = omega arith in rw d whole.1),
      λ z. ground (arith, froze_lem v n (first-Fits u s fit)),
    )

confirm_for-shared :
    (u : Use) (now later n : ℕ) (s : UserStockVolume)
    → AllFit s
    → n < u64_mod
    → (first_source u s).un_froze_volume < n
    → n ≤ s.stk_balance.un_froze_volume
    → n - (first_source u s).un_froze_volume ≤ s.stk_avl_balance.un_froze_volume
    → let a = (first_source u s).un_froze_volume in
      Traded u s a (n - a) (confirm_for u later a (n - a) (shared u now n s))
unfolding is_expired sell_confirm sell_etf_confirm creation_confirm redemption_confirm
confirm_for-shared sell now later n s fit h k b c =
    ground (arith, shared_parts sell n s fit h k b c)
confirm_for-shared sell_etf now later n s fit h k b c =
    ground (arith, shared_parts sell_etf n s fit h k b c)
confirm_for-shared creation now later n s fit h k b c =
    ground (arith, shared_parts creation n s fit h k b c)
confirm_for-shared redemption now later n s fit h k b c =
    ground (arith, shared_parts redemption n s fit h k b c)

-- For each of the four uses: if the first source alone does not cover the amount, the freeze is
-- granted, and the balance has as much free, then a confirmation of the two amounts that the freeze
-- reported returns 0, and against the holding before the freeze each source has lost what was taken
-- from it and the balance their sum, with nothing more frozen than before.
pub confirm_for-froze_for :
    (u : Use) (now later n : ℕ) (s : UserStockVolume)
    → AllFit s
    → n < u64_mod
    → (first_source u s).un_froze_volume < n
    → n ≤ s.stk_balance.un_froze_volume
    → (froze_for u now n s).0 ≡ success
    → let (_, a, b, s') = froze_for u now n s in Traded u s a b (confirm_for u later a b s')
confirm_for-froze_for u now later n s fit h k b e =
    let (eq, c) = froze_for-shared u now n s fit h k e in
    rw eq (confirm_for-shared u now later n s fit h k b c)

-- The code that a confirmation returns when only its last step, on the balance, fails.
abbrev pub last_step_code : Use → Code
last_step_code sell = failure
last_step_code sell_etf = failure
last_step_code creation = success
last_step_code redemption = success

-- How a confirmation of `n` from the first source alone ends when the balance has less frozen.
pub record Unpaid (u : Use) (s : UserStockVolume) (n : ℕ) (r : Code × UserStockVolume)
    : Type 0 where
  pub code : r.0 ≡ last_step_code u
  pub balance : r.1.stk_balance ≡ s.stk_balance
  pub spent : Spent (first_source u s) n (first_source u r.1)

covered-stk :
    (u : Use) (now n : ℕ) (s : UserStockVolume) → (covered u now n s).stk_balance ≡ s.stk_balance
unfolding is_expired
covered-stk sell now n s = ground arith
covered-stk sell_etf now n s = ground arith
covered-stk creation now n s = ground arith
covered-stk redemption now n s = ground arith

confirm_for-covered :
    (u : Use) (now later n : ℕ) (s : UserStockVolume)
    → AllFit s
    → 0 < n
    → n ≤ (first_source u s).un_froze_volume
    → s.stk_balance.forze_volume < n
    → Unpaid u s n (confirm_for u later n 0 (covered u now n s))
unfolding is_expired froze confirm sell_confirm sell_etf_confirm creation_confirm redemption_confirm
confirm_for-covered sell now later n s fit p h k = record {
  code = ground arith;
  balance = ground arith;
  spent = ground arith;
}
confirm_for-covered sell_etf now later n s fit p h k = record {
  code = ground arith;
  balance = ground arith;
  spent = ground arith;
}
confirm_for-covered creation now later n s fit p h k = record {
  code = ground arith;
  balance = ground arith;
  spent = ground arith;
}
confirm_for-covered redemption now later n s fit p h k = record {
  code = ground arith;
  balance = ground arith;
  spent = ground arith;
}

-- A freeze, of a positive amount, that its first source covers alone is granted without freezing
-- the balance. If other orders have frozen less than the amount of the balance, the confirmation of
-- that freeze takes the shares from the source and leaves the balance as it is; it returns -1 for the
-- two sales and 0 for creation and redemption.
pub froze_for-Unpaid :
    (u : Use) (now later n : ℕ) (s : UserStockVolume)
    → AllFit s
    → 0 < n
    → n ≤ (first_source u s).un_froze_volume
    → s.stk_balance.forze_volume < n
    → let (code, a, b, s') = froze_for u now n s in
      (code ≡ success)
      × (s'.stk_balance ≡ s.stk_balance)
      × Unpaid u s n (confirm_for u later a b s')
froze_for-Unpaid u now later n s fit p h k =
    rw (froze_for-covered u now n s h)
      (refl, covered-stk u now n s, confirm_for-covered u now later n s fit p h k)
