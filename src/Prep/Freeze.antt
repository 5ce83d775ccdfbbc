-- ===== src/Prep/Freeze.antt =====
-- The freeze of a sale that takes of both sources.
use simutgw_src.Common.{ℕ, ◌+◌, ◌-◌, ◌≤◌, ◌<◌, ◌≡◌, success, arith, u64_mod}
use simutgw_src.Volume.Account.{total, froze_lem, total-froze}
use simutgw_src.Stock.{UserStockVolume, is_expired}
use simutgw_src.Stock.Sell.{sell_froze}
use simutgw_src.Stock.Uses.{sell, usable}
use simutgw_src.Stock.Parts.{AllFit}
use simutgw_src.Stock.Outcomes.{shared, froze_for-shared}
use simutgw_src.Stock.Split.{froze_for-success}
use simutgw_src.Trade.{Cps}
use simutgw_src.Accounts.Split.{Backed, SameRest}

-- `n` shares can be frozen of a holding for a sale, and the redeemed ones alone are not enough.
pub record CanFroze (s : UserStockVolume) (n : ℕ) : Type 0 where
  pub fits : AllFit s
  pub usable_fits : usable sell s < u64_mod
  pub short : s.stk_etf_rdp_balance.un_froze_volume < n
  pub enough : n ≤ usable sell s
  pub balance : n ≤ s.stk_balance.un_froze_volume

-- `n` shares have been frozen as `p`.
pub record Frozen (s : UserStockVolume) (n : ℕ) (p : Cps) (s' : UserStockVolume) : Type 0 where
  pub fits : AllFit s'
  pub amount : p.first + p.avl ≡ n
  pub first : s'.stk_etf_rdp_balance.forze_volume ≡ s.stk_etf_rdp_balance.forze_volume + p.first
  pub first_total : total s'.stk_etf_rdp_balance ≡ total s.stk_etf_rdp_balance
  pub avl : s'.stk_avl_balance.forze_volume ≡ s.stk_avl_balance.forze_volume + p.avl
  pub avl_total : total s'.stk_avl_balance ≡ total s.stk_avl_balance
  pub balance : s'.stk_balance.forze_volume ≡ s.stk_balance.forze_volume + n
  pub balance_total : total s'.stk_balance ≡ total s.stk_balance
  pub rest : SameRest s s'

-- The counters of a freeze that takes of both sources.
shared-Frozen :
    (time n : ℕ) (s : UserStockVolume)
    → CanFroze s n
    → let a = s.stk_etf_rdp_balance.un_froze_volume in
      Frozen s n (record { first = a; avl = n - a }) (shared sell time n s)
unfolding is_expired
shared-Frozen time n s h =
    let a = s.stk_etf_rdp_balance.un_froze_volume in
    let x = froze_lem s.stk_etf_rdp_balance n h.fits.rdp in
    let y = froze_lem s.stk_avl_balance (n - a) h.fits.avl in
    let z = froze_lem s.stk_balance n h.fits.stk in
    let x' = total-froze s.stk_etf_rdp_balance n h.fits.rdp in
    let y' = total-froze s.stk_avl_balance (n - a) h.fits.avl in
    let z' = total-froze s.stk_balance n h.fits.stk in
    record {
      fits = record {
        stk = omega (arith, z', h.fits.stk);
        act = ground (arith, h.fits.act);
        rdp = omega (arith, x', h.fits.rdp);
        crt = ground (arith, h.fits.crt);
        avl = omega (arith, y', h.fits.avl);
      };
      amount = omega (arith, h.short);
      first = omega (arith, x.held, x.amount, h.short);
      first_total = x';
      avl = omega (arith, y.held, y.amount, h.short, h.enough);
      avl_total = y';
      balance = omega (arith, z.held, z.amount, h.balance);
      balance_total = z';
      rest = record { act = ground arith; stp = ground arith; crt = ground arith };
    }

pub sell_froze-Frozen :
    (time n : ℕ) (s : UserStockVolume)
    → CanFroze s n
    → let a = s.stk_etf_rdp_balance.un_froze_volume in
      (sell_froze time n s ≡ (success, a, n - a, shared sell time n s))
      × Frozen s n (record { first = a; avl = n - a }) (shared sell time n s)
sell_froze-Frozen time n s h =
    let k : n < u64_mod = omega (arith, h.enough, h.usable_fits) in
    let ok = (froze_for-success sell time n s h.fits k h.usable_fits).1 h.enough in
    ((froze_for-shared sell time n s h.fits k h.short ok).0, shared-Frozen time n s h)

pub Frozen-Backed : (s s' : UserStockVolume) (n : ℕ) (p : Cps) → Frozen s n p s' → Backed s' p
Frozen-Backed s s' n p f = record {
  fits = f.fits;
  first = omega (arith, f.first);
  avl = omega (arith, f.avl);
  balance = omega (arith, f.balance, f.amount);
}
