-- ===== src/Accounts/Split.antt =====
-- How a trade of a sale is taken from what is frozen for the order.
use simutgw_src.Common.{ℕ, ◌+◌, ◌-◌, ◌≤◌, ◌<◌, ◌≡◌, min, success, arith, u64_mod}
use simutgw_src.Volume.{FrozeVolume, defroze, confirm}
use simutgw_src.Volume.Account.{total}
use simutgw_src.Stock.{UserStockVolume, is_expired, defroze_stk_balance}
use simutgw_src.Stock.Sell.{sell_confirm, sell_defroze}
use simutgw_src.Stock.Parts.{AllFit}
use simutgw_src.Trade.{Cps}
use simutgw_src.Accounts.Orders.{sell_split, sell_etf_split}

-- `taken` and `left` share `p` between them, and `taken` is `n` in all, of the first source as far as that goes.
pub record Shares (p : Cps) (n : ℕ) (taken left : Cps) : Type 0 where
  pub amount : taken.first + taken.avl ≡ n
  pub from_first : taken.first ≡ min n p.first
  pub first : taken.first + left.first ≡ p.first
  pub avl : taken.avl + left.avl ≡ p.avl

-- `UpdateTrade` splits the amount matched of a sale of shares so that it takes all of it, as much as it can from
-- the shares redeemed and the rest from the available ones, and leaves the remainder frozen for the order.
-- The amount is no more than is frozen, and that fits 64 bits.
pub sell_split-Shares :
    (n : ℕ) (p : Cps)
    → n ≤ p.first + p.avl
    → p.first + p.avl < u64_mod
    → Shares p n (sell_split n p).0 (sell_split n p).1
unfolding sell_split
sell_split-Shares n p h k = ground arith

-- For a sale of ETF units the same holds of an amount that is less than what is frozen.
pub sell_etf_split-Shares :
    (n : ℕ) (p other : Cps)
    → n < p.first + p.avl
    → p.first + p.avl < u64_mod
    → Shares p n (sell_etf_split n p other).0 (sell_etf_split n p other).1
unfolding sell_etf_split
sell_etf_split-Shares n p other h k = ground arith

-- What is frozen for an order is part of what is frozen of the holding, in the two sources of a sale and in the
-- balance.
pub record Backed (s : UserStockVolume) (p : Cps) : Type 0 where
  pub fits : AllFit s
  pub first : p.first ≤ s.stk_etf_rdp_balance.forze_volume
  pub avl : p.avl ≤ s.stk_avl_balance.forze_volume
  pub balance : p.first + p.avl ≤ s.stk_balance.forze_volume

-- A counter that has lost `n` of its frozen part.
abbrev pub Loses : FrozeVolume → ℕ → FrozeVolume → Type 0
Loses v n v' = (v'.forze_volume + n ≡ v.forze_volume) × (v'.un_froze_volume ≡ v.un_froze_volume)

-- The shares bought today, those of block trades and the units created are untouched.
pub record SameRest (s s' : UserStockVolume) : Type 0 where
  pub act : total s'.stk_act_pch_balance ≡ total s.stk_act_pch_balance
  pub stp : total s'.stk_stp_pch_balance ≡ total s.stk_stp_pch_balance
  pub crt : total s'.stk_crt_balance ≡ total s.stk_crt_balance

-- A holding of which `n` shares have been sold, with `p` frozen before and `p'` after.
pub record Filled (s : UserStockVolume) (p : Cps) (n : ℕ) (s' : UserStockVolume) (p' : Cps)
    : Type 0 where
  pub backed : Backed s' p'
  pub order : p'.first + p'.avl + n ≡ p.first + p.avl
  pub less_first : p'.first ≤ p.first
  pub first : Loses s.stk_etf_rdp_balance (p.first - p'.first) s'.stk_etf_rdp_balance
  pub avl : Loses s.stk_avl_balance (p.avl - p'.avl) s'.stk_avl_balance
  pub less_avl : p'.avl ≤ p.avl
  pub balance : Loses s.stk_balance n s'.stk_balance
  pub rest : SameRest s s'

pub sell_confirm-Filled :
    (time n : ℕ) (s : UserStockVolume) (p taken left : Cps)
    → Backed s p
    → Shares p n taken left
    → ((sell_confirm time taken.first taken.avl s).0 ≡ success)
      × Filled s p n (sell_confirm time taken.first taken.avl s).1 left
unfolding sell_confirm confirm is_expired
sell_confirm-Filled time n s p taken left b h = ground arith

-- What was frozen for an order is free again.
abbrev pub Frees : FrozeVolume → ℕ → FrozeVolume → Type 0
Frees v n v' = (v'.forze_volume + n ≡ v.forze_volume) × (v'.un_froze_volume ≡ v.un_froze_volume + n)

pub record Freed (s : UserStockVolume) (p : Cps) (s' : UserStockVolume) : Type 0 where
  pub first : Frees s.stk_etf_rdp_balance p.first s'.stk_etf_rdp_balance
  pub avl : Frees s.stk_avl_balance p.avl s'.stk_avl_balance
  pub balance : Frees s.stk_balance (p.first + p.avl) s'.stk_balance
  pub rest : SameRest s s'

pub sell_defroze-Freed :
    (time : ℕ) (s : UserStockVolume) (p : Cps)
    → Backed s p
    → ((sell_defroze time p.first p.avl s).0 ≡ success)
      × Freed s p (sell_defroze time p.first p.avl s).1
unfolding sell_defroze defroze_stk_balance defroze is_expired
sell_defroze-Freed time s p b = ground arith
