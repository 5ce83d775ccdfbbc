-- ===== src/Stock/Parts.antt =====
-- Conditions on the counters of a holding, and what is held from each source.
use simutgw_src.Common.{ℕ, ◌+◌, ◌≡◌}
use simutgw_src.Volume.{FrozeVolume}
use simutgw_src.Volume.Account.{total, Fits}
use simutgw_src.Stock.{UserStockVolume}

-- No counter of the holding is so large that its parts would wrap when they are added up.
pub record AllFit (s : UserStockVolume) : Type 0 where
  pub stk : Fits s.stk_balance
  pub act : Fits s.stk_act_pch_balance
  pub rdp : Fits s.stk_etf_rdp_balance
  pub crt : Fits s.stk_crt_balance
  pub avl : Fits s.stk_avl_balance

-- The shares by where they come from.
abbrev pub sources : UserStockVolume → ℕ
sources s =
    total s.stk_act_pch_balance
    + total s.stk_stp_pch_balance
    + total s.stk_etf_rdp_balance
    + total s.stk_crt_balance
    + total s.stk_avl_balance

-- The balance is the sum of its sources.
abbrev pub IsBalanced : UserStockVolume → Type 0
IsBalanced s = total s.stk_balance ≡ sources s

-- `n` of a counter's free shares are frozen.
pub record Moved (v : FrozeVolume) (n : ℕ) (w : FrozeVolume) : Type 0 where
  pub free : w.un_froze_volume + n ≡ v.un_froze_volume
  pub held : w.forze_volume ≡ v.forze_volume + n
