-- ===== src/Stock/Rollback.antt =====
-- What a freeze leaves behind that could not be granted.
use simutgw_src.Common.{ℕ, ◌+◌, ◌<◌, ◌≡◌, failure, arith, u64_mod, sub64}
use simutgw_src.Volume.{froze, defroze}
use simutgw_src.Stock.{UserStockVolume, is_expired, visit}
use simutgw_src.Stock.Sell.{sell_froze}
use simutgw_src.Stock.SellEtf.{sell_etf_froze}
use simutgw_src.Stock.Creation.{creation_froze}
use simutgw_src.Stock.Redemption.{redemption_froze}
use simutgw_src.Stock.Uses.{Use, sell, sell_etf, creation, redemption, froze_for}
use simutgw_src.Stock.Parts.{AllFit, Moved}

-- The two sales, and the two exchanges of ETF units.
abbrev pub IsSale : Use → Type 0
IsSale sell = Unit
IsSale sell_etf = Unit
IsSale creation = ⊥
IsSale redemption = ⊥

abbrev pub IsExchange : Use → Type 0
IsExchange u = ¬ IsSale u

-- A sale, of shares or of ETF units, that is refused changes no counter: the whole state is what the
-- access check made of it. The counters are taken to fit 64 bits, and the amount to be below 2^64.
pub froze-rollback :
    (u : Use) (now n : ℕ) (s : UserStockVolume)
    → IsSale u
    → AllFit s
    → n < u64_mod
    → (froze_for u now n s).0 ≡ failure
    → (froze_for u now n s).3 ≡ visit now s
unfolding sell_froze sell_etf_froze is_expired froze defroze
froze-rollback sell now n s u fit h e = ground arith
froze-rollback sell_etf now n s u fit h e = ground arith
froze-rollback creation now n s u fit h e = absurd u
froze-rollback redemption now n s u fit h e = absurd u

-- What a refused creation or redemption does instead.
pub record Leaked (s s' : UserStockVolume) : Type 0 where
  pub bought_stay_frozen :
      Moved s.stk_act_pch_balance s.stk_act_pch_balance.un_froze_volume s'.stk_act_pch_balance
  pub redeemed_appear :
      s'.stk_etf_rdp_balance.un_froze_volume
      ≡ s.stk_etf_rdp_balance.un_froze_volume + s.stk_act_pch_balance.un_froze_volume
  pub redeemed_held :
      s'.stk_etf_rdp_balance.forze_volume
      ≡ sub64 s.stk_etf_rdp_balance.forze_volume s.stk_act_pch_balance.un_froze_volume

-- A creation or a redemption that is refused does not give back what it froze of the shares bought
-- today: they stay frozen, and the same number appears among the free redeemed shares and is taken
-- off the frozen ones, modulo 2^64. The counters are taken to fit 64 bits,
-- the redeemed free shares also with those that appear, and the amount to be below 2^64.
pub froze-Leaked :
    (u : Use) (now n : ℕ) (s : UserStockVolume)
    → IsExchange u
    → AllFit s
    → n < u64_mod
    → s.stk_etf_rdp_balance.un_froze_volume + s.stk_act_pch_balance.un_froze_volume < u64_mod
    → (froze_for u now n s).0 ≡ failure
    → Leaked s (froze_for u now n s).3
unfolding creation_froze redemption_froze is_expired froze defroze
froze-Leaked sell now n s u fit h k e = absurd (u tt)
froze-Leaked sell_etf now n s u fit h k e = absurd (u tt)
froze-Leaked creation now n s u fit h k e = ground arith
froze-Leaked redemption now n s u fit h k e = ground arith
