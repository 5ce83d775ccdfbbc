-- ===== src/Stock/Outcomes.antt =====
-- The outcomes of a freeze: covered by the first source alone, shared between the two, or refused.
use simutgw_src.Common.{ℕ, ◌-◌, ◌≤◌, ◌<◌, ◌≡◌, success, arith, u64_mod}
use simutgw_src.Volume.{froze, defroze}
use simutgw_src.Stock.{UserStockVolume, is_expired, visit}
use simutgw_src.Stock.Sell.{sell_froze}
use simutgw_src.Stock.SellEtf.{sell_etf_froze}
use simutgw_src.Stock.Creation.{creation_froze}
use simutgw_src.Stock.Redemption.{redemption_froze}
use simutgw_src.Stock.Uses.{Use, sell, sell_etf, creation, redemption, froze_for, first_source}
use simutgw_src.Stock.Parts.{AllFit}

-- The holding after a freeze of `n` that takes all of its first source and the rest of the available
-- shares.
abbrev pub shared : Use → ℕ → ℕ → UserStockVolume → UserStockVolume
shared sell now n s =
    let s1 = visit now s in
    record s1 {
      stk_etf_rdp_balance = (froze s.stk_etf_rdp_balance n).2;
      stk_avl_balance = (froze s.stk_avl_balance (n - s.stk_etf_rdp_balance.un_froze_volume)).2;
      stk_balance = (froze s.stk_balance n).2;
    }
shared sell_etf now n s =
    let s1 = visit now s in
    record s1 {
      stk_crt_balance = (froze s.stk_crt_balance n).2;
      stk_avl_balance = (froze s.stk_avl_balance (n - s.stk_crt_balance.un_froze_volume)).2;
      stk_balance = (froze s.stk_balance n).2;
    }
shared creation now n s =
    let s1 = visit now s in
    record s1 {
      stk_act_pch_balance = (froze s.stk_act_pch_balance n).2;
      stk_avl_balance = (froze s.stk_avl_balance (n - s.stk_act_pch_balance.un_froze_volume)).2;
      stk_balance = (froze s.stk_balance n).2;
    }
shared redemption now n s =
    let s1 = visit now s in
    record s1 {
      stk_act_pch_balance = (froze s.stk_act_pch_balance n).2;
      stk_avl_balance = (froze s.stk_avl_balance (n - s.stk_act_pch_balance.un_froze_volume)).2;
      stk_balance = (froze s.stk_balance n).2;
    }

pub froze_for-shared :
    (u : Use) (now n : ℕ) (s : UserStockVolume)
    → AllFit s
    → n < u64_mod
    → (first_source u s).un_froze_volume < n
    → (froze_for u now n s).0 ≡ success
    → (froze_for u now n s ≡ (
      success,
      (first_source u s).un_froze_volume,
      n - (first_source u s).un_froze_volume,
      shared u now n s,
    ))
      × (n - (first_source u s).un_froze_volume ≤ s.stk_avl_balance.un_froze_volume)
unfolding sell_froze sell_etf_froze creation_froze redemption_froze is_expired froze defroze
froze_for-shared sell now n s fit h k e = ground arith
froze_for-shared sell_etf now n s fit h k e = ground arith
froze_for-shared creation now n s fit h k e = ground arith
froze_for-shared redemption now n s fit h k e = ground arith

-- The holding after a freeze of `n` that the first source covers. The balance stays as it is.
abbrev pub covered : Use → ℕ → ℕ → UserStockVolume → UserStockVolume
covered sell now n s = record (visit now s) {
  stk_etf_rdp_balance = (froze s.stk_etf_rdp_balance n).2;
}
covered sell_etf now n s = record (visit now s) { stk_crt_balance = (froze s.stk_crt_balance n).2 }
covered creation now n s = record (visit now s) {
  stk_act_pch_balance = (froze s.stk_act_pch_balance n).2;
}
covered redemption now n s = record (visit now s) {
  stk_act_pch_balance = (froze s.stk_act_pch_balance n).2;
}

pub froze_for-covered :
    (u : Use) (now n : ℕ) (s : UserStockVolume)
    → n ≤ (first_source u s).un_froze_volume
    → froze_for u now n s ≡ (success, n, 0, covered u now n s)
unfolding sell_froze sell_etf_froze creation_froze redemption_froze is_expired froze
froze_for-covered sell now n s k = ground arith
froze_for-covered sell_etf now n s k = ground arith
froze_for-covered creation now n s k = ground arith
froze_for-covered redemption now n s k = ground arith
