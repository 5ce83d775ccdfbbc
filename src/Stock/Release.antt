-- ===== src/Stock/Release.antt =====
-- A release of a freeze that was granted.
use simutgw_src.Common.{ℕ, ◌-◌, ◌≤◌, ◌<◌, ◌≡◌, success, arith, u64_mod}
use simutgw_src.Volume.{froze, defroze}
use simutgw_src.Stock.{UserStockVolume, is_expired, visit}
use simutgw_src.Stock.Sell.{sell_defroze}
use simutgw_src.Stock.SellEtf.{sell_etf_defroze}
use simutgw_src.Stock.Creation.{creation_defroze}
use simutgw_src.Stock.Redemption.{redemption_defroze}
use simutgw_src.Stock.Uses.{
  Use, sell, sell_etf, creation, redemption, froze_for, defroze_for, first_source,
}
use simutgw_src.Stock.Parts.{AllFit}
use simutgw_src.Stock.Outcomes.{shared, froze_for-shared}

defroze_for-shared :
    (u : Use) (now later n : ℕ) (s : UserStockVolume)
    → AllFit s
    → n < u64_mod
    → (first_source u s).un_froze_volume < n
    → n ≤ s.stk_balance.un_froze_volume
    → n - (first_source u s).un_froze_volume ≤ s.stk_avl_balance.un_froze_volume
    → defroze_for u later
        (first_source u s).un_froze_volume
        (n - (first_source u s).un_froze_volume)
        (shared u now n s)
      ≡ (success, visit later (visit now s))
unfolding is_expired froze defroze sell_defroze sell_etf_defroze creation_defroze redemption_defroze
defroze_for-shared sell now later n s fit h k b c = ground arith
defroze_for-shared sell_etf now later n s fit h k b c = ground arith
defroze_for-shared creation now later n s fit h k b c = ground arith
defroze_for-shared redemption now later n s fit h k b c = ground arith

-- For each of the four uses: if the first source alone does not cover the amount, the freeze is
-- granted, and the balance has as much free, then a release of the two amounts that the freeze
-- reported returns 0 and gives back the holding as it was, but for the times of access.
pub defroze_for-froze_for :
    (u : Use) (now later n : ℕ) (s : UserStockVolume)
    → AllFit s
    → n < u64_mod
    → (first_source u s).un_froze_volume < n
    → n ≤ s.stk_balance.un_froze_volume
    → (froze_for u now n s).0 ≡ success
    → let (_, a, b, s') = froze_for u now n s in
      defroze_for u later a b s' ≡ (success, visit later (visit now s))
defroze_for-froze_for u now later n s fit h k b e =
    let (eq, c) = froze_for-shared u now n s fit h k e in
    rw eq (defroze_for-shared u now later n s fit h k b c)
