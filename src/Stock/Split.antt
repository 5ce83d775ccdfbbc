-- ===== src/Stock/Split.antt =====
-- How much a freeze takes from each of its two sources.
use simutgw_src.Common.{ℕ, ◌+◌, ◌≤◌, ◌<◌, min, ◌≡◌, ◌↔◌, success, arith, u64_mod}
use simutgw_src.Volume.{FrozeVolume, froze, defroze}
use simutgw_src.Stock.{UserStockVolume, is_expired}
use simutgw_src.Stock.Sell.{sell_froze}
use simutgw_src.Stock.SellEtf.{sell_etf_froze}
use simutgw_src.Stock.Creation.{creation_froze}
use simutgw_src.Stock.Redemption.{redemption_froze}
use simutgw_src.Stock.Uses.{
  Use, sell, sell_etf, creation, redemption, froze_for, first_source, usable,
}
use simutgw_src.Stock.Parts.{AllFit, Moved}

-- A freeze of `n` shares, first from `v` and then from `w`, that was granted: the amounts `a` and `b`
-- taken add up to `n`, the first source is used up before the second is touched, and each counter has
-- frozen just what was taken from it.
pub record Granted (n a b : ℕ) (v w v' w' : FrozeVolume) : Type 0 where
  pub whole : a + b ≡ n
  pub first : a ≡ min n v.un_froze_volume
  pub moved_first : Moved v a v'
  pub moved_second : Moved w b w'

-- For each of the four uses, and a holding whose counters fit 64 bits and whose usable shares, the free
-- ones of the two sources, do together: a freeze of an amount below 2^64 returns 0 exactly when the
-- usable shares cover the amount.
pub froze_for-success :
    (u : Use) (now n : ℕ) (s : UserStockVolume)
    → AllFit s
    → n < u64_mod
    → usable u s < u64_mod
    → ((froze_for u now n s).0 ≡ success) ↔ (n ≤ usable u s)
unfolding sell_froze sell_etf_froze creation_froze redemption_froze is_expired froze defroze
froze_for-success sell now n s fit h k = ground arith
froze_for-success sell_etf now n s fit h k = ground arith
froze_for-success creation now n s fit h k = ground arith
froze_for-success redemption now n s fit h k = ground arith

-- For each of the four uses, and a holding whose counters fit 64 bits: a freeze of an amount below
-- 2^64 that returns 0 reports two amounts that add up to it. The first is all that its first source
-- has free, or the whole amount if that is less; each source has frozen exactly the amount reported
-- for it, and lost it from its free part.
pub froze_for-Granted :
    (u : Use) (now n : ℕ) (s : UserStockVolume)
    → AllFit s
    → n < u64_mod
    → (froze_for u now n s).0 ≡ success
    → let (_, a, b, s') = froze_for u now n s in
      Granted n a b (first_source u s) s.stk_avl_balance (first_source u s') s'.stk_avl_balance
unfolding sell_froze sell_etf_froze creation_froze redemption_froze is_expired froze defroze
froze_for-Granted sell now n s fit h e = record {
  whole = ground arith;
  first = ground arith;
  moved_first = ground arith;
  moved_second = ground arith;
}
froze_for-Granted sell_etf now n s fit h e = record {
  whole = ground arith;
  first = ground arith;
  moved_first = ground arith;
  moved_second = ground arith;
}
froze_for-Granted creation now n s fit h e = record {
  whole = ground arith;
  first = ground arith;
  moved_first = ground arith;
  moved_second = ground arith;
}
froze_for-Granted redemption now n s fit h e = record {
  whole = ground arith;
  first = ground arith;
  moved_first = ground arith;
  moved_second = ground arith;
}
