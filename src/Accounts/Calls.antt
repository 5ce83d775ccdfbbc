-- ===== src/Accounts/Calls.antt =====
-- The methods of `UserStockHelper` on one holding, all together: each does to the holding that is known what
-- the method of `UserStockVolume` does.
use simutgw_src.Common.{ℕ, String, Option, none, some, Code, success}
use simutgw_src.Stock.{UserStockVolume}
use simutgw_src.Stock.Increase.{add_act, add_crt, add_rdp}
use simutgw_src.Stock.Uses.{
  Use, sell, sell_etf, creation, redemption, froze_for, defroze_for, confirm_for,
}
use simutgw_src.Trade.{Cps}
use simutgw_src.Accounts.{Cache, World, Op}
use simutgw_src.Accounts.Methods.{
  nothing_held, account_sell_froze, account_sell_defroze, account_sell_confirm,
  account_sell_etf_froze, account_sell_etf_defroze, account_sell_etf_confirm,
  account_creation_froze, account_creation_defroze, account_creation_confirm,
  account_redemption_froze, account_redemption_defroze, account_redemption_confirm, account_add_act,
  account_add_crt, account_add_rdp, Froze, Settle,
}
use simutgw_src.Accounts.Lookup.{known}

pub data Call : Type 0 where
  freezes : Use → ℕ → Call
  releases confirms : Use → Call
  buys creates redeems : ℕ → Call

abbrev pub account_froze_for : Use → Froze
account_froze_for sell = account_sell_froze
account_froze_for sell_etf = account_sell_etf_froze
account_froze_for creation = account_creation_froze
account_froze_for redemption = account_redemption_froze

abbrev pub account_defroze_for : Use → Settle
account_defroze_for sell = account_sell_defroze
account_defroze_for sell_etf = account_sell_etf_defroze
account_defroze_for creation = account_creation_defroze
account_defroze_for redemption = account_redemption_defroze

abbrev pub account_confirm_for : Use → Settle
account_confirm_for sell = account_sell_confirm
account_confirm_for sell_etf = account_sell_etf_confirm
account_confirm_for creation = account_creation_confirm
account_confirm_for redemption = account_redemption_confirm

-- A call that leaves the two amounts as they are.
abbrev pub with_amounts : Cps → Op → Cache → Option (Code × Cps × Cache)
with_amounts p m c = elim (m c) [ none ↦ none | some (code, c') ↦ some (code, p, c') ]

-- The two amounts are those that the order keeps.
unfoldable pub call : Call → World → String → String → Cps → Cache → Option (Code × Cps × Cache)
call (freezes u n) w a k p = account_froze_for u w a k n p
call (releases u) w a k p = with_amounts p (account_defroze_for u w a k p)
call (confirms u) w a k p = with_amounts p (account_confirm_for u w a k p)
call (buys n) w a k p = with_amounts p (account_add_act w a k n)
call (creates n) w a k p = with_amounts p (account_add_crt w a k n)
call (redeems n) w a k p = with_amounts p (account_add_rdp w a k n)

-- The same on a holding.
unfoldable pub act : Call → ℕ → Cps → UserStockVolume → Code × Cps × UserStockVolume
act (freezes u n) time p s =
    let (code, x, y, s') = froze_for u time n s in (code, record { first = x; avl = y }, s')
act (releases u) time p s = let (code, s') = defroze_for u time p.first p.avl s in (code, p, s')
act (confirms u) time p s = let (code, s') = confirm_for u time p.first p.avl s in (code, p, s')
act (buys n) time p s = (success, p, add_act time n s)
act (creates n) time p s = (success, p, add_crt time n s)
act (redeems n) time p s = (success, p, add_rdp time n s)

-- What a call begins with: what is known, and an addition also with nothing held.
abbrev pub or_nothing : ℕ → Option UserStockVolume → Option UserStockVolume
or_nothing time (some s) = some s
or_nothing time none = some (nothing_held time)

unfoldable pub start : Call → World → String → String → Cache → Option UserStockVolume
start (freezes u n) w a k c = known w a k c
start (releases u) w a k c = known w a k c
start (confirms u) w a k c = known w a k c
start (buys n) w a k c = or_nothing w.time (known w a k c)
start (creates n) w a k c = or_nothing w.time (known w a k c)
start (redeems n) w a k c = or_nothing w.time (known w a k c)
