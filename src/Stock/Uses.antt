-- ===== src/Stock/Uses.antt =====
-- The four uses of shares side by side, so that a theorem can speak of all of them.
use simutgw_src.Common.{ℕ, ◌+◌, Code}
use simutgw_src.Volume.{FrozeVolume}
use simutgw_src.Stock.{UserStockVolume, Action}
use simutgw_src.Stock.Sell.{sell_froze, sell_defroze, sell_confirm}
use simutgw_src.Stock.SellEtf.{sell_etf_froze, sell_etf_defroze, sell_etf_confirm}
use simutgw_src.Stock.Creation.{creation_froze, creation_defroze, creation_confirm}
use simutgw_src.Stock.Redemption.{redemption_froze, redemption_defroze, redemption_confirm}

pub data Use : Type 0 where
  sell sell_etf creation redemption : Use

abbrev pub froze_for : Use → ℕ → ℕ → UserStockVolume → Code × ℕ × ℕ × UserStockVolume
froze_for sell = sell_froze
froze_for sell_etf = sell_etf_froze
froze_for creation = creation_froze
froze_for redemption = redemption_froze

abbrev pub defroze_for : Use → ℕ → ℕ → ℕ → Action
defroze_for sell = sell_defroze
defroze_for sell_etf = sell_etf_defroze
defroze_for creation = creation_defroze
defroze_for redemption = redemption_defroze

abbrev pub confirm_for : Use → ℕ → ℕ → ℕ → Action
confirm_for sell = sell_confirm
confirm_for sell_etf = sell_etf_confirm
confirm_for creation = creation_confirm
confirm_for redemption = redemption_confirm

-- The source that a use takes from first; the second is the available shares.
abbrev pub first_source : Use → UserStockVolume → FrozeVolume
first_source sell s = s.stk_etf_rdp_balance
first_source sell_etf s = s.stk_crt_balance
first_source creation s = s.stk_act_pch_balance
first_source redemption s = s.stk_act_pch_balance

-- The free shares that a use may draw on.
abbrev pub usable : Use → UserStockVolume → ℕ
usable u s = (first_source u s).un_froze_volume + s.stk_avl_balance.un_froze_volume
