-- ===== src/Stock/Synced.antt =====
-- What a synchronisation with the database reports, and what it leaves behind.
use simutgw_src.Common.{ℕ, ◌≡◌, arith}
use simutgw_src.Volume.{FrozeVolume, db_syn, reset_syn}
use simutgw_src.Volume.Account.{total}
use simutgw_src.Stock.{UserStockVolume}
use simutgw_src.Stock.Sell.{sell_db_syn}
use simutgw_src.Stock.SellEtf.{sell_etf_db_syn}
use simutgw_src.Stock.Creation.{creation_component_db_syn, creation_etf_db_syn}
use simutgw_src.Stock.Redemption.{rdp_etf_syn}
use simutgw_src.Stock.Increase.{add_act_syn, add_etf_syn, add_rdp_component_syn}
use simutgw_src.Stock.Parts.{AllFit}

-- A counter's share in a synchronisation: the count of the last one and the present one are reported,
-- and only the synchronised count changes, to the present one.
pub record Reported (v : FrozeVolume) (origin update : ℕ) (w : FrozeVolume) : Type 0 where
  pub origin_is_last : origin ≡ v.latest_syn_volume
  pub update_is_total : update ≡ total v
  pub kept : w ≡ record v { latest_syn_volume = total v }

-- The counter of the last balance takes the count that the balance had before.
pub record Shifted (s : UserStockVolume) (last_origin : ℕ) (s' : UserStockVolume) : Type 0 where
  pub last_origin_is_last : last_origin ≡ s.stk_last_balance.latest_syn_volume
  pub shifted :
      s'.stk_last_balance
      ≡ record s.stk_last_balance { latest_syn_volume = s.stk_balance.latest_syn_volume }

-- A synchronisation of the balance, of one source and of the available shares.
abbrev pub Syncs3 :
    (UserStockVolume → ℕ × ℕ × ℕ × ℕ × ℕ × ℕ × ℕ × UserStockVolume)
    → (UserStockVolume → FrozeVolume)
    → UserStockVolume
    → Type 0
Syncs3 f source s =
    let (o1, u1, o2, u2, o3, u3, last, s') = f s in
    Reported s.stk_balance o1 u1 s'.stk_balance
    × Reported (source s) o2 u2 (source s')
    × Reported s.stk_avl_balance o3 u3 s'.stk_avl_balance
    × Shifted s last s'

-- A synchronisation of the balance and of one source.
abbrev pub Syncs2 :
    (UserStockVolume → ℕ × ℕ × ℕ × ℕ × ℕ × UserStockVolume)
    → (UserStockVolume → FrozeVolume)
    → UserStockVolume
    → Type 0
Syncs2 f source s =
    let (o1, u1, o2, u2, last, s') = f s in
    Reported s.stk_balance o1 u1 s'.stk_balance
    × Reported (source s) o2 u2 (source s')
    × Shifted s last s'

-- For a holding whose counters fit 64 bits, each of the four synchronisations with three counters
-- reports, for the balance, for the source that its use takes from and for the available shares, the
-- count of the last synchronisation and all that the counter holds now, and makes the latter the
-- synchronised count. The last balance takes the count that the balance had before.
pub syncs-three :
    (s : UserStockVolume)
    → AllFit s
    → Syncs3 sell_db_syn (λ r. r.stk_etf_rdp_balance) s
      × Syncs3 sell_etf_db_syn (λ r. r.stk_crt_balance) s
      × Syncs3 creation_component_db_syn (λ r. r.stk_act_pch_balance) s
      × Syncs3 rdp_etf_syn (λ r. r.stk_act_pch_balance) s
unfolding sell_db_syn sell_etf_db_syn creation_component_db_syn rdp_etf_syn db_syn reset_syn
syncs-three s fit = (ground arith, ground arith, ground arith, ground arith)

-- For a holding whose counters fit 64 bits, each of the four synchronisations with two counters
-- reports, for the balance and for its source, the count of the last synchronisation and all that the
-- counter holds now, and makes the latter the synchronised count.
pub syncs-two :
    (s : UserStockVolume)
    → AllFit s
    → Syncs2 creation_etf_db_syn (λ r. r.stk_crt_balance) s
      × Syncs2 add_act_syn (λ r. r.stk_act_pch_balance) s
      × Syncs2 add_etf_syn (λ r. r.stk_crt_balance) s
      × Syncs2 add_rdp_component_syn (λ r. r.stk_etf_rdp_balance) s
unfolding creation_etf_db_syn add_act_syn add_etf_syn add_rdp_component_syn db_syn reset_syn
syncs-two s fit = (ground arith, ground arith, ground arith, ground arith)
