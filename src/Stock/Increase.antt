-- ===== src/Stock/Increase.antt =====
-- `UserStockVolume::AddAct` and the other methods that add shares, and their synchronisations.
use simutgw_src.Common.{ℕ}
use simutgw_src.Volume
use simutgw_src.Stock.{UserStockVolume, visit}

-- `AddAct`, which always returns 0.
unfoldable pub add_act : ℕ → ℕ → UserStockVolume → UserStockVolume
add_act now n s =
    let s1 = visit now s in
    record s1 {
      stk_act_pch_balance = Volume.add s1.stk_act_pch_balance n;
      stk_balance = Volume.add s1.stk_balance n;
    }

-- `AddCrt`, which always returns 0.
unfoldable pub add_crt : ℕ → ℕ → UserStockVolume → UserStockVolume
add_crt now n s =
    let s1 = visit now s in
    record s1 {
      stk_crt_balance = Volume.add s1.stk_crt_balance n;
      stk_balance = Volume.add s1.stk_balance n;
    }

-- `AddRdp`, which always returns 0.
unfoldable pub add_rdp : ℕ → ℕ → UserStockVolume → UserStockVolume
add_rdp now n s =
    let s1 = visit now s in
    record s1 {
      stk_etf_rdp_balance = Volume.add s1.stk_etf_rdp_balance n;
      stk_balance = Volume.add s1.stk_balance n;
    }

-- `AddActSyn`: the origins and updates of the balance and of `act`,
-- the origin of the last balance, and the
-- new state.
unfoldable pub add_act_syn : UserStockVolume → ℕ × ℕ × ℕ × ℕ × ℕ × UserStockVolume
add_act_syn s =
    let (stk_origin, stk_update, v1) = Volume.db_syn s.stk_balance in
    let (act_origin, act_update, v2) = Volume.db_syn s.stk_act_pch_balance in
    let (last_origin, v3) = Volume.reset_syn s.stk_last_balance stk_origin in
    (
      stk_origin,
      stk_update,
      act_origin,
      act_update,
      last_origin,
      record s { stk_balance = v1; stk_act_pch_balance = v2; stk_last_balance = v3 },
    )

-- `AddEtfSyn`: the origins and updates of the balance and of `etf`,
-- the origin of the last balance, and the
-- new state.
unfoldable pub add_etf_syn : UserStockVolume → ℕ × ℕ × ℕ × ℕ × ℕ × UserStockVolume
add_etf_syn s =
    let (stk_origin, stk_update, v1) = Volume.db_syn s.stk_balance in
    let (etf_origin, etf_update, v2) = Volume.db_syn s.stk_crt_balance in
    let (last_origin, v3) = Volume.reset_syn s.stk_last_balance stk_origin in
    (
      stk_origin,
      stk_update,
      etf_origin,
      etf_update,
      last_origin,
      record s { stk_balance = v1; stk_crt_balance = v2; stk_last_balance = v3 },
    )

-- `AddRdpComponentSyn`: the origins and updates of the balance and of `rdp`,
-- the origin of the last balance, and the
-- new state.
unfoldable pub add_rdp_component_syn : UserStockVolume → ℕ × ℕ × ℕ × ℕ × ℕ × UserStockVolume
add_rdp_component_syn s =
    let (stk_origin, stk_update, v1) = Volume.db_syn s.stk_balance in
    let (rdp_origin, rdp_update, v2) = Volume.db_syn s.stk_etf_rdp_balance in
    let (last_origin, v3) = Volume.reset_syn s.stk_last_balance stk_origin in
    (
      stk_origin,
      stk_update,
      rdp_origin,
      rdp_update,
      last_origin,
      record s { stk_balance = v1; stk_etf_rdp_balance = v2; stk_last_balance = v3 },
    )
