-- ===== src/Stock/Redemption.antt =====
-- `UserStockVolume::RedemptionFroze` and its family: the ETF units that a redemption takes, from those
-- bought today first and from the available ones next.
use simutgw_src.Common.{ℕ, Code, success, failure, add64, sub64, ltb, ◌==◌, if◌then◌else◌}
use simutgw_src.Volume
use simutgw_src.Stock.{
  UserStockVolume, Action, ◌>>◌, unless_zero, ignoring, at_stk, at_act, at_rdp, at_avl, defroze_by,
  confirm_by, touch, visit, froze_stk_balance, defroze_stk_balance,
}

-- The rollback of a freeze that failed, as written: it releases the first amount in the counter of
-- redeemed shares, not in the one that it was frozen in.
unfoldable pub redemption_rollback : ℕ → ℕ → Action
redemption_rollback act avl =
    ignoring (unless_zero act (at_rdp (defroze_by act)))
    >> unless_zero avl (at_avl (defroze_by avl))

-- The code, `out_ui64act`, `out_ui64avl` and the new state. Both amounts are written on failure too.
unfoldable pub redemption_froze : ℕ → ℕ → UserStockVolume → Code × ℕ × ℕ × UserStockVolume
unfolding redemption_rollback froze_stk_balance
redemption_froze now want s =
    let s1 = visit now s in
    let (_, act, src) = Volume.froze s1.stk_act_pch_balance want in
    let s2 = record s1 { stk_act_pch_balance = src } in
    if act == want
    then (success, act, 0, s2)
    else (let (_, avl, rest) = Volume.froze s2.stk_avl_balance (sub64 want act) in
        let s3 = record s2 { stk_avl_balance = rest } in
        if ltb (add64 act avl) want
        then (failure, act, avl, (redemption_rollback act avl s3).1)
        else (let (code, s4) = froze_stk_balance want s3 in (code, act, avl, s4)))

-- `RedemptionDeFroze`: a step that fails returns -1 at once, with the earlier steps done.
unfoldable pub redemption_defroze : ℕ → ℕ → ℕ → Action
unfolding defroze_stk_balance
redemption_defroze now act avl =
    touch now
    >> unless_zero act (at_act (defroze_by act))
    >> unless_zero avl (at_avl (defroze_by avl))
    >> defroze_stk_balance (add64 act avl)

-- `RedemptionConfirm`: a step that fails returns -1 at once, with the earlier steps done.
-- The code of the last step, on the balance, is not looked at.
unfoldable pub redemption_confirm : ℕ → ℕ → ℕ → Action
redemption_confirm now act avl =
    touch now
    >> unless_zero act (at_act (confirm_by act))
    >> unless_zero avl (at_avl (confirm_by avl))
    >> ignoring (at_stk (confirm_by (add64 act avl)))

-- `RdpEtfSyn`: the origins and updates of the balance, of `act` and of the available shares,
-- the origin of
-- the last balance, and the new state.
unfoldable pub rdp_etf_syn : UserStockVolume → ℕ × ℕ × ℕ × ℕ × ℕ × ℕ × ℕ × UserStockVolume
rdp_etf_syn s =
    let (stk_origin, stk_update, v1) = Volume.db_syn s.stk_balance in
    let (act_origin, act_update, v2) = Volume.db_syn s.stk_act_pch_balance in
    let (avl_origin, avl_update, v3) = Volume.db_syn s.stk_avl_balance in
    let (last_origin, v4) = Volume.reset_syn s.stk_last_balance stk_origin in
    (
      stk_origin,
      stk_update,
      act_origin,
      act_update,
      avl_origin,
      avl_update,
      last_origin,
      record s {
        stk_balance = v1;
        stk_act_pch_balance = v2;
        stk_avl_balance = v3;
        stk_last_balance = v4;
      },
    )
