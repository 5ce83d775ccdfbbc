-- ===== src/Stock/SellEtf.antt =====
-- `UserStockVolume::SellEtfFroze` and its family: the sale of ETF units, which come from created units
-- first and from the available units next.
use simutgw_src.Common.{ℕ, Code, success, failure, add64, sub64, ltb, ◌==◌, if◌then◌else◌}
use simutgw_src.Volume
use simutgw_src.Stock.{
  UserStockVolume, Action, ◌>>◌, unless_zero, ignoring, at_stk, at_crt, at_avl, defroze_by,
  confirm_by, touch, visit, froze_stk_balance, defroze_stk_balance,
}

-- The rollback of a freeze that failed.
unfoldable pub sell_etf_rollback : ℕ → ℕ → Action
sell_etf_rollback etf avl =
    ignoring (unless_zero etf (at_crt (defroze_by etf)))
    >> unless_zero avl (at_avl (defroze_by avl))

-- The code, `out_ui64etf`, `out_ui64avl` and the new state. Both amounts are written on failure too.
unfoldable pub sell_etf_froze : ℕ → ℕ → UserStockVolume → Code × ℕ × ℕ × UserStockVolume
unfolding sell_etf_rollback froze_stk_balance
sell_etf_froze now want s =
    let s1 = visit now s in
    let (_, etf, src) = Volume.froze s1.stk_crt_balance want in
    let s2 = record s1 { stk_crt_balance = src } in
    if etf == want
    then (success, etf, 0, s2)
    else (let (_, avl, rest) = Volume.froze s2.stk_avl_balance (sub64 want etf) in
        let s3 = record s2 { stk_avl_balance = rest } in
        if ltb (add64 etf avl) want
        then (failure, etf, avl, (sell_etf_rollback etf avl s3).1)
        else (let (code, s4) = froze_stk_balance want s3 in (code, etf, avl, s4)))

-- `SellEtfDeFroze`: a step that fails returns -1 at once, with the earlier steps done.
unfoldable pub sell_etf_defroze : ℕ → ℕ → ℕ → Action
unfolding defroze_stk_balance
sell_etf_defroze now etf avl =
    touch now
    >> unless_zero etf (at_crt (defroze_by etf))
    >> unless_zero avl (at_avl (defroze_by avl))
    >> defroze_stk_balance (add64 etf avl)

-- `SellEtfConfirm`: a step that fails returns -1 at once, with the earlier steps done.
unfoldable pub sell_etf_confirm : ℕ → ℕ → ℕ → Action
sell_etf_confirm now etf avl =
    touch now
    >> unless_zero etf (at_crt (confirm_by etf))
    >> unless_zero avl (at_avl (confirm_by avl))
    >> at_stk (confirm_by (add64 etf avl))

-- `SellEtfDBSyn`: the origins and updates of the balance, of `etf` and of the available shares,
-- the origin of
-- the last balance, and the new state.
unfoldable pub sell_etf_db_syn : UserStockVolume → ℕ × ℕ × ℕ × ℕ × ℕ × ℕ × ℕ × UserStockVolume
sell_etf_db_syn s =
    let (stk_origin, stk_update, v1) = Volume.db_syn s.stk_balance in
    let (etf_origin, etf_update, v2) = Volume.db_syn s.stk_crt_balance in
    let (avl_origin, avl_update, v3) = Volume.db_syn s.stk_avl_balance in
    let (last_origin, v4) = Volume.reset_syn s.stk_last_balance stk_origin in
    (
      stk_origin,
      stk_update,
      etf_origin,
      etf_update,
      avl_origin,
      avl_update,
      last_origin,
      record s {
        stk_balance = v1;
        stk_crt_balance = v2;
        stk_avl_balance = v3;
        stk_last_balance = v4;
      },
    )
