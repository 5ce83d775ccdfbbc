-- ===== src/Stock/Examples.antt =====
-- Tests of `UserStockVolume`, and instances of its theorems.
use simutgw_src.Common.{◌≡◌, refl, true, List, [], ◌∷◌, success, failure, arith}
use simutgw_src.Volume.{froze, defroze, confirm, add, query}
use simutgw_src.Stock.{UserStockVolume, load, is_expired, visit}
use simutgw_src.Stock.Sell.{sell_froze, sell_defroze, sell_confirm}
use simutgw_src.Stock.Creation.{creation_froze, creation_query}
use simutgw_src.Stock.Increase.{add_act}
use simutgw_src.Stock.Uses.{creation, sell, froze_for, defroze_for, confirm_for}
use simutgw_src.Stock.Parts.{AllFit}
use simutgw_src.Stock.Split.{Granted, froze_for-Granted}
use simutgw_src.Stock.Rollback.{Leaked, froze-rollback, froze-Leaked}
use simutgw_src.Stock.Release.{defroze_for-froze_for}
use simutgw_src.Stock.Settle.{Traded, Unpaid, confirm_for-froze_for, froze_for-Unpaid}
use simutgw_src.Stock.Credit.{
  Event, freezes, releases, confirms, buys, Kept, run, step, run-IsBalanced,
}

-- 100 shares: 30 bought today, 20 redeemed and 50 available.
abbrev holding : UserStockVolume
holding = load 1000 true 100 30 0 20 0 50 90 600

holding-AllFit : AllFit holding
unfolding load
holding-AllFit = omega arith

-- A sale of 60 takes 20 redeemed and 40 available shares.
sell_60 :
    let (code, etf, avl, s) = sell_froze 1001 60 holding in
    (code ≡ success) × (etf ≡ 20) × (avl ≡ 40) × (s.stk_balance.forze_volume ≡ 60)
unfolding sell_froze is_expired load froze defroze
sell_60 = (refl, refl, refl, refl)

-- A creation that asks for too much.
creation_90 :
    let (code, act, avl, s) = creation_froze 1001 90 holding in
    (code ≡ failure)
    × (act ≡ 30)
    × (s.stk_act_pch_balance.forze_volume ≡ 30)
    × (s.stk_etf_rdp_balance.un_froze_volume ≡ 50)
unfolding creation_froze is_expired load froze defroze
creation_90 = (refl, refl, refl, refl)

query_90 : (creation_query 1001 90 holding).1 ≡ 80
unfolding creation_query is_expired load query
query_90 = refl

froze_for-Granted_example :
    let (_, a, b, s) = froze_for sell 1001 60 holding in
    Granted 60 a b holding.stk_etf_rdp_balance holding.stk_avl_balance s.stk_etf_rdp_balance
      s.stk_avl_balance
unfolding load sell_froze is_expired froze
froze_for-Granted_example = froze_for-Granted sell 1001 60 holding holding-AllFit (omega arith) refl

refused_sale : (froze_for sell 1001 80 holding).0 ≡ failure
unfolding load sell_froze is_expired froze
refused_sale = refl

froze-rollback_example : (froze_for sell 1001 80 holding).3 ≡ visit 1001 holding
froze-rollback_example =
    froze-rollback sell 1001 80 holding tt holding-AllFit (omega arith) refused_sale

refused_creation : (froze_for creation 1001 90 holding).0 ≡ failure
unfolding load creation_froze is_expired froze
refused_creation = refl

froze-Leaked_example : Leaked holding (froze_for creation 1001 90 holding).3
unfolding load
froze-Leaked_example =
    froze-Leaked creation 1001 90 holding (λ b. b) holding-AllFit (omega arith) (omega arith)
      refused_creation

defroze_for-froze_for_example :
    let (_, a, b, s) = froze_for sell 1001 60 holding in
    defroze_for sell 1002 a b s ≡ (success, visit 1002 (visit 1001 holding))
unfolding load sell_froze is_expired froze
defroze_for-froze_for_example =
    defroze_for-froze_for sell 1001 1002 60 holding holding-AllFit (omega arith) (omega arith)
      (omega arith) refl

confirm_for-froze_for_example :
    let (_, a, b, s) = froze_for sell 1001 60 holding in
    Traded sell holding a b (confirm_for sell 1002 a b s)
unfolding load sell_froze is_expired froze
confirm_for-froze_for_example =
    confirm_for-froze_for sell 1001 1002 60 holding holding-AllFit (omega arith) (omega arith)
      (omega arith) refl

froze_for-Unpaid_example :
    let (code, a, b, s) = froze_for sell 1001 20 holding in
    (code ≡ success)
    × (s.stk_balance ≡ holding.stk_balance)
    × Unpaid sell holding 20 (confirm_for sell 1002 a b s)
unfolding load
froze_for-Unpaid_example =
    froze_for-Unpaid sell 1001 1002 20 holding holding-AllFit (omega arith) (omega arith)
      (omega arith)

abbrev events : List Event
events =
    buys 1001 5
    ∷ freezes sell 1002 60
    ∷ confirms sell 1003 20 30
    ∷ releases sell 1004 0 10
    ∷ freezes sell 1005 80
    ∷ []

run-IsBalanced_example : Kept (run holding events)
unfolding load step sell_froze sell_defroze sell_confirm add_act is_expired froze defroze confirm
    add
run-IsBalanced_example = run-IsBalanced holding events (holding-AllFit, refl) (omega arith)
