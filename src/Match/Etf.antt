-- ===== src/Match/Etf.antt =====
-- `Task_Etf_Match` (shared_src/simutgw/work_manage/Task_Etf_Match.cpp): an order to create or to redeem ETF
-- units is filled at once. The four functions that fill in the components from the database are called nowhere.
use simutgw_src.Common.{Option, none, some, success, failure, str_eq, if◌then◌else◌}
use simutgw_src.Trade.{OrderMessage}
use simutgw_src.Match.{Desk, Market}
use simutgw_src.Match.Fill.{all_filled}
use simutgw_src.Match.Simulated.{Answer, traded}

-- `TradeMatch`, which returns `MatchAll`.
unfoldable pub trade_match : Market → OrderMessage → Desk → Option (OrderMessage × Desk)
trade_match m o d = traded m (all_filled o.order_price o) d

-- `MatchOrder`; the mode makes no difference. Nothing is left to be done after `MatchAll`.
unfoldable pub etf_match_order : Market → OrderMessage → Desk → Answer
unfolding trade_match
etf_match_order m o d =
    if str_eq o.side "D"
    then elim (trade_match m o d) [ none ↦ none | some (o', d') ↦ some (success, o', d') ]
    else if str_eq o.side "E"
    then elim (trade_match m o d) [ none ↦ none | some (o', d') ↦ some (success, o', d') ]
    else some (failure, o, d)
