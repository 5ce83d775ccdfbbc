-- ===== src/Match/Quoted.antt =====
-- `Quot_MatchByMarket`, `Quot_MatchOrder` and `ABStockEnableQuoMatch`: an order matched against the
-- quotation.
use simutgw_src.Common.{
  Bool, true, false, ◌||◌, Option, none, some, ◌∷◌, Code, success, failure, is_ok, not, ◌==◌,
  if◌then◌else◌,
}
use simutgw_src.Trade.{
  MatchType, match_all, match_part, cancel_match, not_match, out_of_range, stop_trans, error_match,
  DeclarationType, ordinary_limit, the_side_optimal, the_oppsite_side_optimal_and_remainder_hold,
  match_at_market_and_remainder_cancel, all_match_at_market_or_cancel,
  match_in_five_and_remainder_cancel, match_in_five_and_remainder_hold, other_declaration,
  OrderMessage,
}
use simutgw_src.Trade.Checks.{check_tpbz, check_max_gain_and_min_fall, get_order_circle_id}
use simutgw_src.Match.{Desk, Market, MarketQuotation, push_back, gen_task_match}
use simutgw_src.Match.Fill.{
  Result, match_ordinary_limit, match_optimal, match_optimal_and_remainder_cancel,
  match_all_market_or_cancel,
}

-- A limit order is checked against the limits of the day first.
abbrev pub limited : Market → MarketQuotation → OrderMessage → Desk → Result
limited m q o d =
    let (code, o') = check_max_gain_and_min_fall q.max_gain q.min_fall o in
    if is_ok code
    then match_ordinary_limit m q.cjsl q.cjje o' d
    else some (record o' { match_type = out_of_range }, d, 0, 0)

abbrev pub by_declaration :
    DeclarationType → Market → MarketQuotation → OrderMessage → Desk → Result
by_declaration ordinary_limit m q o d = limited m q o d
by_declaration the_side_optimal m q o d = match_optimal m q.cjsl q.cjje o d
by_declaration the_oppsite_side_optimal_and_remainder_hold m q o d =
    match_optimal m q.cjsl q.cjje o d
by_declaration match_at_market_and_remainder_cancel m q o d =
    match_optimal_and_remainder_cancel m q.cjsl q.cjje o d
by_declaration all_match_at_market_or_cancel m q o d =
    match_all_market_or_cancel m q.cjsl q.cjje o d
by_declaration match_in_five_and_remainder_cancel m q o d =
    match_optimal_and_remainder_cancel m q.cjsl q.cjje o d
by_declaration match_in_five_and_remainder_hold m q o d = match_optimal m q.cjsl q.cjje o d
by_declaration other_declaration m q o d = some (record o { match_type = out_of_range }, d, 0, 0)

-- The match type that is returned is that of the order.
unfoldable pub quot_match_by_market : Market → MarketQuotation → OrderMessage → Desk → Result
quot_match_by_market m q o d =
    let (code, o') = check_tpbz q.tpbz (record o { match_type = not_match }) in
    if not (is_ok code)
    then some (o', d, 0, 0)
    else if (q.cjsl == 0) || (q.cjje == 0)
    then some (record o' { match_type = not_match }, d, 0, 0)
    else by_declaration o'.del_type m q o' d

abbrev pub is_matched : MatchType → Bool
is_matched match_all = true
is_matched match_part = true
is_matched _ = false

-- The match type that is returned, and the order, which has the same.
unfoldable pub quot_match_order :
    Market → OrderMessage → Desk → Option (MatchType × OrderMessage × Desk)
unfolding quot_match_by_market
quot_match_order m o d =
    let circle = get_order_circle_id o in
    elim (m.quotation circle) [
      | none ↦ some (not_match, record o { match_type = not_match }, d)
      | some q ↦ elim (quot_match_by_market m q o d) [
        | none ↦ none
        | some (o', d', cjsl, cjje) ↦
            if is_matched o'.match_type
            then (let d2 = (push_back o' d').1 in
                elim m.write_result [
                  | success ↦
                      some (
                        o'.match_type,
                        o',
                        record d2 { written = (circle, cjsl, cjje) ∷ d2.written },
                      )
                  | failure ↦ some (not_match, record o' { match_type = not_match }, d2)
                ])
            else some (o'.match_type, o', d')
      ]
    ]

-- The declarations of which the rest goes on being matched.
abbrev pub holds_rest : DeclarationType → Bool
holds_rest ordinary_limit = true
holds_rest match_in_five_and_remainder_hold = true
holds_rest the_oppsite_side_optimal_and_remainder_hold = true
holds_rest _ = false

abbrev pub after_match : Market → MatchType → OrderMessage → Desk → Code × OrderMessage × Desk
after_match m match_all o d = (success, o, d)
after_match m match_part o d =
    if holds_rest o.del_type then (success, o, (gen_task_match m o d).1) else (success, o, d)
after_match m cancel_match o d = (success, o, d)
after_match m not_match o d = (success, o, (gen_task_match m o d).1)
after_match m out_of_range o d =
    let o' = record o { match_type = error_match } in (failure, o', (push_back o' d).1)
after_match m stop_trans o d =
    let o' = record o { match_type = error_match } in (failure, o', (push_back o' d).1)
after_match m error_match o d =
    let o' = record o { match_type = error_match } in (failure, o', (push_back o' d).1)

unfoldable pub ab_stock_enable_quo_match :
    Market → OrderMessage → Desk → Option (Code × OrderMessage × Desk)
unfolding quot_match_order
ab_stock_enable_quo_match m o d = elim (quot_match_order m o d) [
  | none ↦ none
  | some (type, o', d') ↦ some (after_match m type o' d')
]
