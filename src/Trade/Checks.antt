-- ===== src/Trade/Checks.antt =====
-- `CheckTPBZ` and `Check_MaxGain_And_MinFall`, which `PreTrade` and `MatchUtil` have alike,
-- `CheckOrderByQuotation`, and the two `Check_Match_Method`.
use simutgw_src.Common.{
  ℕ, String, ◌/◌, Bool, true, ◌&&◌, ◌||◌, not, Option, none, some, Code, success, failure, is_ok,
  ltb, ◌==◌, str_eq, if◌then◌else◌,
}
use simutgw_src.Trade.{
  not_match, out_of_range, stop_trans, error_match, is_halted, beyond_limits, below_average,
  above_average, unknown_side, OrderMessage,
}

-- The error code of a market, for Shenzhen and for Shanghai; another market keeps what it has.
abbrev pub market_code : String → String → OrderMessage → String
market_code sz sh o =
    if str_eq o.trade_market "102"
    then sz
    else if str_eq o.trade_market "101"
    then sh
    else o.error_code

unfoldable pub check_tpbz : String → OrderMessage → Code × OrderMessage
check_tpbz tpbz o =
    if not (str_eq tpbz "F")
    then (
      failure,
      record o {
        match_type = stop_trans;
        data_error = true;
        error = is_halted;
        error_code = market_code "20007" "203" o;
      },
    )
    else (success, o)

unfoldable pub check_max_gain_and_min_fall : ℕ → ℕ → OrderMessage → Code × OrderMessage
check_max_gain_and_min_fall max_gain min_fall o =
    if (max_gain == 0) && (min_fall == 0)
    then (success, o)
    else if ltb max_gain o.order_price || ltb o.order_price min_fall
    then (
      failure,
      record o {
        match_type = out_of_range;
        error = beyond_limits max_gain min_fall;
        data_error = true;
        error_code = market_code "20009" "212" o;
      },
    )
    else (success, o)

-- What `MarketInfoHelper` gives for a security and a circle, of what is used here; it fails where
-- there is no quotation.
pub record Quotation : Type 0 where
  pub max_gain : ℕ
  pub min_fall : ℕ
  pub tpbz : String

abbrev pub is_limit_order : String → Bool
is_limit_order t = str_eq t "2" || str_eq t "LPT" || str_eq t "LRZ" || str_eq t "LRQ"

-- `Get_Order_CircleID`.
unfoldable pub get_order_circle_id : OrderMessage → String
get_order_circle_id o =
    let circle = if str_eq o.trade_group "" then o.market_branch_id else o.trade_group in
    if str_eq circle "" then "C1" else circle

-- The part that follows when there is a quotation.
unfoldable pub quoted : Quotation → OrderMessage → Code × OrderMessage
unfolding check_tpbz check_max_gain_and_min_fall
quoted q o =
    let (code, o1) = check_tpbz q.tpbz o in
    if is_ok code
    then if is_limit_order o1.ord_type
      then check_max_gain_and_min_fall q.max_gain q.min_fall o1
      else (success, o1)
    else (failure, o1)

-- The quotation, by circle, is an argument; without one the order is let through.
unfoldable pub check_order_by_quotation :
    (String → Option Quotation) → OrderMessage → Code × OrderMessage
check_order_by_quotation quotation o = elim (quotation (get_order_circle_id o)) [
  | none ↦ (success, o)
  | some q ↦ quoted q o
]

-- `Check_Match_Method`. The average price is a division; `none` stands for the fault when no volume is
-- given. The predicted amounts are not used.
unfoldable pub check_match_method : ℕ → ℕ → Bool → OrderMessage → Option (Code × OrderMessage)
check_match_method cjsl cjje limit o =
    let average = cjje / cjsl in
    if cjsl == 0
    then none
    else if o.side_code == 1
    then if limit && ltb o.order_price average
      then some (failure, record o { match_type = not_match; error = below_average average })
      else some (success, o)
    else if o.side_code == 2
    then if limit && ltb average o.order_price
      then some (failure, record o { match_type = not_match; error = above_average average })
      else some (success, o)
    else some (
      failure,
      record o { error = unknown_side o.side; match_type = error_match; data_error = true },
    )
