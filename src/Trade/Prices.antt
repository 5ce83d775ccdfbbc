-- ===== src/Trade/Prices.antt =====
-- Which orders the checks of quotation and price let through.
use simutgw_src.Common.{
  ℕ, String, ◌/◌, ◌≤◌, ◌≡◌, ◌≢◌, ◌⊎◌, Bool, true, false, Option, some, Code, success, failure,
  str_eq, arith,
}
use simutgw_src.Trade.{not_match, out_of_range, stop_trans, error_match, OrderMessage}
use simutgw_src.Trade.Checks.{
  check_tpbz, check_max_gain_and_min_fall, Quotation, is_limit_order, get_order_circle_id, quoted,
  check_order_by_quotation, check_match_method,
}

-- What a quotation allows: the security is not halted, and an order with a price limit keeps to the
-- limits of the day, which are both 0 when there are none.
pub record IsAllowed (q : Quotation) (o : OrderMessage) : Type 0 where
  pub not_halted : str_eq q.tpbz "F" ≡ true
  pub within :
      (is_limit_order o.ord_type ≡ false)
      ⊎ ((q.max_gain ≡ 0) × (q.min_fall ≡ 0))
      ⊎ ((q.min_fall ≤ o.order_price) × (o.order_price ≤ q.max_gain))

-- An order that a check marks as an error, as halted or beyond the limits, with -1.
pub record Marked (o : OrderMessage) (r : Code × OrderMessage) : Type 0 where
  pub code : r.0 ≡ failure
  pub is_error : r.1.data_error ≡ true
  pub kind : (r.1.match_type ≡ stop_trans) ⊎ (r.1.match_type ≡ out_of_range)
  pub quantity : r.1.leaves_qty ≡ o.leaves_qty
  pub price : r.1.order_price ≡ o.order_price

quoted-IsAllowed :
    (q : Quotation) (o : OrderMessage)
    → (IsAllowed q o × (quoted q o ≡ (success, o))) ⊎ ((¬ IsAllowed q o) × Marked o (quoted q o))
unfolding quoted check_tpbz check_max_gain_and_min_fall
quoted-IsAllowed q o = ground arith

-- If there is a quotation for the circle of an order, `CheckOrderByQuotation` returns 0 and leaves the
-- order as it was, if the quotation allows it; another order it marks as an error and returns -1.
pub check_order_by_quotation-IsAllowed :
    (quotation : String → Option Quotation) (q : Quotation) (o : OrderMessage)
    → quotation (get_order_circle_id o) ≡ some q
    → (IsAllowed q o × (check_order_by_quotation quotation o ≡ (success, o)))
      ⊎ ((¬ IsAllowed q o) × Marked o (check_order_by_quotation quotation o))
unfolding check_order_by_quotation
check_order_by_quotation-IsAllowed quotation q o h =
    rw (h, check_order_by_quotation) (quoted-IsAllowed q o)

-- A purchase whose price, if it is a limit, is not below the average of the market, or a sale whose
-- price, if it is a limit, is not above it.
abbrev pub MayMatch : ℕ → Bool → OrderMessage → Type 0
MayMatch average limit o =
    ((o.side_code ≡ 1) × ((limit ≡ false) ⊎ (average ≤ o.order_price)))
    ⊎ ((o.side_code ≡ 2) × ((limit ≡ false) ⊎ (o.order_price ≤ average)))

-- An order that does not match yet, or is no order to buy or sell.
pub record Waits (o o' : OrderMessage) : Type 0 where
  pub kind : (o'.match_type ≡ not_match) ⊎ (o'.match_type ≡ error_match)
  pub quantity : o'.leaves_qty ≡ o.leaves_qty
  pub price : o'.order_price ≡ o.order_price

-- With a volume that is not 0, `Check_Match_Method` ends; it returns 0 and leaves the order as it was
-- exactly if the order may match at the average price of the market, the money over the volume, and
-- else returns -1 and notes that the order does not match.
pub check_match_method-MayMatch :
    (cjsl cjje : ℕ) (limit : Bool) (o : OrderMessage)
    → cjsl ≢ 0
    → (MayMatch (cjje / cjsl) limit o × (check_match_method cjsl cjje limit o ≡ some (success, o)))
      ⊎ ((¬ MayMatch (cjje / cjsl) limit o)
          × (o' : OrderMessage) × (check_match_method cjsl cjje limit o ≡ some (failure, o'))
          × Waits o o')
unfolding check_match_method
check_match_method-MayMatch cjsl cjje limit o h = ground arith
