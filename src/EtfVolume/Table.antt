-- ===== src/EtfVolume/Table.antt =====
-- `ETF_TradeVolume`: the baskets, looked up by the security and inserted under the customer.
use simutgw_src.Common.{
  Map, find, put, ℕ, String, Option, none, some, Code, success, failure, is_ok, if◌then◌else◌,
}
use simutgw_src.EtfVolume.{Basket, SzEtf, new_basket, empty_basket}
use simutgw_src.EtfVolume.Quotas.{
  froze_creation, defroze_creation, confirm_creation, froze_redemption, defroze_redemption,
  confirm_redemption,
}

-- The key and the basket that a method works on, and the table with a new basket inserted if none
-- stood under the security; `none` when `insert` finds the customer's name there already.
unfoldable pub lookup :
    Basket → String → String → Map Basket → Option (String × Basket × Map Basket)
lookup fresh security cust m = elim (find security m) [
  | some b ↦ some (security, b, m)
  | none ↦ elim (find cust m) [ some _ ↦ none | none ↦ some (cust, fresh, put cust fresh m) ]
]

-- What the six methods share.
unfoldable pub on_basket :
    (Basket → Code × Basket) → Basket → String → String → Map Basket → Code × Map Basket
unfolding lookup
on_basket f fresh security cust m = elim (lookup fresh security cust m) [
  | none ↦ (failure, m)
  | some (key, b, m') ↦
      let (code, b') = f b in (if is_ok code then success else failure, put key b' m')
]

unfoldable pub table_froze_creation : ℕ → String → String → SzEtf → Map Basket → Code × Map Basket
unfolding on_basket froze_creation
table_froze_creation n security cust etf m =
    on_basket (froze_creation n cust) (new_basket etf) security cust m

unfoldable pub table_defroze_creation : ℕ → String → String → Map Basket → Code × Map Basket
unfolding on_basket defroze_creation
table_defroze_creation n security cust m =
    on_basket (defroze_creation n cust) empty_basket security cust m

unfoldable pub table_confirm_creation : ℕ → String → String → Map Basket → Code × Map Basket
unfolding on_basket confirm_creation
table_confirm_creation n security cust m =
    on_basket (confirm_creation n cust) empty_basket security cust m

unfoldable pub table_froze_redemption : ℕ → String → String → SzEtf → Map Basket → Code × Map Basket
unfolding on_basket froze_redemption
table_froze_redemption n security cust etf m =
    on_basket (froze_redemption n cust) (new_basket etf) security cust m

unfoldable pub table_defroze_redemption : ℕ → String → String → Map Basket → Code × Map Basket
unfolding on_basket defroze_redemption
table_defroze_redemption n security cust m =
    on_basket (defroze_redemption n cust) empty_basket security cust m

unfoldable pub table_confirm_redemption : ℕ → String → String → Map Basket → Code × Map Basket
unfolding on_basket confirm_redemption
table_confirm_redemption n security cust m =
    on_basket (confirm_redemption n cust) empty_basket security cust m
