-- ===== src/EtfVolume/Keys.antt =====
-- The key under which `ETF_TradeVolume` puts a new basket is the customer's, not the security's.
use simutgw_src.Common.{
  Map, find, find-put, find-put-other, put, put-put, ℕ, String, ◌≡◌, ◌≢◌, refl, ap, ◌∙◌, none, some,
  Code, success, failure,
}
use simutgw_src.EtfVolume.{Basket, SzEtf, new_basket}
use simutgw_src.EtfVolume.Quotas.{froze_creation, froze_redemption}
use simutgw_src.EtfVolume.Table.{lookup, on_basket, table_froze_creation, table_froze_redemption}
use simutgw_src.EtfVolume.Promises.{Direction, creating, redeeming, froze_in-success}

abbrev pub table_froze_in : Direction → ℕ → String → String → SzEtf → Map Basket → Code × Map Basket
table_froze_in creating = table_froze_creation
table_froze_in redeeming = table_froze_redemption

on_basket-inserted :
    (f : Basket → Code × Basket) (fresh : Basket) (security cust : String) (m : Map Basket)
    → find security m ≡ none
    → find cust m ≡ none
    → (f fresh).0 ≡ success
    → on_basket f fresh security cust m ≡ (success, put cust (f fresh).1 m)
unfolding on_basket lookup
on_basket-inserted f fresh security cust m h k e =
    rw (h, on_basket) (rw k (rw e (ap (λ l. (success, l)) (put-put cust (f fresh).1 fresh m))))

on_basket-taken_key :
    (f : Basket → Code × Basket) (fresh b : Basket) (security cust : String) (m : Map Basket)
    → find security m ≡ none
    → find cust m ≡ some b
    → on_basket f fresh security cust m ≡ (failure, m)
unfolding on_basket lookup
on_basket-taken_key f fresh b security cust m h k = rw (h, on_basket) (rw k refl)

again :
    (f g : Basket → Code × Basket) (fresh : Basket) (security cust : String) (m : Map Basket)
    → find security m ≡ none
    → find cust m ≡ none
    → security ≢ cust
    → (f fresh).0 ≡ success
    → let r = on_basket f fresh security cust m in
      (r.0 ≡ success) × (on_basket g fresh security cust r.1 ≡ (failure, r.1))
again f g fresh security cust m h j z e =
    let b = (f fresh).1 in
    rw (on_basket-inserted f fresh security cust m h j e) (
      refl,
      on_basket-taken_key g fresh b security cust (put cust b m)
          (find-put-other security cust b m z ∙ h) (find-put cust b m),
    )

-- The first freeze for a security that is not in the table, by a customer whose name is no key of it
-- and is not the security's, returns 0, but its basket stands under the customer's name: the next
-- freeze of the same kind, for the same security and by the same customer, returns -1 and changes
-- nothing. For creation and for redemption.
pub table_froze-again :
    (d : Direction) (n k : ℕ) (security cust : String) (etf : SzEtf) (m : Map Basket)
    → find security m ≡ none
    → find cust m ≡ none
    → security ≢ cust
    → let r = table_froze_in d n security cust etf m in
      (r.0 ≡ success) × (table_froze_in d k security cust etf r.1 ≡ (failure, r.1))
unfolding table_froze_creation table_froze_redemption
table_froze-again creating n k security cust etf m h j z =
    again (froze_creation n cust) (froze_creation k cust) (new_basket etf) security cust m h j z
      (froze_in-success creating n cust (new_basket etf))
table_froze-again redeeming n k security cust etf m h j z =
    again (froze_redemption n cust) (froze_redemption k cust) (new_basket etf) security cust m h j z
      (froze_in-success redeeming n cust (new_basket etf))
