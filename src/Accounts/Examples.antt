-- ===== src/Accounts/Examples.antt =====
-- Tests of the trade updates, and instances of the theorems.
use simutgw_src.Common.{
  String, ◌≡◌, ◌≢◌, ◌⊎◌, inl, refl, true, false, none, some, [], ◌∷◌, Code, success, failure, arith,
  eq_iff,
}
use simutgw_src.Stock.{UserStockVolume}
use simutgw_src.Stock.Uses.{sell}
use simutgw_src.Trade.{OrderMessage, etf_sell, normal_mode}
use simutgw_src.Trade.Sample.{order, sale, held_for_sale}
use simutgw_src.Accounts.{Sql, Cache, World, holding, store}
use simutgw_src.Accounts.Calls.{freezes, start, call}
use simutgw_src.Accounts.Acts.{Acts, call-Acts}
use simutgw_src.Accounts.Orders.{sell_split, update_after_trade}
use simutgw_src.Accounts.Apart.{update_after_trade-other_account}
use simutgw_src.Accounts.Split.{Backed}
use simutgw_src.Accounts.Fills.{IsSale, shenzhen, trade}
use simutgw_src.Accounts.Sales.{sum, Settled, trades_and_cancel, trades_and_cancel-Settled}
use simutgw_src.Accounts.EtfSales.{
  IsEtfSale, Untouched, update_after_trade-Untouched, update_after_trade-unknown,
}
use simutgw_src.Accounts.Returns.{IsSome, update_after_trade-IsSome}
use simutgw_src.Accounts.Rows.{Row, sells, syn, table, Follows}
use simutgw_src.Accounts.Follows.{syn-Follows}

-- A database with no rows.
abbrev world : World
world = record { time = 1001; rows = λ account stock. none }

abbrev nothing : Cache
nothing = record { user_stock = []; statements = [] }

abbrev cache : Cache
cache = store "A1" "600000" held_for_sale nothing

abbrev other_cache : Cache
other_cache = store "A2" "600000" held_for_sale cache

found : holding "A1" "600000" cache ≡ some held_for_sale
found = refl

sale-IsSale : IsSale sale
sale-IsSale = record { listed = shenzhen refl refl; type = inl refl; side = refl; checked = refl }

sale-Backed : Backed held_for_sale sale.sell_cps
sale-Backed = ground arith

-- A trade of 30 takes 20 redeemed and 10 available shares.
split_30 :
    sell_split 30 sale.sell_cps ≡ (record { first = 20; avl = 10 }, record { first = 0; avl = 30 })
unfolding sell_split
split_30 = refl

call-Acts_example :
    ((start (freezes sell 10) world "A1" "600000" cache ≡ none)
      × (call (freezes sell 10) world "A1" "600000" sale.sell_cps cache
          ≡ some (failure, sale.sell_cps, cache)))
    ⊎ ((s : UserStockVolume) × (start (freezes sell 10) world "A1" "600000" cache ≡ some s)
        × Acts (freezes sell 10) world "A1" "600000" sale.sell_cps cache s)
call-Acts_example = call-Acts (freezes sell 10) world "A1" "600000" sale.sell_cps cache

trades_and_cancel-Settled_example :
    (c' : Cache) × (s' : UserStockVolume) × (trades_and_cancel world (10 ∷ 30 ∷ []) sale cache
      ≡ some (success, c'))
    × (holding "A1" "600000" c' ≡ some s')
    × Settled held_for_sale sale.sell_cps (sum (10 ∷ 30 ∷ [])) s'
trades_and_cancel-Settled_example =
    trades_and_cancel-Settled world (10 ∷ 30 ∷ []) sale cache held_for_sale sale-IsSale
      (omega arith) found sale-Backed (omega arith)

-- A trade that happens.
abbrev traded : Code × OrderMessage × Cache
traded = (update_after_trade-IsSome world sale other_cache refl).0

abbrev buyer : String
buyer = "A2"

abbrev seller : String
seller = "A1"

other_account : buyer ≢ seller
other_account e = let t : false ≡ true = (eq_iff buyer seller).1 e in cc

update_after_trade-other_account_example :
    holding "A2" "600000" traded.2 ≡ holding "A2" "600000" other_cache
update_after_trade-other_account_example =
    update_after_trade-other_account world sale traded.1 "A2" "600000" traded.0 other_cache traded.2
      other_account (update_after_trade-IsSome world sale other_cache refl).1

update_after_trade-IsSome_example : IsSome (update_after_trade world sale cache)
update_after_trade-IsSome_example = update_after_trade-IsSome world sale cache refl

-- A sale of 60 ETF units, all of which are frozen.
abbrev etf_sale : OrderMessage
etf_sale = record order {
  trade_type = etf_sell;
  side = "2";
  sell_etf_cps = record { first = 20; avl = 40 };
}

etf_sale-IsEtfSale : IsEtfSale etf_sale
etf_sale-IsEtfSale = record {
  listed = shenzhen refl refl;
  type = refl;
  checked = refl;
  other = refl;
}

update_after_trade-Untouched_example :
    (c' : Cache) × (s' : UserStockVolume) × (trade world 60 etf_sale cache
      ≡ some (
        success,
        record etf_sale { order_qty_matched = 60; sell_etf_cps = record { first = 0; avl = 0 } },
        c',
      ))
    × (holding "A1" "600000" c' ≡ some s')
    × Untouched held_for_sale s'
update_after_trade-Untouched_example =
    update_after_trade-Untouched world 60 etf_sale cache held_for_sale etf_sale-IsEtfSale found
      (omega arith) (omega arith) (omega arith)

abbrev normal_sale : OrderMessage
normal_sale = record sale { trade_policy = record sale.trade_policy { run_mode = normal_mode } }

normal_sale-IsSale : IsSale normal_sale
normal_sale-IsSale = record {
  listed = shenzhen refl refl;
  type = inl refl;
  side = refl;
  checked = refl;
}

update_after_trade-unknown_example : update_after_trade world normal_sale nothing ≡ none
update_after_trade-unknown_example =
    update_after_trade-unknown world normal_sale nothing normal_sale-IsSale refl refl

-- The row of the holding in the database.
abbrev row : Row
row = record {
  balance = 100;
  auction_purchase = 30;
  staple_purchase = 0;
  own = 20;
  available = 50;
  last_balance = 90;
}

syn-Follows_example :
    (q : Sql) × (s' : UserStockVolume) × (syn sells "A1" "600000" cache
      ≡ some (success, record (store "A1" "600000" s' cache) { statements = q ∷ [] }))
    × Follows (table sells) "A1" "600000" row held_for_sale s' q
syn-Follows_example = syn-Follows sells "A1" "600000" row cache held_for_sale found refl (record {
  balance = refl;
  auction_purchase = refl;
  staple_purchase = refl;
  own = refl;
  available = refl;
  last_balance = refl;
})

abbrev unstored : UserStockVolume
unstored = record held_for_sale { stored = false }
