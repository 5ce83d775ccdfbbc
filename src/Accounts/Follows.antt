-- ===== src/Accounts/Follows.antt =====
-- What the statements of `StockCacheSynHelper` do to the row of a holding.
use simutgw_src.Common.{
  ℕ, ◌+◌, if-true, if-false, String, ◌≡◌, ◌≢◌, refl, sym, ◌∙◌, true, false, some, some-inj, List,
  ◌∷◌, length, success, arith,
}
use simutgw_src.Volume.{FrozeVolume, db_syn, reset_syn}
use simutgw_src.Stock.{UserStockVolume}
use simutgw_src.Stock.Sell.{sell_db_syn}
use simutgw_src.Stock.SellEtf.{sell_etf_db_syn}
use simutgw_src.Stock.Creation.{creation_component_db_syn, creation_etf_db_syn}
use simutgw_src.Stock.Redemption.{rdp_etf_syn}
use simutgw_src.Stock.Increase.{add_act_syn, add_etf_syn, add_rdp_component_syn}
use simutgw_src.Accounts.{
  stock_asset, stock_etf_asset, Column, stock_auction_purchase_balance,
  stock_etf_redemption_balance, stock_creation_balance, Sql, Value, update, insert_into, Cache,
  holding, store,
}
use simutgw_src.Accounts.Statements.{
  update_two, columns, sets_two, conditions_two, insert_values, purchased, created, redeemed,
}
use simutgw_src.Accounts.Synchronise.{
  exc_update_sql, synchronise, three_of, two_of, cache_sell_syn, cache_sell_etf_syn, cache_add_syn,
  cache_add_etf_syn, cache_crt_etf_syn, cache_crt_component_syn, cache_rdp_etf_syn,
  cache_rdp_component_syn,
}
use simutgw_src.Accounts.Rows.{
  Row, Meets, Agrees, held, Syn, sells, sells_etf, adds, creates_etf, takes_component, redeems_etf,
  gives_component, syn, table, Follows,
}

-- What a synchronisation makes of a holding that has a row.
abbrev result : Syn → String → String → UserStockVolume → Sql × UserStockVolume
result sells a k = three_of stock_asset stock_etf_redemption_balance sell_db_syn a k
result sells_etf a k = three_of stock_etf_asset stock_creation_balance sell_etf_db_syn a k
result adds a k =
    two_of stock_asset stock_auction_purchase_balance stock_etf_redemption_balance purchased
      add_act_syn a k
result creates_etf a k =
    two_of stock_etf_asset stock_creation_balance stock_creation_balance created creation_etf_db_syn
      a k
result takes_component a k =
    three_of stock_asset stock_auction_purchase_balance creation_component_db_syn a k
result redeems_etf a k = three_of stock_etf_asset stock_auction_purchase_balance rdp_etf_syn a k
result gives_component a k =
    two_of stock_asset stock_etf_redemption_balance stock_etf_redemption_balance redeemed
      add_rdp_component_syn a k

syn-result : (x : Syn) (a k : String) → syn x a k ≡ synchronise a k (result x a k)
unfolding cache_sell_syn cache_sell_etf_syn cache_add_syn cache_crt_etf_syn cache_crt_component_syn
    cache_rdp_etf_syn cache_rdp_component_syn
syn-result sells a k = refl
syn-result sells_etf a k = refl
syn-result adds a k = refl
syn-result creates_etf a k = refl
syn-result takes_component a k = refl
syn-result redeems_etf a k = refl
syn-result gives_component a k = refl

-- The origins and updates that a synchronisation of one source gives.
abbrev moved : UserStockVolume → FrozeVolume → ℕ × ℕ × ℕ × ℕ × ℕ
moved s v = (
  s.stk_balance.latest_syn_volume,
  held s.stk_balance,
  v.latest_syn_volume,
  held v,
  s.stk_last_balance.latest_syn_volume,
)

result-Follows :
    (x : Syn) (a k : String) (r : Row) (s : UserStockVolume)
    → s.stored ≡ true
    → Agrees (table x) r s
    → Follows (table x) a k r s (result x a k s).1 (result x a k s).0
unfolding sell_db_syn sell_etf_db_syn add_act_syn creation_etf_db_syn creation_component_db_syn
    rdp_etf_syn add_rdp_component_syn db_syn reset_syn
result-Follows sells a k r s h g = record {
  sets = _;
  conditions = _;
  statement = refl;
  found = grind arith;
  agrees = ground arith;
  balance = refl;
  last = sym g.balance;
}
result-Follows sells_etf a k r s h g = record {
  sets = _;
  conditions = _;
  statement = refl;
  found = grind arith;
  agrees = ground arith;
  balance = refl;
  last = sym g.balance;
}
result-Follows adds a k r s h g = record {
  sets = sets_two stock_auction_purchase_balance (moved s s.stk_act_pch_balance);
  conditions = conditions_two stock_auction_purchase_balance (moved s s.stk_act_pch_balance);
  statement = rw h refl;
  found = grind arith;
  agrees = ground arith;
  balance = refl;
  last = sym g.balance;
}
result-Follows creates_etf a k r s h g = record {
  sets = sets_two stock_creation_balance (moved s s.stk_crt_balance);
  conditions = conditions_two stock_creation_balance (moved s s.stk_crt_balance);
  statement = rw h refl;
  found = grind arith;
  agrees = ground arith;
  balance = refl;
  last = sym g.balance;
}
result-Follows takes_component a k r s h g = record {
  sets = _;
  conditions = _;
  statement = refl;
  found = grind arith;
  agrees = ground arith;
  balance = refl;
  last = sym g.balance;
}
result-Follows redeems_etf a k r s h g = record {
  sets = _;
  conditions = _;
  statement = refl;
  found = grind arith;
  agrees = ground arith;
  balance = refl;
  last = sym g.balance;
}
result-Follows gives_component a k r s h g = record {
  sets = sets_two stock_etf_redemption_balance (moved s s.stk_etf_rdp_balance);
  conditions = conditions_two stock_etf_redemption_balance (moved s s.stk_etf_rdp_balance);
  statement = rw h refl;
  found = grind arith;
  agrees = ground arith;
  balance = refl;
  last = sym g.balance;
}

synchronise-some :
    (a k : String) (f : UserStockVolume → Sql × UserStockVolume) (q : Sql) (c : Cache)
    (s : UserStockVolume)
    → holding a k c ≡ some s
    → (f s).0 ≡ q
    → synchronise a k f c
      ≡ some (success, record (store a k (f s).1 c) { statements = q ∷ c.statements })
unfolding exc_update_sql
synchronise-some a k f q c s h e = rw (h, synchronise) (rw e refl)

-- A synchronisation of a holding that has a row, but for that after a purchase of ETF units, returns 0 and
-- hands the writer one statement, an update. If the row has the numbers that were synchronised last, its
-- condition holds, and the row that it makes has the new ones: all that is held in the balance, and the old
-- balance as the last one.
pub syn-Follows :
    (x : Syn) (a k : String) (r : Row) (c : Cache) (s : UserStockVolume)
    → holding a k c ≡ some s
    → s.stored ≡ true
    → Agrees (table x) r s
    → (q : Sql) × (s' : UserStockVolume) × (syn x a k c
        ≡ some (success, record (store a k s' c) { statements = q ∷ c.statements }))
      × Follows (table x) a k r s s' q
unfolding exc_update_sql
syn-Follows x a k r c s h d g = (
  (result x a k s).0,
  (result x a k s).1,
  rw (syn-result x a k) (synchronise-some a k (result x a k) (result x a k s).0 c s h refl),
  result-Follows x a k r s d g,
)

-- After a purchase of ETF units, the update looks for the units created among the shares purchased: if the two
-- differ in a row that has the numbers synchronised last, it does not find the row.
pub cache_add_etf_syn-Misses :
    (a k : String) (r : Row) (c : Cache) (s : UserStockVolume)
    → holding a k c ≡ some s
    → s.stored ≡ true
    → Agrees stock_etf_asset r s
    → s.stk_act_pch_balance.latest_syn_volume ≢ s.stk_crt_balance.latest_syn_volume
    → (sets : List (Column × ℕ)) × (conditions : List (Column × ℕ)) × (s' : UserStockVolume)
      × (cache_add_etf_syn a k c
          ≡ some (
            success,
            record (store a k s' c) {
              statements = update stock_etf_asset sets a k conditions ∷ c.statements;
            },
          ))
      × (¬ Meets stock_etf_asset conditions r)
unfolding cache_add_etf_syn add_etf_syn db_syn reset_syn exc_update_sql
cache_add_etf_syn-Misses a k r c s h d g z =
    let f =
      two_of stock_etf_asset stock_auction_purchase_balance stock_creation_balance purchased
        add_etf_syn a k in
    let x = moved s s.stk_crt_balance in
    (
      sets_two stock_auction_purchase_balance x,
      conditions_two stock_auction_purchase_balance x,
      (f s).1,
      synchronise-some a k f (update_two stock_etf_asset stock_auction_purchase_balance a k x) c s h
          (if-true s.stored _ _ d),
      λ m. z (sym g.auction_purchase ∙ some-inj m.1.0),
    )

-- The insertion for a component that was redeemed and has no row has a value more than columns.
pub cache_rdp_component_syn-lengths :
    (a k : String) (c : Cache) (s : UserStockVolume)
    → holding a k c ≡ some s
    → s.stored ≡ false
    → (names : List Column) × (values : List Value) × (s' : UserStockVolume)
      × (cache_rdp_component_syn a k c
          ≡ some (
            success,
            record (store a k s' c) {
              statements = insert_into stock_asset names values ∷ c.statements;
            },
          ))
      × (length values ≡ length names + 1)
unfolding cache_rdp_component_syn add_rdp_component_syn exc_update_sql db_syn reset_syn
cache_rdp_component_syn-lengths a k c s h d =
    let f =
      two_of stock_asset stock_etf_redemption_balance stock_etf_redemption_balance redeemed
        add_rdp_component_syn a k in
    let values = insert_values a k (redeemed (held s.stk_balance) (held s.stk_etf_rdp_balance)) in
    (
      columns stock_etf_redemption_balance,
      values,
      (f s).1,
      synchronise-some a k f (insert_into stock_asset (columns stock_etf_redemption_balance) values)
          c s h (if-false s.stored _ _ d),
      omega arith,
    )
