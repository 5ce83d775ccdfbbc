-- ===== src/Accounts/Synchronise.antt =====
-- `StockCacheSynHelper` (shared_src/simutgw/db_oper/StockCacheSynHelper.cpp): the changes of a holding since
-- the last call are noted as synchronised and handed to the writer of the database as a statement. All
-- functions return the code of `ExcUpdateSql`, which is 0.
use simutgw_src.Common.{ℕ, String, true, none, some, List, ◌∷◌, success, if◌then◌else◌}
use simutgw_src.Stock.{UserStockVolume}
use simutgw_src.Stock.Sell.{sell_db_syn}
use simutgw_src.Stock.SellEtf.{sell_etf_db_syn}
use simutgw_src.Stock.Creation.{creation_component_db_syn, creation_etf_db_syn}
use simutgw_src.Stock.Redemption.{rdp_etf_syn}
use simutgw_src.Stock.Increase.{add_act_syn, add_etf_syn, add_rdp_component_syn}
use simutgw_src.Accounts.{
  stock_asset, stock_etf_asset, Table, Column, stock_auction_purchase_balance,
  stock_etf_redemption_balance, stock_creation_balance, Value, Sql, insert_into, Cache, Op, holding,
  store,
}
use simutgw_src.Accounts.Statements.{
  update_three, update_two, columns, insert_values, purchased, created, redeemed,
}

unfoldable pub exc_update_sql : Sql → Cache → Cache
exc_update_sql q c = record c { statements = q ∷ c.statements }

-- A holding changed by a `...DBSyn` method, and the statement that it gives rise to.
abbrev pub synchronise : String → String → (UserStockVolume → Sql × UserStockVolume) → Op
unfolding exc_update_sql
synchronise account stock f c = elim (holding account stock c) [
  | none ↦ none
  | some s ↦ let (q, s') = f s in some (success, exc_update_sql q (store account stock s' c))
]

-- A `...DBSyn` method of three counters and its update.
abbrev pub three_of :
    Table
    → Column
    → (UserStockVolume → ℕ × ℕ × ℕ × ℕ × ℕ × ℕ × ℕ × UserStockVolume)
    → String
    → String
    → UserStockVolume
    → Sql × UserStockVolume
three_of t source f account stock s =
    let (stk, stk', src, src', avl, avl', last, s') = f s in
    (update_three t source account stock (stk, stk', src, src', avl, avl', last), s')

-- A `...Syn` method of two counters, with its update or, if `CheckStore` says that there is no row, its
-- insertion. `SetStore` is called at the end.
abbrev pub two_of :
    Table
    → Column
    → Column
    → (ℕ → ℕ → List Value)
    → (UserStockVolume → ℕ × ℕ × ℕ × ℕ × ℕ × UserStockVolume)
    → String
    → String
    → UserStockVolume
    → Sql × UserStockVolume
two_of t source own values f account stock s =
    let (stk, stk', src, src', last, s') = f s in
    (
      if s.stored
          then update_two t source account stock (stk, stk', src, src', last)
          else insert_into t (columns own) (insert_values account stock (values stk' src')),
      record s' { stored = true },
    )

unfoldable pub cache_sell_syn : String → String → Op
unfolding exc_update_sql sell_db_syn
cache_sell_syn a k =
    synchronise a k (three_of stock_asset stock_etf_redemption_balance sell_db_syn a k)

unfoldable pub cache_sell_etf_syn : String → String → Op
unfolding exc_update_sql sell_etf_db_syn
cache_sell_etf_syn a k =
    synchronise a k (three_of stock_etf_asset stock_creation_balance sell_etf_db_syn a k)

unfoldable pub cache_add_syn : String → String → Op
unfolding exc_update_sql add_act_syn
cache_add_syn a k = synchronise a k (
    two_of stock_asset stock_auction_purchase_balance stock_etf_redemption_balance purchased
      add_act_syn a k)

-- The column is that of the shares purchased, the counter that of the units created.
unfoldable pub cache_add_etf_syn : String → String → Op
unfolding exc_update_sql add_etf_syn
cache_add_etf_syn a k = synchronise a k (
    two_of stock_etf_asset stock_auction_purchase_balance stock_creation_balance purchased
      add_etf_syn a k)

unfoldable pub cache_crt_etf_syn : String → String → Op
unfolding exc_update_sql creation_etf_db_syn
cache_crt_etf_syn a k = synchronise a k (
    two_of stock_etf_asset stock_creation_balance stock_creation_balance created creation_etf_db_syn
      a k)

unfoldable pub cache_crt_component_syn : String → String → Op
unfolding exc_update_sql creation_component_db_syn
cache_crt_component_syn a k =
    synchronise a k
      (three_of stock_asset stock_auction_purchase_balance creation_component_db_syn a k)

unfoldable pub cache_rdp_etf_syn : String → String → Op
unfolding exc_update_sql rdp_etf_syn
cache_rdp_etf_syn a k =
    synchronise a k (three_of stock_etf_asset stock_auction_purchase_balance rdp_etf_syn a k)

unfoldable pub cache_rdp_component_syn : String → String → Op
unfolding exc_update_sql add_rdp_component_syn
cache_rdp_component_syn a k = synchronise a k (
    two_of stock_asset stock_etf_redemption_balance stock_etf_redemption_balance redeemed
      add_rdp_component_syn a k)
