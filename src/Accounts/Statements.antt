-- ===== src/Accounts/Statements.antt =====
-- The statements that `StockCacheSynHelper` (shared_src/simutgw/db_oper/) makes: an update, or an insertion
-- where the database has no row yet.
use simutgw_src.Common.{ℕ, String, List, [], ◌∷◌, str_eq, if◌then◌else◌}
use simutgw_src.Accounts.{
  Table, Column, account_id, stock_id, trade_market, stock_balance, stock_auction_purchase_balance,
  stock_staple_purchase_balance, stock_available, stock_last_balance, is_close, oper_time, operator,
  Value, number, text, now, Sql, update,
}
use simutgw_src.Accounts.Securities.{get_stock_trade_market}

-- The balance, one source and the available shares, and the last balance.
abbrev pub update_three : Table → Column → String → String → ℕ × ℕ × ℕ × ℕ × ℕ × ℕ × ℕ → Sql
update_three t source account stock (stk, stk', src, src', avl, avl', last) =
    update t
      ((stock_balance, stk')
        ∷ (source, src')
        ∷ (stock_available, avl')
        ∷ (stock_last_balance, stk)
        ∷ [])
      account stock
      ((stock_balance, stk)
        ∷ (source, src)
        ∷ (stock_available, avl)
        ∷ (stock_last_balance, last)
        ∷ [])

-- The balance, one source and the last balance: what is set, and the condition.
abbrev pub sets_two : Column → ℕ × ℕ × ℕ × ℕ × ℕ → List (Column × ℕ)
sets_two source (stk, stk', src, src', last) =
    (stock_balance, stk') ∷ (source, src') ∷ (stock_last_balance, stk) ∷ []

abbrev pub conditions_two : Column → ℕ × ℕ × ℕ × ℕ × ℕ → List (Column × ℕ)
conditions_two source (stk, stk', src, src', last) =
    (stock_balance, stk) ∷ (source, src) ∷ (stock_last_balance, last) ∷ []

abbrev pub update_two : Table → Column → String → String → ℕ × ℕ × ℕ × ℕ × ℕ → Sql
update_two t source account stock x =
    update t (sets_two source x) account stock (conditions_two source x)

-- `strTradeMarket`, or 0 where it is empty.
abbrev pub market_value : String → Value
market_value stock =
    let m = get_stock_trade_market stock in if str_eq m "" then number 0 else text m

-- The columns of the two tables differ in one.
abbrev pub columns : Column → List Column
columns source =
    account_id ∷ stock_id ∷ trade_market ∷ stock_balance ∷ stock_auction_purchase_balance
    ∷ stock_staple_purchase_balance ∷ source ∷ stock_available ∷ stock_last_balance ∷ is_close
    ∷ oper_time ∷ operator ∷ []

abbrev pub insert_values : String → String → List Value → List Value
insert_values account stock vs = text account ∷ text stock ∷ market_value stock ∷ vs

-- The values of an insertion after a purchase.
abbrev pub purchased : ℕ → ℕ → List Value
purchased stk act =
    number stk
    ∷ number act
    ∷ number 0
    ∷ number 0
    ∷ number 0
    ∷ number 0
    ∷ number 0
    ∷ now
    ∷ text "SYS"
    ∷ []

abbrev pub created : ℕ → ℕ → List Value
created stk crt =
    number stk
    ∷ number 0
    ∷ number 0
    ∷ number crt
    ∷ number 0
    ∷ number 0
    ∷ number 0
    ∷ now
    ∷ text "SYS"
    ∷ []

-- As written: two zeros come first, and one value is more than there are columns.
abbrev pub redeemed : ℕ → ℕ → List Value
redeemed stk rdp =
    number 0
    ∷ number 0
    ∷ number stk
    ∷ number rdp
    ∷ number 0
    ∷ number 0
    ∷ number 0
    ∷ number 0
    ∷ now
    ∷ text "SYS"
    ∷ []
