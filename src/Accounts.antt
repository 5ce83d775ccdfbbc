-- ===== src/Accounts.antt =====
-- `UserStockHelper` (shared_src/cache/UserStockHelper.cpp): the holdings of all accounts,
-- `simutgw::g_mapUserStock`, which is filled from the database on demand. The map is reached through
-- `shared_ptr`s, so a change of a holding is a change of the entry. The callers hold one mutex, and a call is
-- one step. A null pointer that is dereferenced is `none`.
pub mod Securities
pub mod Statements
pub mod Synchronise
pub mod Methods
pub mod Orders
pub mod Lookup
pub mod Calls
pub mod Acts
pub mod Split
pub mod Fills
pub mod Sales
pub mod EtfSales
pub mod Message
pub mod Returns
pub mod Rows
pub mod Follows
pub mod Isolation
pub mod Apart
mod Examples
use simutgw_src.Common.{
  ℕ, String, Option, none, some, List, [], Code, success, failure, is_ok, Map, find, put, true,
  false, if◌then◌else◌,
}
use simutgw_src.Stock.{UserStockVolume, load}
use simutgw_src.Trade.{Cps}

pub data Table : Type 0 where
  stock_asset stock_etf_asset : Table

pub data Column : Type 0 where
  account_id stock_id trade_market stock_balance stock_auction_purchase_balance : Column
  stock_staple_purchase_balance stock_etf_redemption_balance stock_creation_balance : Column
  stock_available stock_last_balance is_close oper_time operator : Column

pub data Value : Type 0 where
  number : ℕ → Value
  text : String → Value
  now : Value

-- A statement for the database, by its parts: the table and, for an update, what is set, the account
-- and the security, and what else the condition asks for; for an insertion, the columns and the values.
-- `oper_time`, which each update sets to the time, is left out of an update.
pub data Sql : Type 0 where
  update : Table → List (Column × ℕ) → String → String → List (Column × ℕ) → Sql
  insert_into : Table → List Column → List Value → Sql

-- `g_mapUserStock`, and the statements handed to `g_asyncDbwriter`, the last one first.
pub record Cache : Type 0 where
  pub user_stock : Map (Map UserStockVolume)
  pub statements : List Sql

-- A call that may meet a null pointer.
abbrev pub Op : Type 0
Op = Cache → Option (Code × Cache)

-- `m >>> k`: a call, and then another, whatever the code of the first.
infixl 5 ◌>>>◌
abbrev pub ◌>>>◌ : Op → Op → Op
◌>>>◌ m k c = elim (m c) [ none ↦ none | some (_, c') ↦ k c' ]

abbrev pub succeed : Op
succeed c = some (success, c)

abbrev pub holding : String → String → Cache → Option UserStockVolume
holding account stock c = elim (find account c.user_stock) [ none ↦ none | some m ↦ find stock m ]

abbrev pub stocks_of : String → Cache → Map UserStockVolume
stocks_of account c = elim (find account c.user_stock) [ none ↦ [] | some m ↦ m ]

-- The entry of a security under an account, which is inserted first where it is missing.
abbrev pub store : String → String → UserStockVolume → Cache → Cache
store account stock s c = record c {
  user_stock = put account (put stock s (stocks_of account c)) c.user_stock;
}

-- `simutgw::g_mapUserStock[strAccount][strStockID]->...`
abbrev pub at_stock : String → String → (UserStockVolume → Code × UserStockVolume) → Op
at_stock account stock f c = elim (holding account stock c) [
  | none ↦ none
  | some s ↦ let (code, s') = f s in some (code, store account stock s' c)
]

-- What a row of the database gives.
pub record UserStockInfo : Type 0 where
  pub stk_balance : ℕ
  pub stk_act_pch_balance : ℕ
  pub stk_stp_pch_balance : ℕ
  pub stk_etf_rdp_balance : ℕ
  pub stk_crt_balance : ℕ
  pub stk_avl_balance : ℕ
  pub stk_last_balance : ℕ

-- What a call meets: the time, and what `DbUserInfoAsset::LoadUserStockFromDB` finds.
pub record World : Type 0 where
  pub time : ℕ
  pub rows : String → String → Option UserStockInfo

-- `ulinterval` is 600 unless it is given.
abbrev pub loaded : ℕ → UserStockInfo → UserStockVolume
loaded time i =
    load time true i.stk_balance i.stk_act_pch_balance i.stk_stp_pch_balance i.stk_etf_rdp_balance
      i.stk_crt_balance i.stk_avl_balance i.stk_last_balance 600

unfoldable pub load_user_stock_from_db_and_store : World → String → String → Cache → Code × Cache
load_user_stock_from_db_and_store w account stock c = elim (w.rows account stock) [
  | none ↦ (failure, c)
  | some i ↦ (success, store account stock (loaded w.time i) c)
]

unfoldable pub look_up : World → String → String → Cache → Code × Cache
unfolding load_user_stock_from_db_and_store
look_up w account stock c = elim (holding account stock c) [
  | some _ ↦ (success, c)
  | none ↦ load_user_stock_from_db_and_store w account stock c
]

unfoldable pub day_end_clean_up : Cache → Cache
day_end_clean_up c = record c { user_stock = [] }
