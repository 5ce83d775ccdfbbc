-- ===== src/Accounts/Rows.antt =====
-- Rows of the database, what a statement means for one, and when a row agrees with a holding.
use simutgw_src.Common.{ℕ, String, ◌≡◌, Option, none, some, List, [], ◌∷◌, add64}
use simutgw_src.Volume.{FrozeVolume}
use simutgw_src.Stock.{UserStockVolume}
use simutgw_src.Accounts.{
  Table, stock_asset, stock_etf_asset, Column, stock_balance, stock_auction_purchase_balance,
  stock_staple_purchase_balance, stock_etf_redemption_balance, stock_creation_balance,
  stock_available, stock_last_balance, Sql, update, Op,
}
use simutgw_src.Accounts.Synchronise.{
  cache_sell_syn, cache_sell_etf_syn, cache_add_syn, cache_crt_etf_syn, cache_crt_component_syn,
  cache_rdp_etf_syn, cache_rdp_component_syn,
}

-- A row of either table. `own` is the column by which the tables differ: the shares redeemed, or the units
-- created.
pub record Row : Type 0 where
  pub balance : ℕ
  pub auction_purchase : ℕ
  pub staple_purchase : ℕ
  pub own : ℕ
  pub available : ℕ
  pub last_balance : ℕ

-- A column of numbers, if the table has it.
abbrev pub get : Table → Column → Row → Option ℕ
get t stock_balance r = some r.balance
get t stock_auction_purchase_balance r = some r.auction_purchase
get t stock_staple_purchase_balance r = some r.staple_purchase
get stock_asset stock_etf_redemption_balance r = some r.own
get stock_etf_asset stock_creation_balance r = some r.own
get t stock_available r = some r.available
get t stock_last_balance r = some r.last_balance
get t _ r = none

abbrev pub set : Column → ℕ → Row → Row
set stock_balance n r = record r { balance = n }
set stock_auction_purchase_balance n r = record r { auction_purchase = n }
set stock_staple_purchase_balance n r = record r { staple_purchase = n }
set stock_etf_redemption_balance n r = record r { own = n }
set stock_creation_balance n r = record r { own = n }
set stock_available n r = record r { available = n }
set stock_last_balance n r = record r { last_balance = n }
set _ n r = r

-- The condition of an update holds of a row, and what it sets there.
abbrev pub Meets : Table → List (Column × ℕ) → Row → Type 0
Meets t [] r = Unit {0}
Meets t ((c, n) ∷ cs) r = (get t c r ≡ some n) × Meets t cs r

abbrev pub setting : List (Column × ℕ) → Row → Row
setting [] r = r
setting ((c, n) ∷ cs) r = setting cs (set c n r)

abbrev pub own_of : Table → UserStockVolume → FrozeVolume
own_of stock_asset s = s.stk_etf_rdp_balance
own_of stock_etf_asset s = s.stk_crt_balance

-- The row of a holding has what the counters hold as synchronised.
pub record Agrees (t : Table) (r : Row) (s : UserStockVolume) : Type 0 where
  pub balance : r.balance ≡ s.stk_balance.latest_syn_volume
  pub auction_purchase : r.auction_purchase ≡ s.stk_act_pch_balance.latest_syn_volume
  pub staple_purchase : r.staple_purchase ≡ s.stk_stp_pch_balance.latest_syn_volume
  pub own : r.own ≡ (own_of t s).latest_syn_volume
  pub available : r.available ≡ s.stk_avl_balance.latest_syn_volume
  pub last_balance : r.last_balance ≡ s.stk_last_balance.latest_syn_volume

-- All that a counter holds, as the program adds it up.
abbrev pub held : FrozeVolume → ℕ
held v = add64 v.forze_volume v.un_froze_volume

-- The synchronisations, but for the one after a purchase of ETF units.
pub data Syn : Type 0 where
  sells sells_etf adds creates_etf takes_component redeems_etf gives_component : Syn

abbrev pub syn : Syn → String → String → Op
syn sells = cache_sell_syn
syn sells_etf = cache_sell_etf_syn
syn adds = cache_add_syn
syn creates_etf = cache_crt_etf_syn
syn takes_component = cache_crt_component_syn
syn redeems_etf = cache_rdp_etf_syn
syn gives_component = cache_rdp_component_syn

abbrev pub table : Syn → Table
table sells = stock_asset
table sells_etf = stock_etf_asset
table adds = stock_asset
table creates_etf = stock_etf_asset
table takes_component = stock_asset
table redeems_etf = stock_etf_asset
table gives_component = stock_asset

-- A statement that finds the row, and leaves it agreeing with the holding, with the balance all that is held.
pub record Follows (t : Table) (a k : String) (r : Row) (s s' : UserStockVolume) (q : Sql)
    : Type 0 where
  pub sets : List (Column × ℕ)
  pub conditions : List (Column × ℕ)
  pub statement : q ≡ update t sets a k conditions
  pub found : Meets t conditions r
  pub agrees : Agrees t (setting sets r) s'
  pub balance : (setting sets r).balance ≡ held s.stk_balance
  pub last : (setting sets r).last_balance ≡ r.balance
