-- ===== src/Prep/Examples.antt =====
-- Tests of the preparation of orders, and instances of the theorems.
use simutgw_src.Common.{
  ℕ, ◌+◌, ◌*◌, ◌≡◌, refl, none, some, List, [], ◌∷◌, Code, success, ltb, arith,
}
use simutgw_src.Volume.{FrozeVolume}
use simutgw_src.Stock.{UserStockVolume}
use simutgw_src.Prep.Kinds.{Plain, check_order_trade_type, get_trade_type-check_order_trade_type}
use simutgw_src.Trade.{OrderMessage, a_trade, b_trade, etf_crt, cancel, simul_match_all}
use simutgw_src.Trade.Sample.{order, sale, held_for_sale}
use simutgw_src.Accounts.{Cache, holding, store}
use simutgw_src.Accounts.Fills.{shenzhen}
use simutgw_src.Accounts.Sales.{sum}
use simutgw_src.Prep.{Doubles, Sources, EtfComponent, only_security, get_trade_type}
use simutgw_src.Prep.Creation.{query_all}
use simutgw_src.Prep.Dispatch.{by_quotation}
use simutgw_src.Prep.Freeze.{CanFroze}
use simutgw_src.Prep.Sales.{IsNewSale, sale_day, Sold, sale_day-Sold}
use simutgw_src.Prep.Query.{Unchanged, query_all-Unchanged}

-- Exact numbers in place of `double`: the first less the second.
abbrev exact : Doubles
exact = record {
  Double = ℕ × ℕ;
  times = λ n x. (n * x.0, n * x.1);
  minus = λ x n. (x.0, x.1 + n);
  is_negative = λ x. ltb x.0 x.1;
  with_premium = λ n x. n + n * x.0;
}

abbrev sources : Sources (ℕ × ℕ)
sources = record {
  world = record { time = 1001; rows = λ account stock. none };
  quotes = λ stock circle. none;
  static_quot = λ stock. none;
  etf_query = λ stock. none;
}

abbrev new_sale : OrderMessage
new_sale = record sale { trade_policy = record sale.trade_policy { match_mode = simul_match_all } }

abbrev counter : ℕ → FrozeVolume
counter n = record { latest_syn_volume = n; un_froze_volume = n; forze_volume = 0 }

-- Nothing is frozen yet.
abbrev held : UserStockVolume
held = record held_for_sale {
  stk_balance = counter 100;
  stk_etf_rdp_balance = counter 20;
  stk_avl_balance = counter 50;
}

abbrev cache : Cache
cache = store "A1" "600000" held (record { user_stock = []; statements = [] })

-- The kinds of three orders.
kind_of_sale : (get_trade_type sale).0 ≡ a_trade
unfolding get_trade_type
kind_of_sale = refl

kind_of_creation : (get_trade_type (record order { side = "D"; stock_id = "159901" })).0 ≡ etf_crt
unfolding get_trade_type
kind_of_creation = refl

kind_of_cancellation : (get_trade_type (record sale { msg_type = "F" })).0 ≡ cancel
unfolding get_trade_type
kind_of_cancellation = refl

held-CanFroze : CanFroze held 60
held-CanFroze = ground arith

new_sale-IsNewSale : IsNewSale exact sources new_sale
unfolding get_trade_type by_quotation
new_sale-IsNewSale = record {
  kind = refl;
  quotation = refl;
  checked = refl;
  side = refl;
  listed = shenzhen refl refl;
}

sale_day-Sold_example :
    (c' : Cache) × (s' : UserStockVolume) × (sale_day exact sources (10 ∷ 30 ∷ []) new_sale cache
      ≡ some (success, c'))
    × (holding "A1" "600000" c' ≡ some s')
    × Sold held (sum (10 ∷ 30 ∷ [])) s'
sale_day-Sold_example =
    sale_day-Sold exact sources (10 ∷ 30 ∷ []) new_sale cache held new_sale-IsNewSale refl
      held-CanFroze (omega arith)

abbrev components : List (EtfComponent (ℕ × ℕ))
components =
    record {
      component = record {
        underlying_security_id = "600000";
        component_share = 30;
        redemption_cash_substitute = 0;
      };
      substitute_flag = only_security;
      premium_ratio = (0, 0);
      creation_cash_substitute = 0;
    }
    ∷ []

query_all-Unchanged_example :
    (code : Code) × (c' : Cache) × (query_all exact sources "A1" 2 components (0, 0) cache
      ≡ some (code, c'))
    × Unchanged sources.world cache c'
query_all-Unchanged_example = query_all-Unchanged exact sources "A1" 2 components (0, 0) cache

-- A sale of B shares.
abbrev b_sale : OrderMessage
b_sale = record sale { stock_id = "200002" }

kind_of_b_sale : (check_order_trade_type "" b_sale).1.trade_type ≡ b_trade
unfolding check_order_trade_type
kind_of_b_sale = refl

b_sale-accepted : (check_order_trade_type "" b_sale).0 ≡ success
unfolding check_order_trade_type
b_sale-accepted = refl

get_trade_type-check_order_trade_type_example :
    Plain (get_trade_type (check_order_trade_type "" b_sale).1).1.trade_type
get_trade_type-check_order_trade_type_example =
    get_trade_type-check_order_trade_type "" b_sale b_sale-accepted
