-- ===== src/Accounts/Securities.antt =====
-- `StockHelper` (shared_src/order/StockHelper.cpp): what the number of a security tells.
use Prim.Native.String.{len, slice}
use simutgw_src.Common.{String, Bool, ◌||◌, not, Option, none, some, ◌==◌, str_eq, if◌then◌else◌}

-- `substr(0, 2)` and `substr(0, 3)`; a character that the cut would split is left out, which no comparison
-- with digits sees.
abbrev pub head_2 : String → String
head_2 s = slice s 0 2

abbrev pub head_3 : String → String
head_3 s = slice s 0 3

abbrev pub is_etf_head : String → Bool
is_etf_head h =
    str_eq h "15" || (str_eq h "16" || (str_eq h "18" || (str_eq h "50" || str_eq h "51")))

pub data StockType : Type 0 where
  ordinary etf : StockType

-- `none` where the code is -1.
unfoldable pub get_stock_type : String → Option StockType
get_stock_type s =
    if not (len s == 6) then none else if is_etf_head (head_2 s) then some etf else some ordinary

abbrev pub is_shenzhen : String → String → Bool
is_shenzhen head fund =
    str_eq head "000"
    || (str_eq head "001"
        || (str_eq head "002"
            || (str_eq head "300"
                || (str_eq fund "15"
                    || (str_eq fund "16" || (str_eq fund "18" || str_eq head "200"))))))

abbrev pub is_shanghai : String → String → Bool
is_shanghai head fund =
    str_eq head "600"
    || (str_eq head "601"
        || (str_eq head "603" || (str_eq fund "50" || (str_eq fund "51" || str_eq head "900"))))

unfoldable pub get_stock_trade_market : String → String
get_stock_trade_market s =
    if not (len s == 6)
    then ""
    else if is_shenzhen (head_3 s) (head_2 s)
    then "102"
    else if is_shanghai (head_3 s) (head_2 s)
    then "101"
    else ""
