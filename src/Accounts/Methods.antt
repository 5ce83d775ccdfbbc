-- ===== src/Accounts/Methods.antt =====
-- The methods of `UserStockHelper` that find a holding and call its method.
use simutgw_src.Common.{
  ℕ, String, Option, none, some, Code, success, failure, is_ok, false, if◌then◌else◌,
}
use simutgw_src.Stock.{UserStockVolume, load}
use simutgw_src.Stock.Sell.{sell_froze, sell_defroze, sell_confirm}
use simutgw_src.Stock.SellEtf.{sell_etf_froze, sell_etf_defroze, sell_etf_confirm}
use simutgw_src.Stock.Creation.{creation_froze, creation_defroze, creation_confirm}
use simutgw_src.Stock.Redemption.{redemption_froze, redemption_defroze, redemption_confirm}
use simutgw_src.Stock.Increase.{add_act, add_crt, add_rdp}
use simutgw_src.Trade.{Cps}
use simutgw_src.Accounts.{Cache, Op, World, holding, store, at_stock, look_up}

-- `LookUp`, and then a method, if there is a holding.
abbrev pub looked_up : World → String → String → (UserStockVolume → Code × UserStockVolume) → Op
looked_up w account stock f c =
    let (code, c') = look_up w account stock c in
    if is_ok code then at_stock account stock f c' else some (failure, c')

-- The same for a method that freezes. The amounts that it gives replace those of the caller, which stay
-- where no holding is found.
abbrev pub frozen :
    World
    → String
    → String
    → (UserStockVolume → Code × ℕ × ℕ × UserStockVolume)
    → Cps
    → Cache
    → Option (Code × Cps × Cache)
frozen w account stock f old c =
    let (code, c') = look_up w account stock c in
    if is_ok code
    then elim (holding account stock c') [
      | none ↦ none
      | some s ↦
          let (code2, a, b, s') = f s in
          some (code2, record { first = a; avl = b }, store account stock s' c')
    ]
    else some (failure, old, c')

-- The types of the methods.
abbrev pub Froze : Type 0
Froze = World → String → String → ℕ → Cps → Cache → Option (Code × Cps × Cache)

abbrev pub Settle : Type 0
Settle = World → String → String → Cps → Op

unfoldable pub account_sell_froze : Froze
account_sell_froze w a k n = frozen w a k (sell_froze w.time n)

unfoldable pub account_sell_defroze : Settle
account_sell_defroze w a k p = looked_up w a k (sell_defroze w.time p.first p.avl)

unfoldable pub account_sell_confirm : Settle
account_sell_confirm w a k p = looked_up w a k (sell_confirm w.time p.first p.avl)

unfoldable pub account_sell_etf_froze : Froze
account_sell_etf_froze w a k n = frozen w a k (sell_etf_froze w.time n)

unfoldable pub account_sell_etf_defroze : Settle
account_sell_etf_defroze w a k p = looked_up w a k (sell_etf_defroze w.time p.first p.avl)

unfoldable pub account_sell_etf_confirm : Settle
account_sell_etf_confirm w a k p = looked_up w a k (sell_etf_confirm w.time p.first p.avl)

unfoldable pub account_creation_froze : Froze
account_creation_froze w a k n = frozen w a k (creation_froze w.time n)

unfoldable pub account_creation_defroze : Settle
account_creation_defroze w a k p = looked_up w a k (creation_defroze w.time p.first p.avl)

unfoldable pub account_creation_confirm : Settle
account_creation_confirm w a k p = looked_up w a k (creation_confirm w.time p.first p.avl)

unfoldable pub account_redemption_froze : Froze
account_redemption_froze w a k n = frozen w a k (redemption_froze w.time n)

unfoldable pub account_redemption_defroze : Settle
account_redemption_defroze w a k p = looked_up w a k (redemption_defroze w.time p.first p.avl)

unfoldable pub account_redemption_confirm : Settle
account_redemption_confirm w a k p = looked_up w a k (redemption_confirm w.time p.first p.avl)

-- A holding of nothing, of which the database has no row.
abbrev pub nothing_held : ℕ → UserStockVolume
nothing_held time = load time false 0 0 0 0 0 0 0 600

-- `LookUp`, the insertion of a new holding where there is none, and then a method.
abbrev pub added : World → String → String → (UserStockVolume → UserStockVolume) → Op
added w account stock f c =
    let (code, c1) = look_up w account stock c in
    let c2 = if is_ok code then c1 else store account stock (nothing_held w.time) c1 in
    at_stock account stock (λ s. (success, f s)) c2

unfoldable pub account_add_act : World → String → String → ℕ → Op
account_add_act w a k n = added w a k (add_act w.time n)

unfoldable pub account_add_crt : World → String → String → ℕ → Op
account_add_crt w a k n = added w a k (add_crt w.time n)

unfoldable pub account_add_rdp : World → String → String → ℕ → Op
account_add_rdp w a k n = added w a k (add_rdp w.time n)
