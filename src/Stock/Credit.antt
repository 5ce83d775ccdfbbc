-- ===== src/Stock/Credit.antt =====
-- The balance as the sum of its sources, over any sequence of calls.
use simutgw_src.Common.{
  ◌-◌, failure, ℕ, ◌+◌, ◌≤◌, ◌<◌, ◌≡◌, inl, inr, sym, ◌∙◌, add64, le-or-lt, Code-cases,
  success≢failure, List, [], ◌∷◌, success, arith, u64_mod,
}
use simutgw_src.Volume.{FrozeVolume, add}
use simutgw_src.Volume.Account.{
  total, total-froze, total-defroze, total-confirm, defroze-success, confirm-success,
}
use simutgw_src.Stock.{visit, UserStockVolume, is_expired}
use simutgw_src.Stock.Sell.{sell_defroze, sell_confirm}
use simutgw_src.Stock.SellEtf.{sell_etf_defroze, sell_etf_confirm}
use simutgw_src.Stock.Creation.{creation_froze, creation_defroze, creation_confirm}
use simutgw_src.Stock.Redemption.{redemption_froze, redemption_defroze, redemption_confirm}
use simutgw_src.Stock.Increase.{add_act, add_crt, add_rdp}
use simutgw_src.Stock.Uses.{
  Use, sell, sell_etf, creation, redemption, froze_for, defroze_for, confirm_for, first_source,
}
use simutgw_src.Stock.Outcomes.{shared, covered, froze_for-shared, froze_for-covered}
use simutgw_src.Stock.Rollback.{froze-rollback}
use simutgw_src.Stock.Parts.{AllFit, IsBalanced}

-- A call of one of the methods that change the holding, at a time.
pub data Event : Type 0 where
  freezes : Use → ℕ → ℕ → Event
  releases confirms : Use → ℕ → ℕ → ℕ → Event
  buys creates redeems : ℕ → ℕ → Event

unfoldable pub step : UserStockVolume → Event → UserStockVolume
step s (freezes u now n) = (froze_for u now n s).3
step s (releases u now a b) = (defroze_for u now a b s).1
step s (confirms u now a b) = (confirm_for u now a b s).1
step s (buys now n) = add_act now n s
step s (creates now n) = add_crt now n s
step s (redeems now n) = add_rdp now n s

unfoldable pub run : UserStockVolume → List Event → UserStockVolume
unfolding step
run s [] = s
run s (e ∷ es) = run (step s e) es

-- `n` fits a counter after what it holds.
abbrev pub Room : FrozeVolume → ℕ → Type 0
Room v n = total v + n < u64_mod

-- What the callers have to see to. A freeze asks for less than 2^64, and is granted if it is for a
-- creation or a redemption. A release or a confirmation names no more than is frozen, in its two
-- sources and in the balance. What is added fits.
abbrev pub Allowed : UserStockVolume → Event → Type 0
Allowed s (freezes sell now n) = n < u64_mod
Allowed s (freezes sell_etf now n) = n < u64_mod
Allowed s (freezes creation now n) = (n < u64_mod) × ((creation_froze now n s).0 ≡ success)
Allowed s (freezes redemption now n) = (n < u64_mod) × ((redemption_froze now n s).0 ≡ success)
Allowed s (releases u now a b) =
    (a ≤ (first_source u s).forze_volume)
    × (b ≤ s.stk_avl_balance.forze_volume)
    × (a + b ≤ s.stk_balance.forze_volume)
Allowed s (confirms u now a b) =
    (a ≤ (first_source u s).forze_volume)
    × (b ≤ s.stk_avl_balance.forze_volume)
    × (a + b ≤ s.stk_balance.forze_volume)
Allowed s (buys now n) = Room s.stk_act_pch_balance n × Room s.stk_balance n
Allowed s (creates now n) = Room s.stk_crt_balance n × Room s.stk_balance n
Allowed s (redeems now n) = Room s.stk_etf_rdp_balance n × Room s.stk_balance n

abbrev pub AllAllowed : UserStockVolume → List Event → Type 0
AllAllowed s [] = Unit {0}
AllAllowed s (e ∷ es) = Allowed s e × AllAllowed (step s e) es

-- Both parts of the invariant.
abbrev pub Kept : UserStockVolume → Type 0
Kept s = AllFit s × IsBalanced s

visit-Kept : (now : ℕ) (s : UserStockVolume) → Kept s → Kept (visit now s)
unfolding is_expired
visit-Kept now s k = (ground arith, ground arith)

covered-Kept : (u : Use) (now n : ℕ) (s : UserStockVolume) → Kept s → Kept (covered u now n s)
unfolding is_expired
covered-Kept sell now n s k = (
  ground (arith, total-froze s.stk_etf_rdp_balance n k.0.rdp),
  ground (arith, total-froze s.stk_etf_rdp_balance n k.0.rdp),
)
covered-Kept sell_etf now n s k = (
  ground (arith, total-froze s.stk_crt_balance n k.0.crt),
  ground (arith, total-froze s.stk_crt_balance n k.0.crt),
)
covered-Kept creation now n s k = (
  ground (arith, total-froze s.stk_act_pch_balance n k.0.act),
  ground (arith, total-froze s.stk_act_pch_balance n k.0.act),
)
covered-Kept redemption now n s k = (
  ground (arith, total-froze s.stk_act_pch_balance n k.0.act),
  ground (arith, total-froze s.stk_act_pch_balance n k.0.act),
)

shared-Kept : (u : Use) (now n : ℕ) (s : UserStockVolume) → Kept s → Kept (shared u now n s)
unfolding is_expired
shared-Kept sell now n s k =
    let first = total-froze s.stk_etf_rdp_balance n k.0.rdp in
    let second =
      total-froze s.stk_avl_balance (n - s.stk_etf_rdp_balance.un_froze_volume) k.0.avl in
    let whole = total-froze s.stk_balance n k.0.stk in (ground arith, ground arith)
shared-Kept sell_etf now n s k =
    let first = total-froze s.stk_crt_balance n k.0.crt in
    let second = total-froze s.stk_avl_balance (n - s.stk_crt_balance.un_froze_volume) k.0.avl in
    let whole = total-froze s.stk_balance n k.0.stk in (ground arith, ground arith)
shared-Kept creation now n s k =
    let first = total-froze s.stk_act_pch_balance n k.0.act in
    let second =
      total-froze s.stk_avl_balance (n - s.stk_act_pch_balance.un_froze_volume) k.0.avl in
    let whole = total-froze s.stk_balance n k.0.stk in (ground arith, ground arith)
shared-Kept redemption now n s k =
    let first = total-froze s.stk_act_pch_balance n k.0.act in
    let second =
      total-froze s.stk_avl_balance (n - s.stk_act_pch_balance.un_froze_volume) k.0.avl in
    let whole = total-froze s.stk_balance n k.0.stk in (ground arith, ground arith)

Allowed-lt : (u : Use) (now n : ℕ) (s : UserStockVolume) → Allowed s (freezes u now n) → n < u64_mod
Allowed-lt sell now n s a = a
Allowed-lt sell_etf now n s a = a
Allowed-lt creation now n s a = a.0
Allowed-lt redemption now n s a = a.0

refused-Kept :
    (u : Use) (now n : ℕ) (s : UserStockVolume)
    → Kept s
    → Allowed s (freezes u now n)
    → (froze_for u now n s).0 ≡ failure
    → Kept (froze_for u now n s).3
refused-Kept sell now n s k a e = rw (froze-rollback sell now n s tt k.0 a e) (visit-Kept now s k)
refused-Kept sell_etf now n s k a e =
    rw (froze-rollback sell_etf now n s tt k.0 a e) (visit-Kept now s k)
refused-Kept creation now n s k a e = absurd (success≢failure (sym a.1 ∙ e))
refused-Kept redemption now n s k a e = absurd (success≢failure (sym a.1 ∙ e))

froze-Kept :
    (u : Use) (now n : ℕ) (s : UserStockVolume)
    → Kept s
    → Allowed s (freezes u now n)
    → Kept (froze_for u now n s).3
froze-Kept u now n s k a = elim (le-or-lt n (first_source u s).un_froze_volume) [
  | inl h ↦ rw (froze_for-covered u now n s h) (covered-Kept u now n s k)
  | inr h ↦ elim (Code-cases (froze_for u now n s).0) [
    | inl e ↦
        rw ((froze_for-shared u now n s k.0 (Allowed-lt u now n s a) h e).0)
          (shared-Kept u now n s k)
    | inr e ↦ refused-Kept u now n s k a e
  ]
]

defroze-Kept :
    (u : Use) (now m n : ℕ) (s : UserStockVolume)
    → Kept s
    → Allowed s (releases u now m n)
    → Kept (defroze_for u now m n s).1
unfolding sell_defroze sell_etf_defroze creation_defroze redemption_defroze is_expired
defroze-Kept sell now m n s k a =
    let first = total-defroze s.stk_etf_rdp_balance m k.0.rdp a.0 in
    let second = total-defroze s.stk_avl_balance n k.0.avl a.1 in
    let whole = total-defroze s.stk_balance (add64 m n) k.0.stk (ground arith) in
    let ok1 = defroze-success s.stk_etf_rdp_balance m in
    let ok2 = defroze-success s.stk_avl_balance n in
    let ok3 = defroze-success s.stk_balance (add64 m n) in (ground arith, ground arith)
defroze-Kept sell_etf now m n s k a =
    let first = total-defroze s.stk_crt_balance m k.0.crt a.0 in
    let second = total-defroze s.stk_avl_balance n k.0.avl a.1 in
    let whole = total-defroze s.stk_balance (add64 m n) k.0.stk (ground arith) in
    let ok1 = defroze-success s.stk_crt_balance m in
    let ok2 = defroze-success s.stk_avl_balance n in
    let ok3 = defroze-success s.stk_balance (add64 m n) in (ground arith, ground arith)
defroze-Kept creation now m n s k a =
    let first = total-defroze s.stk_act_pch_balance m k.0.act a.0 in
    let second = total-defroze s.stk_avl_balance n k.0.avl a.1 in
    let whole = total-defroze s.stk_balance (add64 m n) k.0.stk (ground arith) in
    let ok1 = defroze-success s.stk_act_pch_balance m in
    let ok2 = defroze-success s.stk_avl_balance n in
    let ok3 = defroze-success s.stk_balance (add64 m n) in (ground arith, ground arith)
defroze-Kept redemption now m n s k a =
    let first = total-defroze s.stk_act_pch_balance m k.0.act a.0 in
    let second = total-defroze s.stk_avl_balance n k.0.avl a.1 in
    let whole = total-defroze s.stk_balance (add64 m n) k.0.stk (ground arith) in
    let ok1 = defroze-success s.stk_act_pch_balance m in
    let ok2 = defroze-success s.stk_avl_balance n in
    let ok3 = defroze-success s.stk_balance (add64 m n) in (ground arith, ground arith)

confirm-Kept :
    (u : Use) (now m n : ℕ) (s : UserStockVolume)
    → Kept s
    → Allowed s (confirms u now m n)
    → Kept (confirm_for u now m n s).1
unfolding sell_confirm sell_etf_confirm creation_confirm redemption_confirm is_expired
confirm-Kept sell now m n s k a =
    let first = total-confirm s.stk_etf_rdp_balance m k.0.rdp a.0 in
    let second = total-confirm s.stk_avl_balance n k.0.avl a.1 in
    let whole = total-confirm s.stk_balance (add64 m n) k.0.stk (ground arith) in
    let ok1 = confirm-success s.stk_etf_rdp_balance m a.0 in
    let ok2 = confirm-success s.stk_avl_balance n a.1 in
    let ok3 = confirm-success s.stk_balance (add64 m n) (ground arith) in
    (ground arith, ground arith)
confirm-Kept sell_etf now m n s k a =
    let first = total-confirm s.stk_crt_balance m k.0.crt a.0 in
    let second = total-confirm s.stk_avl_balance n k.0.avl a.1 in
    let whole = total-confirm s.stk_balance (add64 m n) k.0.stk (ground arith) in
    let ok1 = confirm-success s.stk_crt_balance m a.0 in
    let ok2 = confirm-success s.stk_avl_balance n a.1 in
    let ok3 = confirm-success s.stk_balance (add64 m n) (ground arith) in
    (ground arith, ground arith)
confirm-Kept creation now m n s k a =
    let first = total-confirm s.stk_act_pch_balance m k.0.act a.0 in
    let second = total-confirm s.stk_avl_balance n k.0.avl a.1 in
    let whole = total-confirm s.stk_balance (add64 m n) k.0.stk (ground arith) in
    let ok1 = confirm-success s.stk_act_pch_balance m a.0 in
    let ok2 = confirm-success s.stk_avl_balance n a.1 in
    let ok3 = confirm-success s.stk_balance (add64 m n) (ground arith) in
    (ground arith, ground arith)
confirm-Kept redemption now m n s k a =
    let first = total-confirm s.stk_act_pch_balance m k.0.act a.0 in
    let second = total-confirm s.stk_avl_balance n k.0.avl a.1 in
    let whole = total-confirm s.stk_balance (add64 m n) k.0.stk (ground arith) in
    let ok1 = confirm-success s.stk_act_pch_balance m a.0 in
    let ok2 = confirm-success s.stk_avl_balance n a.1 in
    let ok3 = confirm-success s.stk_balance (add64 m n) (ground arith) in
    (ground arith, ground arith)

step-Kept : (e : Event) (s : UserStockVolume) → Kept s → Allowed s e → Kept (step s e)
unfolding step add_act add_crt add_rdp is_expired add
step-Kept (freezes u now n) s k a = froze-Kept u now n s k a
step-Kept (releases u now m n) s k a = defroze-Kept u now m n s k a
step-Kept (confirms u now m n) s k a = confirm-Kept u now m n s k a
step-Kept (buys now n) s k a = (ground arith, ground arith)
step-Kept (creates now n) s k a = (ground arith, ground arith)
step-Kept (redeems now n) s k a = (ground arith, ground arith)

-- A holding whose balance is the sum of its five sources, with counters that fit 64 bits, stays so
-- over any sequence of freezes, releases, confirmations and additions in which the callers keep
-- to what is frozen, additions fit, and no creation or redemption is refused.
pub run-IsBalanced :
    (s : UserStockVolume) (es : List Event) → Kept s → AllAllowed s es → Kept (run s es)
unfolding run
run-IsBalanced s [] k a = k
run-IsBalanced s (e ∷ es) k a = run-IsBalanced (step s e) es (step-Kept e s k a.0) a.1
