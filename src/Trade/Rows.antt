-- ===== src/Trade/Rows.antt =====
-- The table of declarations in the comments of `GetOrder_DEL_TYPE`
-- (shared_src/simutgw/biz/AppId_010_OrderValide.cpp).
use simutgw_src.Common.{
  String, true, false, ◌≡◌, ◌≢◌, ◌⊎◌, inl, inr, refl, sym, ◌∙◌, str_eq, eq_iff, arith, Bool-cases,
}
use simutgw_src.Trade.{
  DeclarationType, ordinary_limit, the_side_optimal, the_oppsite_side_optimal_and_remainder_hold,
  match_at_market_and_remainder_cancel, all_match_at_market_or_cancel,
  match_in_five_and_remainder_cancel, match_in_five_and_remainder_hold, OrderMessage,
}
use simutgw_src.Trade.Declare.{Terms}

-- The texts of an order, as the columns of the table have them.
abbrev pub SzTerms : Terms → OrderMessage → String → String → String → Type 0
SzTerms t o type tif levels =
    (o.trade_market ≡ "102")
    × (o.ord_type ≡ type)
    × (t.time_in_force ≡ tif)
    × (t.max_price_levels ≡ levels)

abbrev pub ShTerms : OrderMessage → String → Type 0
ShTerms o type = (o.trade_market ≡ "101") × (o.ord_type ≡ type)

-- The rows of the table that have a branch, by the kind of declaration.
pub data Declares (t : Terms) (o : OrderMessage) : DeclarationType → Type 0 where
  sz_limit : SzTerms t o "2" "0" "0" → t.min_qty ≡ 0 → Declares t o ordinary_limit
  sz_side : SzTerms t o "U" "0" "0" → t.min_qty ≡ 0 → Declares t o the_side_optimal
  sz_opposite :
      SzTerms t o "1" "0" "1"
      → t.min_qty ≡ 0
      → Declares t o the_oppsite_side_optimal_and_remainder_hold
  sz_cancel :
      SzTerms t o "1" "3" "0" → t.min_qty ≡ 0 → Declares t o match_at_market_and_remainder_cancel
  sz_all :
      SzTerms t o "1" "3" "0"
      → t.min_qty ≡ o.order_qty_origin
      → Declares t o all_match_at_market_or_cancel
  sz_five :
      SzTerms t o "1" "3" "5" → t.min_qty ≡ 0 → Declares t o match_in_five_and_remainder_cancel
  sh_limit : ShTerms o "LPT" → Declares t o ordinary_limit
  sh_margin_cash : ShTerms o "LRZ" → Declares t o ordinary_limit
  sh_margin_stock : ShTerms o "LRQ" → Declares t o ordinary_limit
  sh_five_cancel : ShTerms o "MPT" → Declares t o match_in_five_and_remainder_cancel
  sh_five_hold : ShTerms o "NPT" → Declares t o match_in_five_and_remainder_hold

-- The row of the table whose branch is commented out: a limit order that is filled in full or cancelled.
abbrev pub LimitAllOrCancel : Terms → OrderMessage → Type 0
LimitAllOrCancel t o = SzTerms t o "2" "3" "0" × (t.min_qty ≡ o.order_qty_origin)

-- A text is one at most.
text_apart : (a b s : String) → str_eq a b ≡ false → s ≡ a → s ≢ b
text_apart a b s h e f =
    let g : str_eq a b ≡ true = (eq_iff a b).1 (sym e ∙ f) in let x : true ≡ false = sym g ∙ h in cc

pub Declares-LimitAllOrCancel :
    (t : Terms) (o : OrderMessage) (k : DeclarationType) → Declares t o k → ¬ LimitAllOrCancel t o
Declares-LimitAllOrCancel t o _ (sz_limit (_, _, f, _) _) ((_, _, f', _), _) =
    text_apart "0" "3" _ refl f f'
Declares-LimitAllOrCancel t o _ (sz_side (_, e, _, _) _) ((_, e', _, _), _) =
    text_apart "U" "2" _ refl e e'
Declares-LimitAllOrCancel t o _ (sz_opposite (_, e, _, _) _) ((_, e', _, _), _) =
    text_apart "1" "2" _ refl e e'
Declares-LimitAllOrCancel t o _ (sz_cancel (_, e, _, _) _) ((_, e', _, _), _) =
    text_apart "1" "2" _ refl e e'
Declares-LimitAllOrCancel t o _ (sz_all (_, e, _, _) _) ((_, e', _, _), _) =
    text_apart "1" "2" _ refl e e'
Declares-LimitAllOrCancel t o _ (sz_five (_, e, _, _) _) ((_, e', _, _), _) =
    text_apart "1" "2" _ refl e e'
Declares-LimitAllOrCancel t o _ (sh_limit (m, _)) ((m', _, _, _), _) =
    text_apart "101" "102" _ refl m m'
Declares-LimitAllOrCancel t o _ (sh_margin_cash (m, _)) ((m', _, _, _), _) =
    text_apart "101" "102" _ refl m m'
Declares-LimitAllOrCancel t o _ (sh_margin_stock (m, _)) ((m', _, _, _), _) =
    text_apart "101" "102" _ refl m m'
Declares-LimitAllOrCancel t o _ (sh_five_cancel (m, _)) ((m', _, _, _), _) =
    text_apart "101" "102" _ refl m m'
Declares-LimitAllOrCancel t o _ (sh_five_hold (m, _)) ((m', _, _, _), _) =
    text_apart "101" "102" _ refl m m'

text_or_not : (s a : String) → (s ≡ a) ⊎ (s ≢ a)
text_or_not s a = elim (Bool-cases (str_eq s a)) [
  | inl e ↦ inl ((eq_iff s a).0 e)
  | inr n ↦ inr (λ e. let x : true ≡ false = sym ((eq_iff s a).1 e) ∙ n in cc)
]

both_or_not : {A B : Type 0} → A ⊎ (¬ A) → B ⊎ (¬ B) → (A × B) ⊎ (¬ (A × B))
both_or_not (inl a) (inl b) = inl (a, b)
both_or_not (inl a) (inr n) = inr (λ (x, y). n y)
both_or_not (inr n) _ = inr (λ (x, y). n x)

pub limit_or_not : (t : Terms) (o : OrderMessage) → LimitAllOrCancel t o ⊎ (¬ LimitAllOrCancel t o)
limit_or_not t o =
    let quantity : (t.min_qty ≡ o.order_qty_origin) ⊎ (t.min_qty ≢ o.order_qty_origin) =
      grind arith in
    let texts =
      both_or_not (both_or_not (text_or_not o.trade_market "102") (text_or_not o.ord_type "2"))
        (both_or_not (text_or_not t.time_in_force "3") (text_or_not t.max_price_levels "0")) in
    elim (both_or_not texts quantity) [
      | inl (((m, e), (f, l)), q) ↦ inl ((m, e, f, l), q)
      | inr n ↦ inr (λ ((m, e, f, l), q). n (((m, e), (f, l)), q))
    ]
