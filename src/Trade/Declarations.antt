-- ===== src/Trade/Declarations.antt =====
-- The kinds of declarations, by the table in the comments of `GetOrder_DEL_TYPE`.
use simutgw_src.Common.{
  String, Bool, true, false, ◌&&◌, ◌||◌, ◌≡◌, ◌≢◌, ◌⊎◌, inl, inr, refl, sym, ap, subst, ◌∙◌, Option,
  none, some, some-inj, none≢some, Code, success, failure, ◌==◌, str_eq, eq_iff, ==_iff,
  if◌then◌else◌, arith, if-true, if-false, Bool-cases,
}
use simutgw_src.Trade.{
  DeclarationType, ordinary_limit, the_side_optimal, the_oppsite_side_optimal_and_remainder_hold,
  match_at_market_and_remainder_cancel, all_match_at_market_or_cancel,
  match_in_five_and_remainder_cancel, match_in_five_and_remainder_hold, error_match, OrderMessage,
}
use simutgw_src.Trade.Rows.{
  Declares, sz_limit, sz_side, sz_opposite, sz_cancel, sz_all, sz_five, sh_limit, sh_margin_cash,
  sh_margin_stock, sh_five_cancel, sh_five_hold, LimitAllOrCancel, Declares-LimitAllOrCancel,
  limit_or_not,
}
use simutgw_src.Trade.Declare.{
  Terms, has, market_del_type, sz_del_type, sh_del_type, declared, get_order_del_type,
}

-- An order of a row that has a branch is given its kind.
Declares-returned :
    (t : Terms) (o : OrderMessage) (k : DeclarationType)
    → o.order_qty_origin ≢ 0
    → Declares t o k
    → get_order_del_type t o ≡ (success, record o { del_type = k })
unfolding get_order_del_type
Declares-returned t o _ z (sz_limit (m, e, f, l) q) = rw m (rw e (rw f (rw l (rw q refl))))
Declares-returned t o _ z (sz_side (m, e, f, l) q) = rw m (rw e (rw f (rw l (rw q refl))))
Declares-returned t o _ z (sz_opposite (m, e, f, l) q) = rw m (rw e (rw f (rw l (rw q refl))))
Declares-returned t o _ z (sz_cancel (m, e, f, l) q) = rw m (rw e (rw f (rw l (rw q refl))))
Declares-returned t o _ z (sz_five (m, e, f, l) q) = rw m (rw e (rw f (rw l (rw q refl))))
Declares-returned t o _ z (sz_all (m, e, f, l) q) =
    let y : (o.order_qty_origin == 0) ≡ false = ground arith in
    let x : (o.order_qty_origin == o.order_qty_origin) ≡ true = ground arith in
    rw m (rw e (rw f (rw l (rw q (rw y (rw x refl))))))
Declares-returned t o _ z (sh_limit (m, e)) = rw m (rw e refl)
Declares-returned t o _ z (sh_margin_cash (m, e)) = rw m (rw e refl)
Declares-returned t o _ z (sh_margin_stock (m, e)) = rw m (rw e refl)
Declares-returned t o _ z (sh_five_cancel (m, e)) = rw m (rw e refl)
Declares-returned t o _ z (sh_five_hold (m, e)) = rw m (rw e refl)

-- A test whose result is some value.
if-some {ℓ} :
    {A : Type ℓ} (b : Bool) (x y : Option A) (a : A)
    → (if b then x else y) ≡ some a
    → ((b ≡ true) × (x ≡ some a)) ⊎ ((b ≡ false) × (y ≡ some a))
if-some true x y a h = inl (refl, h)
if-some false x y a h = inr (refl, h)

if-only {ℓ} :
    {A : Type ℓ} (b : Bool) (x a : A) → (if b then some x else none) ≡ some a → (b ≡ true) × (x ≡ a)
if-only true x a h = (refl, some-inj h)
if-only false x a h = absurd (none≢some h)

and-true : (a b : Bool) → (a && b) ≡ true → (a ≡ true) × (b ≡ true)
and-true true b h = (refl, h)
and-true false b h = let t : false ≡ true = h in cc

or-true : (a b : Bool) → (a || b) ≡ true → (a ≡ true) ⊎ (b ≡ true)
or-true true b h = inl refl
or-true false b h = inr h

has-eq :
    (t : Terms) (tif levels : String) (q : Bool)
    → (has t tif levels && q) ≡ true
    → (t.time_in_force ≡ tif) × (t.max_price_levels ≡ levels) × (q ≡ true)
has-eq t tif levels q h =
    let (x, y) = and-true (has t tif levels) q h in
    let (a, b) = and-true (str_eq t.time_in_force tif) (str_eq t.max_price_levels levels) x in
    ((eq_iff t.time_in_force tif).0 a, (eq_iff t.max_price_levels levels).0 b, y)

-- Orders at the market.
market-Declares :
    (t : Terms) (o : OrderMessage) (k : DeclarationType)
    → o.trade_market ≡ "102"
    → o.ord_type ≡ "1"
    → market_del_type t o ≡ some k
    → Declares t o k
market-Declares t o k m ty h =
    let b1 = has t "0" "1" && (t.min_qty == 0) in
    let b2 = has t "3" "0" && (t.min_qty == 0) in
    let b3 = has t "3" "0" && (t.min_qty == o.order_qty_origin) in
    let b4 = has t "3" "5" && (t.min_qty == 0) in
    let r4 : Option DeclarationType =
      if b4 then some match_in_five_and_remainder_cancel else none in
    let r3 : Option DeclarationType = if b3 then some all_match_at_market_or_cancel else r4 in
    let r2 : Option DeclarationType =
      if b2 then some match_at_market_and_remainder_cancel else r3 in
    elim (if-some b1 (some the_oppsite_side_optimal_and_remainder_hold) r2 k h) [
      | inl (b, e) ↦
          let (tf, lv, q) = has-eq t "0" "1" (t.min_qty == 0) b in
          subst (Declares t o) (some-inj e) (sz_opposite (m, ty, tf, lv) ((==_iff t.min_qty 0).0 q))
      | inr (_, h1) ↦ elim (if-some b2 (some match_at_market_and_remainder_cancel) r3 k h1) [
        | inl (b, e) ↦
            let (tf, lv, q) = has-eq t "3" "0" (t.min_qty == 0) b in
            subst (Declares t o) (some-inj e) (sz_cancel (m, ty, tf, lv) ((==_iff t.min_qty 0).0 q))
        | inr (_, h2) ↦ elim (if-some b3 (some all_match_at_market_or_cancel) r4 k h2) [
          | inl (b, e) ↦
              let (tf, lv, q) = has-eq t "3" "0" (t.min_qty == o.order_qty_origin) b in
              subst (Declares t o) (some-inj e)
                (sz_all (m, ty, tf, lv) ((==_iff t.min_qty o.order_qty_origin).0 q))
          | inr (_, h3) ↦
              let (b, e) = if-only b4 match_in_five_and_remainder_cancel k h3 in
              let (tf, lv, q) = has-eq t "3" "5" (t.min_qty == 0) b in
              subst (Declares t o) e (sz_five (m, ty, tf, lv) ((==_iff t.min_qty 0).0 q))
        ]
      ]
    ]

sz_del_type-Declares :
    (t : Terms) (o : OrderMessage) (k : DeclarationType)
    → o.trade_market ≡ "102"
    → sz_del_type t o ≡ some k
    → Declares t o k
sz_del_type-Declares t o k m h =
    let b1 = str_eq o.ord_type "2" && str_eq t.max_price_levels "0" in
    let c1 = str_eq t.time_in_force "0" && (t.min_qty == 0) in
    let b2 = str_eq o.ord_type "U" in
    let c2 = has t "0" "0" && (t.min_qty == 0) in
    let b3 = str_eq o.ord_type "1" in
    let r3 : Option DeclarationType = if b3 then market_del_type t o else none in
    let x2 : Option DeclarationType = if c2 then some the_side_optimal else none in
    let r2 : Option DeclarationType = if b2 then x2 else r3 in
    let x1 : Option DeclarationType = if c1 then some ordinary_limit else none in
    elim (if-some b1 x1 r2 k h) [
      | inl (a, h1) ↦
          let (ty, lv) = and-true (str_eq o.ord_type "2") (str_eq t.max_price_levels "0") a in
          let (b, e) = if-only c1 ordinary_limit k h1 in
          let (tf, q) = and-true (str_eq t.time_in_force "0") (t.min_qty == 0) b in
          subst (Declares t o) e (
            sz_limit
              (
                m,
                (eq_iff o.ord_type "2").0 ty,
                (eq_iff t.time_in_force "0").0 tf,
                (eq_iff t.max_price_levels "0").0 lv,
              )
              ((==_iff t.min_qty 0).0 q))
      | inr (_, h1) ↦ elim (if-some b2 x2 r3 k h1) [
        | inl (ty, h2) ↦
            let (b, e) = if-only c2 the_side_optimal k h2 in
            let (tf, lv, q) = has-eq t "0" "0" (t.min_qty == 0) b in
            subst (Declares t o) e
              (sz_side (m, (eq_iff o.ord_type "U").0 ty, tf, lv) ((==_iff t.min_qty 0).0 q))
        | inr (_, h2) ↦ elim (if-some b3 (market_del_type t o) none k h2) [
          | inl (ty, h3) ↦ market-Declares t o k m ((eq_iff o.ord_type "1").0 ty) h3
          | inr (_, h3) ↦ absurd (none≢some h3)
        ]
      ]
    ]

sh_del_type-Declares :
    (t : Terms) (o : OrderMessage) (k : DeclarationType)
    → o.trade_market ≡ "101"
    → sh_del_type o ≡ some k
    → Declares t o k
sh_del_type-Declares t o k m h =
    let lr = str_eq o.ord_type "LRZ" || str_eq o.ord_type "LRQ" in
    let b1 = str_eq o.ord_type "LPT" || lr in
    let b2 = str_eq o.ord_type "MPT" in
    let b3 = str_eq o.ord_type "NPT" in
    let r3 : Option DeclarationType = if b3 then some match_in_five_and_remainder_hold else none in
    let r2 : Option DeclarationType = if b2 then some match_in_five_and_remainder_cancel else r3 in
    elim (if-some b1 (some ordinary_limit) r2 k h) [
      | inl (a, e) ↦
          subst (Declares t o) (some-inj e) (elim (or-true (str_eq o.ord_type "LPT") lr a) [
            | inl x ↦ sh_limit (m, (eq_iff o.ord_type "LPT").0 x)
            | inr y ↦ elim (or-true (str_eq o.ord_type "LRZ") (str_eq o.ord_type "LRQ") y) [
              | inl x ↦ sh_margin_cash (m, (eq_iff o.ord_type "LRZ").0 x)
              | inr x ↦ sh_margin_stock (m, (eq_iff o.ord_type "LRQ").0 x)
            ]
          ])
      | inr (_, h1) ↦ elim (if-some b2 (some match_in_five_and_remainder_cancel) r3 k h1) [
        | inl (x, e) ↦
            subst (Declares t o) (some-inj e) (sh_five_cancel (m, (eq_iff o.ord_type "MPT").0 x))
        | inr (_, h2) ↦
            let (x, e) = if-only b3 match_in_five_and_remainder_hold k h2 in
            subst (Declares t o) e (sh_five_hold (m, (eq_iff o.ord_type "NPT").0 x))
      ]
    ]

-- What is left of an order that is given no kind.
pub record Refused (o : OrderMessage) (r : Code × OrderMessage) : Type 0 where
  pub code : r.0 ≡ failure
  pub type : r.1.match_type ≡ error_match
  pub error : r.1.data_error ≡ true
  pub kind : r.1.del_type ≡ o.del_type

declared-cases :
    (x : Option DeclarationType) (o : OrderMessage)
    → ((k : DeclarationType) × (x ≡ some k)) ⊎ Refused o (declared x o)
declared-cases none o = inr (record { code = refl; type = refl; error = refl; kind = refl })
declared-cases (some k) o = inl (k, refl)

returned-cases :
    (t : Terms) (o : OrderMessage)
    → ((k : DeclarationType) × Declares t o k) ⊎ Refused o (get_order_del_type t o)
unfolding get_order_del_type
returned-cases t o = elim (Bool-cases (str_eq o.trade_market "102")) [
  | inl m ↦ elim (declared-cases (sz_del_type t o) o) [
    | inl (k, e) ↦ inl (k, sz_del_type-Declares t o k ((eq_iff o.trade_market "102").0 m) e)
    | inr r ↦ inr (subst (Refused o) (sym (if-true (str_eq o.trade_market "102") _ _ m)) r)
  ]
  | inr n ↦ elim (Bool-cases (str_eq o.trade_market "101")) [
    | inl m ↦ elim (declared-cases (sh_del_type o) o) [
      | inl (k, e) ↦ inl (k, sh_del_type-Declares t o k ((eq_iff o.trade_market "101").0 m) e)
      | inr r ↦ inr (
          subst (Refused o)
            (sym (
              if-false (str_eq o.trade_market "102") _ _ n
              ∙ if-true (str_eq o.trade_market "101") _ _ m))
            r)
    ]
    | inr m ↦ inr (
        subst (Refused o)
          (sym (
            if-false (str_eq o.trade_market "102") _ _ n
            ∙ if-false (str_eq o.trade_market "101") _ _ m))
          (record { code = refl; type = refl; error = refl; kind = refl }))
  ]
]

-- `GetOrder_DEL_TYPE` of an order whose quantity is not 0 follows the table in its comments, but for one row. It
-- returns 0 and sets the kind of the declaration, and nothing else, to the one kind that the table has for the texts
-- of the order, if one of the other rows has them. It returns -1, keeps the kind and marks the order as an error if
-- the order is a limit order of Shenzhen that is to be filled in full or cancelled, which is the row without a
-- branch, and also if no row has its texts.
pub get_order_del_type-Declares :
    (t : Terms) (o : OrderMessage)
    → o.order_qty_origin ≢ 0
    → ((k : DeclarationType) × Declares t o k
        × (get_order_del_type t o ≡ (success, record o { del_type = k }))
        × ((j : DeclarationType) → Declares t o j → j ≡ k)
        × (¬ LimitAllOrCancel t o))
      ⊎ (LimitAllOrCancel t o
          × ((k : DeclarationType) → ¬ Declares t o k)
          × Refused o (get_order_del_type t o))
      ⊎ ((¬ LimitAllOrCancel t o)
          × ((k : DeclarationType) → ¬ Declares t o k)
          × Refused o (get_order_del_type t o))
get_order_del_type-Declares t o z = elim (returned-cases t o) [
  | inl (k, h) ↦
      let e = Declares-returned t o k z h in
      inl (
        k,
        h,
        e,
        λ j i.
            ap (λ r. r.1.del_type) (sym (Declares-returned t o j z i)) ∙ ap (λ r. r.1.del_type) e,
        λ l. Declares-LimitAllOrCancel t o k h l,
      )
  | inr r ↦
      let none_declared : (k : DeclarationType) → ¬ Declares t o k = λ k h.
        let e : success ≡ failure = ap (λ x. x.0) (sym (Declares-returned t o k z h)) ∙ r.code in
        cc in
      inr (elim (limit_or_not t o) [
        | inl l ↦ inl (l, none_declared, r)
        | inr l ↦ inr (l, none_declared, r)
      ])
]
