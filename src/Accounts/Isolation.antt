-- ===== src/Accounts/Isolation.antt =====
-- Calls on the holdings of one account leave those of another as they are.
use simutgw_src.Common.{
  String, ◌≡◌, ◌≢◌, inl, inr, refl, subst, ◌∙◌, Option, none, some, List, [], ◌∷◌, Code, success,
  is_ok, Option-cases, Bool-cases,
}
use simutgw_src.Stock.{UserStockVolume}
use simutgw_src.Trade.{FrozeComponent, OrderMessage}
use simutgw_src.Accounts.{Cache, World, Op, Sql, holding, store, at_stock, look_up, ◌>>>◌}
use simutgw_src.Accounts.Methods.{looked_up, nothing_held, added}
use simutgw_src.Accounts.Synchronise.{exc_update_sql, synchronise}
use simutgw_src.Accounts.Orders.{is_normal, in_normal_mode, and_then, each, is_cash}
use simutgw_src.Accounts.Lookup.{holding-store-other_account, look_up-other_account}

-- What a call has left of one holding, if it returns.
abbrev pub Keeps : String → String → Cache → Option (Code × Cache) → Type 0
Keeps b j c none = Unit {0}
Keeps b j c (some (code, c')) = holding b j c' ≡ holding b j c

module _ (a b j : String) (h : b ≢ a) where
  pub at_stock-Keeps :
      (k : String) (f : UserStockVolume → Code × UserStockVolume) (c : Cache)
      → Keeps b j c (at_stock a k f c)
  at_stock-Keeps k f c = elim (Option-cases (holding a k c)) [
    | inl d ↦ rw (d, at_stock) tt
    | inr (s, d) ↦ rw (d, at_stock) (holding-store-other_account a b k j (f s).1 c h)
  ]

  pub synchronise-Keeps :
      (k : String) (f : UserStockVolume → Sql × UserStockVolume) (c : Cache)
      → Keeps b j c (synchronise a k f c)
  unfolding exc_update_sql
  synchronise-Keeps k f c = elim (Option-cases (holding a k c)) [
    | inl d ↦ rw (d, synchronise) tt
    | inr (s, d) ↦ rw (d, synchronise) (holding-store-other_account a b k j (f s).1 c h)
  ]

  Keeps-step :
      (c c' : Cache) (r : Option (Code × Cache))
      → holding b j c' ≡ holding b j c
      → Keeps b j c' r
      → Keeps b j c r
  Keeps-step c c' none e k = tt
  Keeps-step c c' (some r) e k = k ∙ e

  pub looked_up-Keeps :
      (w : World) (k : String) (f : UserStockVolume → Code × UserStockVolume) (c : Cache)
      → Keeps b j c (looked_up w a k f c)
  looked_up-Keeps w k f c = elim (Bool-cases (is_ok (look_up w a k c).0)) [
    | inl e ↦ rw e (
        Keeps-step c (look_up w a k c).1 (at_stock a k f (look_up w a k c).1)
          (look_up-other_account w a b k j c h) (at_stock-Keeps k f (look_up w a k c).1))
    | inr e ↦ rw e (look_up-other_account w a b k j c h)
  ]

  pub added-Keeps :
      (w : World) (k : String) (f : UserStockVolume → UserStockVolume) (c : Cache)
      → Keeps b j c (added w a k f c)
  added-Keeps w k f c = elim (Bool-cases (is_ok (look_up w a k c).0)) [
    | inl e ↦ rw e (
        Keeps-step c (look_up w a k c).1 (at_stock a k (λ s. (success, f s)) (look_up w a k c).1)
          (look_up-other_account w a b k j c h)
          (at_stock-Keeps k (λ s. (success, f s)) (look_up w a k c).1))
    | inr e ↦ rw e (
        Keeps-step c (store a k (nothing_held w.time) (look_up w a k c).1)
          (at_stock a k (λ s. (success, f s)) (store a k (nothing_held w.time) (look_up w a k c).1))
          (holding-store-other_account a b k j (nothing_held w.time) (look_up w a k c).1 h
            ∙ look_up-other_account w a b k j c h)
          (at_stock-Keeps k (λ s. (success, f s))
            (store a k (nothing_held w.time) (look_up w a k c).1)))
  ]

  pub >>>-Keeps :
      (m n : Op)
      → ((c : Cache) → Keeps b j c (m c))
      → ((c : Cache) → Keeps b j c (n c))
      → (c : Cache) → Keeps b j c ((m >>> n) c)
  >>>-Keeps m n f g c = elim (Option-cases (m c)) [
    | inl e ↦ rw (e, ◌>>>◌) tt
    | inr ((code, c'), e) ↦
        let first : Keeps b j c (some (code, c')) = subst (λ r. Keeps b j c r) e (f c) in
        rw (e, ◌>>>◌) (Keeps-step c c' (n c') first (g c'))
  ]

  pub and_then-Keeps :
      (o : OrderMessage) (n m : Op)
      → ((c : Cache) → Keeps b j c (n c))
      → ((c : Cache) → Keeps b j c (m c))
      → (c : Cache) → Keeps b j c (and_then o n m c)
  and_then-Keeps o n m g f c = elim (Option-cases (m c)) [
    | inl e ↦ rw (e, and_then) tt
    | inr ((code, c'), e) ↦
        let first : Keeps b j c (some (code, c')) = subst (λ r. Keeps b j c r) e (f c) in
        elim (Bool-cases (is_normal o.trade_policy.run_mode)) [
          | inl d ↦ rw (e, and_then) (rw d (Keeps-step c c' (n c') first (g c')))
          | inr d ↦ rw (e, and_then) (rw d first)
        ]
  ]

  pub in_normal_mode-Keeps :
      (o : OrderMessage) (m : Op)
      → ((c : Cache) → Keeps b j c (m c))
      → (c : Cache) → Keeps b j c (in_normal_mode o m c)
  in_normal_mode-Keeps o m f c = elim (Bool-cases (is_normal o.trade_policy.run_mode)) [
    | inl d ↦ rw d (f c)
    | inr d ↦ rw d refl
  ]

  pub each-Keeps :
      (f : FrozeComponent → Op) (xs : List FrozeComponent)
      → ((x : FrozeComponent) (c : Cache) → Keeps b j c (f x c))
      → (c : Cache) → Keeps b j c (each f xs c)
  each-Keeps f [] g c = refl
  each-Keeps f (x ∷ xs) g c = elim (Bool-cases (is_cash x)) [
    | inl e ↦ rw e (each-Keeps f xs g c)
    | inr e ↦ rw e (>>>-Keeps (f x) (each f xs) (g x) (each-Keeps f xs g) c)
  ]
