-- ===== src/Accounts/Lookup.antt =====
-- What a call on one holding leaves alone, and that it meets no null pointer.
use simutgw_src.Common.{
  ℕ, String, ◌≡◌, ◌≢◌, inl, inr, refl, sym, ◌∙◌, Option, none, some, Code, success, failure, find,
  put, find-put, find-put-other, Option-cases, none≢some,
}
use simutgw_src.Stock.{UserStockVolume}
use simutgw_src.Trade.{Cps}
use simutgw_src.Accounts.Methods.{looked_up, frozen, nothing_held, added}
use simutgw_src.Accounts.{
  Cache, World, loaded, holding, stocks_of, store, at_stock, look_up,
  load_user_stock_from_db_and_store,
}

-- The holding that a lookup finds: the one in the map, or the one in the database.
abbrev pub known : World → String → String → Cache → Option UserStockVolume
known w a k c = elim (holding a k c) [
  | some s ↦ some s
  | none ↦ elim (w.rows a k) [ none ↦ none | some i ↦ some (loaded w.time i) ]
]

pub holding-store :
    (a k : String) (s : UserStockVolume) (c : Cache) → holding a k (store a k s c) ≡ some s
holding-store a k s c =
    rw (find-put a (put k s (stocks_of a c)) c.user_stock, holding) (find-put k s (stocks_of a c))

pub holding-store-other_account :
    (a b k j : String) (s : UserStockVolume) (c : Cache)
    → b ≢ a
    → holding b j (store a k s c) ≡ holding b j c
holding-store-other_account a b k j s c h =
    rw (find-put-other b a (put k s (stocks_of a c)) c.user_stock h, holding) refl

find-stocks_of : (a j : String) (c : Cache) → find j (stocks_of a c) ≡ holding a j c
find-stocks_of a j c = elim (Option-cases (find a c.user_stock)) [
  | inl e ↦ rw (e, stocks_of, holding, find) refl
  | inr (m, e) ↦ rw (e, stocks_of, holding, find) refl
]

pub holding-store-other_stock :
    (a k j : String) (s : UserStockVolume) (c : Cache)
    → j ≢ k
    → holding a j (store a k s c) ≡ holding a j c
holding-store-other_stock a k j s c h =
    rw (find-put a (put k s (stocks_of a c)) c.user_stock, holding)
      (find-put-other j k s (stocks_of a c) h ∙ find-stocks_of a j c)

-- Where nothing is known, a lookup changes nothing, and where something is, it is in the map then.
pub look_up-unknown :
    (w : World) (a k : String) (c : Cache) → known w a k c ≡ none → look_up w a k c ≡ (failure, c)
unfolding look_up load_user_stock_from_db_and_store
look_up-unknown w a k c h = elim (Option-cases (holding a k c)) [
  | inl e ↦ elim (Option-cases (w.rows a k)) [
    | inl d ↦ rw (e, look_up) (rw (d, load_user_stock_from_db_and_store) refl)
    | inr (i, d) ↦
        let found : known w a k c ≡ some (loaded w.time i) = rw (e, known) (rw d refl) in
        absurd (none≢some (sym h ∙ found))
  ]
  | inr (s, e) ↦
      let found : known w a k c ≡ some s = rw (e, known) refl in absurd (none≢some (sym h ∙ found))
]

pub look_up-known :
    (w : World) (a k : String) (c : Cache) (s : UserStockVolume)
    → known w a k c ≡ some s
    → ((look_up w a k c).0 ≡ success) × (holding a k (look_up w a k c).1 ≡ some s)
unfolding look_up load_user_stock_from_db_and_store
look_up-known w a k c s h = elim (Option-cases (holding a k c)) [
  | inl e ↦ elim (Option-cases (w.rows a k)) [
    | inl d ↦
        let found : known w a k c ≡ none = rw (e, known) (rw d refl) in
        absurd (none≢some (sym found ∙ h))
    | inr (i, d) ↦
        let found : known w a k c ≡ some (loaded w.time i) = rw (e, known) (rw d refl) in
        rw (e, look_up)
          (rw (d, load_user_stock_from_db_and_store)
            (refl, holding-store a k (loaded w.time i) c ∙ sym found ∙ h))
  ]
  | inr (t, e) ↦
      let found : known w a k c ≡ some t = rw (e, known) refl in
      rw (e, look_up) (refl, e ∙ sym found ∙ h)
]

pub looked_up-unknown :
    (w : World) (a k : String) (f : UserStockVolume → Code × UserStockVolume) (c : Cache)
    → known w a k c ≡ none
    → looked_up w a k f c ≡ some (failure, c)
looked_up-unknown w a k f c h = rw (look_up-unknown w a k c h) refl

pub looked_up-known :
    (w : World) (a k : String) (f : UserStockVolume → Code × UserStockVolume) (c : Cache)
    (s : UserStockVolume)
    → known w a k c ≡ some s
    → looked_up w a k f c ≡ some ((f s).0, store a k (f s).1 (look_up w a k c).1)
looked_up-known w a k f c s h =
    let (ok, e) = look_up-known w a k c s h in rw ok (rw (e, at_stock) refl)

pub added-unknown :
    (w : World) (a k : String) (f : UserStockVolume → UserStockVolume) (c : Cache)
    → known w a k c ≡ none
    → added w a k f c
      ≡ some (success, store a k (f (nothing_held w.time)) (store a k (nothing_held w.time) c))
added-unknown w a k f c h =
    rw (look_up-unknown w a k c h) (rw (holding-store a k (nothing_held w.time) c, at_stock) refl)

pub added-known :
    (w : World) (a k : String) (f : UserStockVolume → UserStockVolume) (c : Cache)
    (s : UserStockVolume)
    → known w a k c ≡ some s
    → added w a k f c ≡ some (success, store a k (f s) (look_up w a k c).1)
added-known w a k f c s h = let (ok, e) = look_up-known w a k c s h in rw ok (rw (e, at_stock) refl)

pub frozen-unknown :
    (w : World) (a k : String) (f : UserStockVolume → Code × ℕ × ℕ × UserStockVolume) (p : Cps)
    (c : Cache)
    → known w a k c ≡ none
    → frozen w a k f p c ≡ some (failure, p, c)
frozen-unknown w a k f p c h = rw (look_up-unknown w a k c h) refl

pub frozen-known :
    (w : World) (a k : String) (f : UserStockVolume → Code × ℕ × ℕ × UserStockVolume) (p : Cps)
    (c : Cache) (s : UserStockVolume)
    → known w a k c ≡ some s
    → frozen w a k f p c
      ≡ some (
        (f s).0,
        record { first = (f s).1; avl = (f s).2 },
        store a k (f s).3 (look_up w a k c).1,
      )
frozen-known w a k f p c s h =
    let (ok, e) = look_up-known w a k c s h in rw ok (rw (e, at_stock) refl)

-- A lookup changes nothing but the holding that it looks for.
pub look_up-other_account :
    (w : World) (a b k j : String) (c : Cache)
    → b ≢ a
    → holding b j (look_up w a k c).1 ≡ holding b j c
unfolding look_up load_user_stock_from_db_and_store
look_up-other_account w a b k j c h = elim (Option-cases (holding a k c)) [
  | inl e ↦ elim (Option-cases (w.rows a k)) [
    | inl d ↦ rw (e, look_up) (rw (d, load_user_stock_from_db_and_store) refl)
    | inr (i, d) ↦
        rw (e, look_up)
          (rw (d, load_user_stock_from_db_and_store)
            (holding-store-other_account a b k j (loaded w.time i) c h))
  ]
  | inr (s, e) ↦ rw (e, look_up) refl
]
