-- ===== src/Accounts/Acts.antt =====
-- What the methods of `UserStockHelper` return, and what they leave.
use simutgw_src.Common.{
  ℕ, String, ◌≡◌, ◌⊎◌, inl, inr, refl, sym, ap, ◌∙◌, none, some, Code, success, failure,
  Option-cases,
}
use simutgw_src.Stock.{UserStockVolume}
use simutgw_src.Stock.Increase.{add_act, add_crt, add_rdp}
use simutgw_src.Stock.Uses.{
  Use, sell, sell_etf, creation, redemption, froze_for, defroze_for, confirm_for,
}
use simutgw_src.Trade.{Cps}
use simutgw_src.Accounts.{Cache, World, Op, holding, store, look_up}
use simutgw_src.Accounts.Methods.{
  looked_up, frozen, nothing_held, account_sell_froze, account_sell_defroze, account_sell_confirm,
  account_sell_etf_froze, account_sell_etf_defroze, account_sell_etf_confirm,
  account_creation_froze, account_creation_defroze, account_creation_confirm,
  account_redemption_froze, account_redemption_defroze, account_redemption_confirm, account_add_act,
  account_add_crt, account_add_rdp,
}
use simutgw_src.Accounts.Lookup.{
  known, holding-store, looked_up-unknown, looked_up-known, added-unknown, added-known,
  frozen-unknown, frozen-known,
}
use simutgw_src.Accounts.Calls.{
  Call, freezes, releases, confirms, buys, creates, redeems, account_froze_for, account_defroze_for,
  account_confirm_for, with_amounts, call, act, or_nothing, start,
}

-- A call has returned what the method gives on `s`, and the holding is what it leaves.
pub record Acts (m : Call) (w : World) (a k : String) (p : Cps) (c : Cache) (s : UserStockVolume)
    : Type 0 where
  pub after : Cache
  pub returned : call m w a k p c ≡ some ((act m w.time p s).0, (act m w.time p s).1, after)
  pub left : holding a k after ≡ some (act m w.time p s).2

froze_for-frozen :
    (u : Use) (w : World) (a k : String) (n : ℕ)
    → account_froze_for u w a k n ≡ frozen w a k (froze_for u w.time n)
unfolding account_sell_froze account_sell_etf_froze account_creation_froze account_redemption_froze
froze_for-frozen sell w a k n = refl
froze_for-frozen sell_etf w a k n = refl
froze_for-frozen creation w a k n = refl
froze_for-frozen redemption w a k n = refl

defroze_for-looked_up :
    (u : Use) (w : World) (a k : String) (p : Cps)
    → account_defroze_for u w a k p ≡ looked_up w a k (defroze_for u w.time p.first p.avl)
unfolding account_sell_defroze account_sell_etf_defroze account_creation_defroze
    account_redemption_defroze
defroze_for-looked_up sell w a k p = refl
defroze_for-looked_up sell_etf w a k p = refl
defroze_for-looked_up creation w a k p = refl
defroze_for-looked_up redemption w a k p = refl

confirm_for-looked_up :
    (u : Use) (w : World) (a k : String) (p : Cps)
    → account_confirm_for u w a k p ≡ looked_up w a k (confirm_for u w.time p.first p.avl)
unfolding account_sell_confirm account_sell_etf_confirm account_creation_confirm
    account_redemption_confirm
confirm_for-looked_up sell w a k p = refl
confirm_for-looked_up sell_etf w a k p = refl
confirm_for-looked_up creation w a k p = refl
confirm_for-looked_up redemption w a k p = refl

with_amounts-some :
    (p : Cps) (m : Op) (c : Cache) (r : Code × Cache)
    → m c ≡ some r
    → with_amounts p m c ≡ some (r.0, p, r.1)
with_amounts-some p m c r h = rw (h, with_amounts) refl

-- The method that an addition calls.
abbrev adding : Call → ℕ → UserStockVolume → UserStockVolume
adding (buys n) time = add_act time n
adding (creates n) time = add_crt time n
adding (redeems n) time = add_rdp time n
adding _ time = λ s. s

added-Acts :
    (m : Call) (w : World) (a k : String) (p : Cps) (c c0 : Cache) (s : UserStockVolume) (o : Op)
    → call m w a k p c ≡ with_amounts p o c
    → act m w.time p s ≡ (success, p, adding m w.time s)
    → o c ≡ some (success, store a k (adding m w.time s) c0)
    → Acts m w a k p c s
added-Acts m w a k p c c0 s o e f g = record {
  after = store a k (adding m w.time s) c0;
  returned =
      e
      ∙ with_amounts-some p o c (success, store a k (adding m w.time s) c0) g
      ∙ ap (λ r. some (r.0, r.1, store a k (adding m w.time s) c0)) (sym f);
  left = holding-store a k (adding m w.time s) c0 ∙ ap (λ r. some r.2) (sym f);
}

known-Acts :
    (m : Call) (w : World) (a k : String) (p : Cps) (c : Cache) (s : UserStockVolume)
    → known w a k c ≡ some s
    → Acts m w a k p c s
unfolding call act account_add_act account_add_crt account_add_rdp
known-Acts (freezes u n) w a k p c s h = record {
  after = store a k (froze_for u w.time n s).3 (look_up w a k c).1;
  returned = rw (froze_for-frozen u w a k n) (frozen-known w a k (froze_for u w.time n) p c s h);
  left = holding-store a k (froze_for u w.time n s).3 (look_up w a k c).1;
}
known-Acts (releases u) w a k p c s h =
    let f = defroze_for u w.time p.first p.avl in
    record {
      after = store a k (f s).1 (look_up w a k c).1;
      returned = rw (defroze_for-looked_up u w a k p) (
          with_amounts-some p (looked_up w a k f) c ((f s).0, store a k (f s).1 (look_up w a k c).1)
            (looked_up-known w a k f c s h));
      left = holding-store a k (f s).1 (look_up w a k c).1;
    }
known-Acts (confirms u) w a k p c s h =
    let f = confirm_for u w.time p.first p.avl in
    record {
      after = store a k (f s).1 (look_up w a k c).1;
      returned = rw (confirm_for-looked_up u w a k p) (
          with_amounts-some p (looked_up w a k f) c ((f s).0, store a k (f s).1 (look_up w a k c).1)
            (looked_up-known w a k f c s h));
      left = holding-store a k (f s).1 (look_up w a k c).1;
    }
known-Acts (buys n) w a k p c s h =
    added-Acts (buys n) w a k p c (look_up w a k c).1 s (account_add_act w a k n) refl refl
      (added-known w a k (add_act w.time n) c s h)
known-Acts (creates n) w a k p c s h =
    added-Acts (creates n) w a k p c (look_up w a k c).1 s (account_add_crt w a k n) refl refl
      (added-known w a k (add_crt w.time n) c s h)
known-Acts (redeems n) w a k p c s h =
    added-Acts (redeems n) w a k p c (look_up w a k c).1 s (account_add_rdp w a k n) refl refl
      (added-known w a k (add_rdp w.time n) c s h)

-- A call of the methods of `UserStockHelper` on one holding, for the four uses and the three
-- additions, meets no null pointer. It looks the holding up in the map and then in the database, and where
-- neither has it an addition begins with nothing held and another call fails with -1, with nothing changed;
-- else it returns what the method of the holding returns, and the map has the holding as the method leaves it.
pub call-Acts :
    (m : Call) (w : World) (a k : String) (p : Cps) (c : Cache)
    → ((start m w a k c ≡ none) × (call m w a k p c ≡ some (failure, p, c)))
      ⊎ ((s : UserStockVolume) × (start m w a k c ≡ some s) × Acts m w a k p c s)
unfolding start call act account_add_act account_add_crt account_add_rdp
call-Acts (freezes u n) w a k p c = elim (Option-cases (known w a k c)) [
  | inl e ↦
      inl (e, rw (froze_for-frozen u w a k n) (frozen-unknown w a k (froze_for u w.time n) p c e))
  | inr (s, e) ↦ inr (s, e, known-Acts (freezes u n) w a k p c s e)
]
call-Acts (releases u) w a k p c = elim (Option-cases (known w a k c)) [
  | inl e ↦ inl (
    e,
    rw (defroze_for-looked_up u w a k p) (
        with_amounts-some p (looked_up w a k (defroze_for u w.time p.first p.avl)) c (failure, c)
          (looked_up-unknown w a k (defroze_for u w.time p.first p.avl) c e)),
  )
  | inr (s, e) ↦ inr (s, e, known-Acts (releases u) w a k p c s e)
]
call-Acts (confirms u) w a k p c = elim (Option-cases (known w a k c)) [
  | inl e ↦ inl (
    e,
    rw (confirm_for-looked_up u w a k p) (
        with_amounts-some p (looked_up w a k (confirm_for u w.time p.first p.avl)) c (failure, c)
          (looked_up-unknown w a k (confirm_for u w.time p.first p.avl) c e)),
  )
  | inr (s, e) ↦ inr (s, e, known-Acts (confirms u) w a k p c s e)
]
call-Acts (buys n) w a k p c = elim (Option-cases (known w a k c)) [
  | inl e ↦ inr (
    nothing_held w.time,
    ap (or_nothing w.time) e,
    added-Acts (buys n) w a k p c (store a k (nothing_held w.time) c) (nothing_held w.time)
        (account_add_act w a k n) refl refl (added-unknown w a k (add_act w.time n) c e),
  )
  | inr (s, e) ↦ inr (s, ap (or_nothing w.time) e, known-Acts (buys n) w a k p c s e)
]
call-Acts (creates n) w a k p c = elim (Option-cases (known w a k c)) [
  | inl e ↦ inr (
    nothing_held w.time,
    ap (or_nothing w.time) e,
    added-Acts (creates n) w a k p c (store a k (nothing_held w.time) c) (nothing_held w.time)
        (account_add_crt w a k n) refl refl (added-unknown w a k (add_crt w.time n) c e),
  )
  | inr (s, e) ↦ inr (s, ap (or_nothing w.time) e, known-Acts (creates n) w a k p c s e)
]
call-Acts (redeems n) w a k p c = elim (Option-cases (known w a k c)) [
  | inl e ↦ inr (
    nothing_held w.time,
    ap (or_nothing w.time) e,
    added-Acts (redeems n) w a k p c (store a k (nothing_held w.time) c) (nothing_held w.time)
        (account_add_rdp w a k n) refl refl (added-unknown w a k (add_rdp w.time n) c e),
  )
  | inr (s, e) ↦ inr (s, ap (or_nothing w.time) e, known-Acts (redeems n) w a k p c s e)
]
