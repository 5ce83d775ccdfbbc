-- ===== src/Prep/Query.antt =====
-- The first loop of `CreationQuery` only looks.
use simutgw_src.Common.{
  ℕ, String, true, false, not, ◌≡◌, ◌≢◌, inl, inr, refl, sym, ap, ◌∙◌, subst, Option, none, some,
  some-inj, none≢some, List, [], ◌∷◌, Code, success, failure, is_ok, Option-cases, Bool-cases,
  Code-cases, str_eq, eq_iff, if◌then◌else◌, if-true, if-false, mul64, sub64, arith,
}
use simutgw_src.Stock.{UserStockVolume, is_expired}
use simutgw_src.Stock.Creation.{creation_query}
use simutgw_src.Accounts.{
  Cache, World, holding, store, look_up, load_user_stock_from_db_and_store, loaded,
}
use simutgw_src.Accounts.Lookup.{
  known, look_up-unknown, look_up-known, holding-store, holding-store-other_account,
  holding-store-other_stock,
}
use simutgw_src.Prep.{
  Doubles, Sources, SubstituteFlag, only_security, security_and_cash, only_cash, other_flag,
  EtfComponent,
}
use simutgw_src.Prep.Creation.{query_shares, query_component, query_all, short_query}

-- Two states of a holding that differ in their times at most.
pub record SameCounters (s s' : UserStockVolume) : Type 0 where
  pub stored : s'.stored ≡ s.stored
  pub balance : s'.stk_balance ≡ s.stk_balance
  pub act : s'.stk_act_pch_balance ≡ s.stk_act_pch_balance
  pub stp : s'.stk_stp_pch_balance ≡ s.stk_stp_pch_balance
  pub rdp : s'.stk_etf_rdp_balance ≡ s.stk_etf_rdp_balance
  pub crt : s'.stk_crt_balance ≡ s.stk_crt_balance
  pub avl : s'.stk_avl_balance ≡ s.stk_avl_balance
  pub last : s'.stk_last_balance ≡ s.stk_last_balance

-- What is known of a holding before and after: the same, but for its times.
pub data Same (x y : Option UserStockVolume) : Type 0 where
  equal : y ≡ x → Same x y
  looked_at : (s s' : UserStockVolume) → x ≡ some s → y ≡ some s' → SameCounters s s' → Same x y

abbrev pub Unchanged : World → Cache → Cache → Type 0
Unchanged w c c' = (b j : String) → Same (known w b j c) (known w b j c')

SameCounters-trans :
    (s s' s'' : UserStockVolume) → SameCounters s s' → SameCounters s' s'' → SameCounters s s''
SameCounters-trans s s' s'' f g = record {
  stored = g.stored ∙ f.stored;
  balance = g.balance ∙ f.balance;
  act = g.act ∙ f.act;
  stp = g.stp ∙ f.stp;
  rdp = g.rdp ∙ f.rdp;
  crt = g.crt ∙ f.crt;
  avl = g.avl ∙ f.avl;
  last = g.last ∙ f.last;
}

Same-trans : (x y z : Option UserStockVolume) → Same x y → Same y z → Same x z
Same-trans x y z (equal e) (equal d) = equal (d ∙ e)
Same-trans x y z (equal e) (looked_at s s' f g h) = looked_at s s' (sym e ∙ f) g h
Same-trans x y z (looked_at s s' f g h) (equal d) = looked_at s s' f (d ∙ g) h
Same-trans x y z (looked_at s s' f g h) (looked_at t t' f' g' h') =
    let e : s' ≡ t = some-inj (sym g ∙ f') in
    looked_at s t' f g' (SameCounters-trans s t t' (subst (λ v. SameCounters s v) e h) h')

known-holding-eq :
    (w : World) (b j : String) (c c' : Cache)
    → holding b j c' ≡ holding b j c
    → known w b j c' ≡ known w b j c
known-holding-eq w b j c c' h = rw (h, known) refl

differs : (b a : String) → str_eq b a ≡ false → b ≢ a
differs b a h e = let t : true ≡ false = sym ((eq_iff b a).1 e) ∙ h in cc

store-Unchanged :
    (w : World) (a k : String) (s s' : UserStockVolume) (c : Cache)
    → known w a k c ≡ some s
    → SameCounters s s'
    → Unchanged w c (store a k s' c)
store-Unchanged w a k s s' c h f b j = elim (Bool-cases (str_eq b a)) [
  | inr e ↦ equal (
      known-holding-eq w b j c (store a k s' c)
        (holding-store-other_account a b k j s' c (differs b a e)))
  | inl e ↦
      let same : a ≡ b = sym ((eq_iff b a).0 e) in
      subst (λ x. Same (known w x j c) (known w x j (store a k s' c))) same
        (elim (Bool-cases (str_eq j k)) [
          | inr d ↦ equal (
              known-holding-eq w a j c (store a k s' c)
                (holding-store-other_stock a k j s' c (differs j k d)))
          | inl d ↦
              let key : k ≡ j = sym ((eq_iff j k).0 d) in
              subst (λ x. Same (known w a x c) (known w a x (store a k s' c))) key
                (looked_at s s' h (rw (holding-store a k s' c, known) refl) f)
        ])
]

SameCounters-refl : (s : UserStockVolume) → SameCounters s s
SameCounters-refl s = record {
  stored = refl;
  balance = refl;
  act = refl;
  stp = refl;
  rdp = refl;
  crt = refl;
  avl = refl;
  last = refl;
}

look_up-Unchanged : (w : World) (a k : String) (c : Cache) → Unchanged w c (look_up w a k c).1
unfolding look_up load_user_stock_from_db_and_store
look_up-Unchanged w a k c b j = elim (Option-cases (holding a k c)) [
  | inl e ↦ elim (Option-cases (w.rows a k)) [
    | inl d ↦ rw (e, look_up) (rw (d, load_user_stock_from_db_and_store) (equal refl))
    | inr (i, d) ↦
        let found : known w a k c ≡ some (loaded w.time i) = rw (e, known) (rw d refl) in
        rw (e, look_up)
          (rw (d, load_user_stock_from_db_and_store)
            (store-Unchanged w a k (loaded w.time i) (loaded w.time i) c found
              (SameCounters-refl (loaded w.time i)) b j))
  ]
  | inr (s, e) ↦ rw (e, look_up) (equal refl)
]

creation_query-SameCounters :
    (time n : ℕ) (s : UserStockVolume) → SameCounters s (creation_query time n s).2
unfolding creation_query is_expired
creation_query-SameCounters time n s = ground arith

-- A round that returns, and leaves the cache as it was but for times.
record Round (w : World) {A : Type 0} (c : Cache) (r : Option (Code × A × Cache)) : Type 0 where
  code : Code
  cash : A
  after : Cache
  returned : r ≡ some (code, cash, after)
  unchanged : Unchanged w c after

-- A lookup that succeeds leaves a holding in the map.
look_up-found :
    (w : World) (a k : String) (c : Cache)
    → is_ok (look_up w a k c).0 ≡ true
    → holding a k (look_up w a k c).1 ≢ none
look_up-found w a k c h e = elim (Option-cases (known w a k c)) [
  | inl u ↦ let t : false ≡ true = ap (λ r. is_ok r.0) (sym (look_up-unknown w a k c u)) ∙ h in cc
  | inr (s, u) ↦ none≢some (sym e ∙ (look_up-known w a k c s u).1)
]

module _ (d : Doubles) (q : Sources d.Double) (account : String) (times : ℕ) where
  query_shares-Round :
      (x : EtfComponent d.Double) (cash : d.Double) (c : Cache)
      → Round q.world c (query_shares d q account times x cash c)
  query_shares-Round x cash c =
      let w = q.world in
      let stock = x.component.underlying_security_id in
      let c1 = (look_up w account stock c).1 in
      let first = look_up-Unchanged w account stock c in
      elim (Bool-cases (is_ok (look_up w account stock c).0)) [
        | inr e ↦ record {
          code = failure;
          cash = cash;
          after = c1;
          returned = if-true (not (is_ok (look_up w account stock c).0)) _ _ (ap not e);
          unchanged = first;
        }
        | inl e ↦ elim (Option-cases (holding account stock c1)) [
          | inl h ↦ absurd (look_up-found w account stock c e h)
          | inr (s, h) ↦
              let want = mul64 times x.component.component_share in
              let r = creation_query w.time want s in
              let c2 = store account stock r.2 c1 in
              let short = short_query d q account times x.substitute_flag x (sub64 want r.1) cash in
              let found : known w account stock c1 ≡ some s = rw (h, known) refl in
              record {
                code = if is_ok r.0 then success else short.0;
                cash = if is_ok r.0 then cash else short.1;
                after = c2;
                returned =
                    if-false (not (is_ok (look_up w account stock c).0)) _ _ (ap not e)
                    ∙ rw (h, query_shares)
                        (elim (Bool-cases (is_ok r.0)) [ inl k ↦ rw k refl | inr k ↦ rw k refl ]);
                unchanged = λ b j.
                    Same-trans (known w b j c) (known w b j c1) (known w b j c2) (first b j) (
                      store-Unchanged w account stock s r.2 c1 found
                        (creation_query-SameCounters w.time want s) b j);
              }
        ]
      ]

  query_component-Round :
      (g : SubstituteFlag) (x : EtfComponent d.Double) (cash : d.Double) (c : Cache)
      → Round q.world c (query_component d q account times g x cash c)
  query_component-Round only_cash x cash c = record {
    code = if d.is_negative cash then failure else success;
    cash = cash;
    after = c;
    returned = refl;
    unchanged = λ b j. equal refl;
  }
  query_component-Round only_security x cash c = query_shares-Round x cash c
  query_component-Round security_and_cash x cash c = query_shares-Round x cash c
  query_component-Round other_flag x cash c = query_shares-Round x cash c

  -- The first loop of `CreationQuery`, however it ends, meets no null pointer, and changes no counter of any holding
  -- of any account that is in the map or in the database.
  pub query_all-Unchanged :
      (xs : List (EtfComponent d.Double)) (cash : d.Double) (c : Cache)
      → (code : Code) × (c' : Cache) × (query_all d q account times xs cash c ≡ some (code, c'))
        × Unchanged q.world c c'
  unfolding query_all
  query_all-Unchanged [] cash c = (success, c, refl, λ b j. equal refl)
  query_all-Unchanged (x ∷ xs) cash c =
      let w = q.world in
      let r = query_component-Round x.substitute_flag x cash c in
      elim (Code-cases r.code) [
        | inr e ↦ (failure, r.after, rw (r.returned, query_all) (rw e refl), r.unchanged)
        | inl e ↦
            let (code, c', f, g) = query_all-Unchanged xs r.cash r.after in
            (
              code,
              c',
              rw (r.returned, query_all) (rw e f),
              λ b j.
                  Same-trans (known w b j c) (known w b j r.after) (known w b j c')
                    (r.unchanged b j) (g b j),
            )
      ]
