-- ===== src/EtfVolume/Limits.antt =====
-- What the limits of one direction of a basket promise, and what they do not.
use simutgw_src.Common.{
  Map, find-put, put, put-put, ℕ, String, ◌≤◌, ◌≡◌, ◌≢◌, refl, ap, ◌∙◌, inl, inr, false,
  if◌then◌else◌, Bool-cases, Code, success, ◌==◌, arith,
}
use simutgw_src.Volume
use simutgw_src.Volume.{FrozeVolume, of_max}
use simutgw_src.Volume.Account.{Fits}
use simutgw_src.EtfVolume.{Quota}
use simutgw_src.EtfVolume.Quotas.{nothing_to_do, user_volume, at_user, froze_quota, at_quota}

-- A counter after a freeze, and the counters of a customer.
abbrev pub taken : ℕ → FrozeVolume → FrozeVolume
taken n v = (Volume.froze v n).2

abbrev pub taken_user : ℕ → ℕ → String → Map FrozeVolume → Map FrozeVolume
taken_user limit n cust m =
    if limit == 0 then m else put cust (taken n (user_volume limit cust m)) m

abbrev pub taken_quota : ℕ → String → Quota → Quota
taken_quota n cust q = record q {
  limit = taken n q.limit;
  users = taken_user q.limit_per_user n cust q.users;
  net_limit = taken n q.net_limit;
  net_users = taken_user q.net_limit_per_user n cust q.net_users;
}

-- The same counters after a freeze and a method `f`.
abbrev pub settled_user :
    (FrozeVolume → Code × FrozeVolume) → ℕ → ℕ → String → Map FrozeVolume → Map FrozeVolume
settled_user f limit n cust m =
    if limit == 0 then m else put cust (f (taken n (user_volume limit cust m))).1 m

abbrev pub settled_quota : (FrozeVolume → Code × FrozeVolume) → ℕ → String → Quota → Quota
settled_quota f n cust q = record q {
  limit = (f (taken n q.limit)).1;
  users = settled_user f q.limit_per_user n cust q.users;
  net_limit = (f (taken n q.net_limit)).1;
  net_users = settled_user f q.net_limit_per_user n cust q.net_users;
}

pub froze_quota-taken :
    (n : ℕ) (cust : String) (q : Quota)
    → nothing_to_do n cust ≡ false
    → froze_quota n cust q ≡ (success, taken_quota n cust q)
unfolding froze_quota Volume.froze
froze_quota-taken n cust q h = elim (Bool-cases (q.limit_per_user == 0)) [
  | inl a ↦ elim (Bool-cases (q.net_limit_per_user == 0)) [
    | inl b ↦ rw h (rw a (rw b refl))
    | inr b ↦ rw h (rw a (rw b refl))
  ]
  | inr a ↦ elim (Bool-cases (q.net_limit_per_user == 0)) [
    | inl b ↦ rw h (rw a (rw b refl))
    | inr b ↦ rw h (rw a (rw b refl))
  ]
]

pub not_zero : (n : ℕ) → (n == 0) ≡ false → n ≢ 0
not_zero n h = ground arith

pub at_user-put :
    (f : FrozeVolume → Code × FrozeVolume) (cust : String) (v : FrozeVolume) (m : Map FrozeVolume)
    → (f v).0 ≡ success
    → at_user f cust (put cust v m) ≡ (success, put cust (f v).1 m)
unfolding at_user
at_user-put f cust v m h =
    rw (find-put cust v m, at_user) (rw h (ap (λ l. (success, l)) (put-put cust (f v).1 v m)))

-- A method that is content with what the freeze did to each counter that decides.
pub at_quota-taken :
    (f : FrozeVolume → Code × FrozeVolume) (n : ℕ) (cust : String) (q : Quota)
    → nothing_to_do n cust ≡ false
    → (f (taken n q.limit)).0 ≡ success
    → (q.limit_per_user ≢ 0 → (f (taken n (user_volume q.limit_per_user cust q.users))).0 ≡ success)
    → (q.net_limit_per_user ≢ 0
        → (f (taken n (user_volume q.net_limit_per_user cust q.net_users))).0 ≡ success)
    → at_quota f n cust (taken_quota n cust q) ≡ (success, settled_quota f n cust q)
unfolding at_quota
at_quota-taken f n cust q h l u v =
    let us = at_user-put f cust (taken n (user_volume q.limit_per_user cust q.users)) q.users in
    let vs =
      at_user-put f cust (taken n (user_volume q.net_limit_per_user cust q.net_users))
        q.net_users in
    elim (Bool-cases (q.limit_per_user == 0)) [
      | inl a ↦ elim (Bool-cases (q.net_limit_per_user == 0)) [
        | inl b ↦ rw h (rw l (rw a (rw b refl)))
        | inr b ↦ rw h (rw l (rw a (rw b (rw (vs (v (not_zero q.net_limit_per_user b))) refl))))
      ]
      | inr a ↦ elim (Bool-cases (q.net_limit_per_user == 0)) [
        | inl b ↦ rw h (rw l (rw a (rw b (rw (us (u (not_zero q.limit_per_user a))) refl))))
        | inr b ↦ rw h (
            rw l (
              rw a (
                rw b (
                  rw (us (u (not_zero q.limit_per_user a)))
                    (rw (vs (v (not_zero q.net_limit_per_user b))) refl)))))
      ]
    ]

-- There is room for `n` more.
abbrev pub Room : ℕ → FrozeVolume → Type 0
Room n v = Fits v × (n ≤ v.un_froze_volume)

-- And in each counter that applies: a limit of 0 for one customer means none.
pub record HasRoom (n : ℕ) (cust : String) (q : Quota) : Type 0 where
  pub limit : Room n q.limit
  pub user : q.limit_per_user ≢ 0 → Room n (user_volume q.limit_per_user cust q.users)
  pub net : Room n q.net_limit
  pub net_user :
      q.net_limit_per_user ≢ 0 → Room n (user_volume q.net_limit_per_user cust q.net_users)

-- The quota with counters for the customer, if they were missing.
abbrev pub known_user : ℕ → String → Map FrozeVolume → Map FrozeVolume
known_user limit cust m = if limit == 0 then m else put cust (user_volume limit cust m) m

abbrev pub known : String → Quota → Quota
known cust q = record q {
  users = known_user q.limit_per_user cust q.users;
  net_users = known_user q.net_limit_per_user cust q.net_users;
}

give_back : (n : ℕ) (v : FrozeVolume) → Room n v → (Volume.defroze (taken n v) n).1 ≡ v
unfolding Volume.froze Volume.defroze
give_back n v r = ground arith

abbrev pub defroze_by : ℕ → FrozeVolume → Code × FrozeVolume
defroze_by n v = Volume.defroze v n

settled_user-known :
    (limit n : ℕ) (cust : String) (m : Map FrozeVolume)
    → (limit ≢ 0 → Room n (user_volume limit cust m))
    → settled_user (defroze_by n) limit n cust m ≡ known_user limit cust m
settled_user-known limit n cust m r = elim (Bool-cases (limit == 0)) [
  | inl a ↦ rw a refl
  | inr a ↦
      rw a (ap (λ v. put cust v m) (give_back n (user_volume limit cust m) (r (not_zero limit a))))
]

pub defroze_quota-froze_quota :
    (n : ℕ) (cust : String) (q : Quota)
    → nothing_to_do n cust ≡ false
    → HasRoom n cust q
    → at_quota (defroze_by n) n cust (taken_quota n cust q) ≡ (success, known cust q)
unfolding Volume.defroze
defroze_quota-froze_quota n cust q h r =
    at_quota-taken (defroze_by n) n cust q h refl (λ z. refl) (λ z. refl)
    ∙ rw (give_back n q.limit r.limit) (
        rw (give_back n q.net_limit r.net) (
          rw (settled_user-known q.limit_per_user n cust q.users r.user)
            (rw (settled_user-known q.net_limit_per_user n cust q.net_users r.net_user) refl)))
