-- ===== src/EtfVolume/Isolation.antt =====
-- What one customer does is not seen in another's counters; and what the key of the table does.
use simutgw_src.Common.{
  Map, find, find-put-other, ℕ, String, ◌≡◌, ◌≢◌, refl, ◌∙◌, inl, inr, Bool-cases, Option-cases,
  Code, success, failure, Code-cases, ◌==◌,
}
use simutgw_src.Volume
use simutgw_src.Volume.{FrozeVolume}
use simutgw_src.EtfVolume.{Quota, Basket}
use simutgw_src.EtfVolume.Quotas.{
  nothing_to_do, user_volume, at_user, at_quota, at_net_user, at_net, at_gross_user, froze_quota,
  froze_creation, defroze_creation, confirm_creation, froze_redemption, defroze_redemption,
  confirm_redemption,
}
use simutgw_src.EtfVolume.Limits.{taken, taken_user, froze_quota-taken}
use simutgw_src.EtfVolume.Promises.{
  Direction, creating, redeeming, quota_of, froze_in, defroze_in, confirm_in,
}

-- The counters of a customer are the same in two quotas.
abbrev pub SameUser : String → Quota → Quota → Type 0
SameUser other q q' =
    (find other q'.users ≡ find other q.users) × (find other q'.net_users ≡ find other q.net_users)

at_user-other :
    (f : FrozeVolume → Code × FrozeVolume) (other cust : String) (m : Map FrozeVolume)
    → other ≢ cust
    → find other (at_user f cust m).1 ≡ find other m
unfolding at_user
at_user-other f other cust m h = elim (Option-cases (find cust m)) [
  | inl e ↦ rw (e, at_user) refl
  | inr (v, e) ↦ rw (e, at_user) (find-put-other other cust (f v).1 m h)
]

at_net_user-other :
    (f : FrozeVolume → Code × FrozeVolume) (other cust : String) (q : Quota)
    → other ≢ cust
    → SameUser other q (at_net_user f cust q).1
unfolding at_net_user
at_net_user-other f other cust q h = elim (Bool-cases (q.net_limit_per_user == 0)) [
  | inl a ↦ rw (a, at_net_user) (refl, refl)
  | inr a ↦ rw (a, at_net_user) (refl, at_user-other f other cust q.net_users h)
]

at_net-other :
    (code : Code) (f : FrozeVolume → Code × FrozeVolume) (other cust : String) (q : Quota)
    → other ≢ cust
    → SameUser other q (at_net code f cust q).1
unfolding at_net
at_net-other success f other cust q h =
    at_net_user-other f other cust (record q { net_limit = (f q.net_limit).1 }) h
at_net-other failure f other cust q h = (refl, refl)

at_gross_user-other :
    (code : Code) (f : FrozeVolume → Code × FrozeVolume) (other cust : String) (q : Quota)
    → other ≢ cust
    → SameUser other q (at_gross_user code f cust q).1
unfolding at_gross_user
at_gross_user-other code f other cust q h = elim (Bool-cases (q.limit_per_user == 0)) [
  | inl a ↦ rw (a, at_gross_user) (at_net-other code f other cust q h)
  | inr a ↦
      let r = at_user f cust q.users in
      let q' = record q { users = r.1 } in
      let same = at_user-other f other cust q.users h in
      elim (Code-cases r.0) [
        | inl c ↦
            let t = at_net-other success f other cust q' h in
            rw (a, at_gross_user) (rw c (t.0 ∙ same, t.1))
        | inr c ↦ rw (a, at_gross_user) (rw c (same, refl))
      ]
]

at_quota-other :
    (f : FrozeVolume → Code × FrozeVolume) (n : ℕ) (other cust : String) (q : Quota)
    → other ≢ cust
    → SameUser other q (at_quota f n cust q).1
unfolding at_quota
at_quota-other f n other cust q h = elim (Bool-cases (nothing_to_do n cust)) [
  | inl a ↦ rw a (refl, refl)
  | inr a ↦ elim (Code-cases (f q.limit).0) [
    | inl c ↦
        rw a
          (rw c (at_gross_user-other success f other cust (record q { limit = (f q.limit).1 }) h))
    | inr c ↦ rw a (rw c (refl, refl))
  ]
]

taken_user-other :
    (limit n : ℕ) (other cust : String) (m : Map FrozeVolume)
    → other ≢ cust
    → find other (taken_user limit n cust m) ≡ find other m
taken_user-other limit n other cust m h = elim (Bool-cases (limit == 0)) [
  | inl a ↦ rw a refl
  | inr a ↦ rw a (find-put-other other cust (taken n (user_volume limit cust m)) m h)
]

froze_quota-other :
    (n : ℕ) (other cust : String) (q : Quota)
    → other ≢ cust
    → SameUser other q (froze_quota n cust q).1
unfolding froze_quota
froze_quota-other n other cust q h = elim (Bool-cases (nothing_to_do n cust)) [
  | inl a ↦ rw a (refl, refl)
  | inr a ↦ rw (froze_quota-taken n cust q a) (
    taken_user-other q.limit_per_user n other cust q.users h,
    taken_user-other q.net_limit_per_user n other cust q.net_users h,
  )
]

-- The other direction.
abbrev pub opposite : Direction → Direction
opposite creating = redeeming
opposite redeeming = creating

-- No freeze, release or confirmation for one customer changes the counters of another, whether it
-- succeeds or fails, and none for creation changes the quota for redemption, nor the other way round.
pub methods-SameUser :
    (d : Direction) (n : ℕ) (other cust : String) (b : Basket)
    → other ≢ cust
    → SameUser other (quota_of d b) (quota_of d (froze_in d n cust b).1)
      × SameUser other (quota_of d b) (quota_of d (defroze_in d n cust b).1)
      × SameUser other (quota_of d b) (quota_of d (confirm_in d n cust b).1)
      × (quota_of (opposite d) (froze_in d n cust b).1 ≡ quota_of (opposite d) b)
      × (quota_of (opposite d) (defroze_in d n cust b).1 ≡ quota_of (opposite d) b)
      × (quota_of (opposite d) (confirm_in d n cust b).1 ≡ quota_of (opposite d) b)
unfolding froze_creation defroze_creation confirm_creation froze_redemption defroze_redemption
    confirm_redemption
methods-SameUser creating n other cust b h = (
  froze_quota-other n other cust b.creation h,
  at_quota-other (λ v. Volume.defroze v n) n other cust b.creation h,
  at_quota-other (λ v. Volume.confirm v n) n other cust b.creation h,
  refl,
  refl,
  refl,
)
methods-SameUser redeeming n other cust b h = (
  froze_quota-other n other cust b.redemption h,
  at_quota-other (λ v. Volume.defroze v n) n other cust b.redemption h,
  at_quota-other (λ v. Volume.confirm v n) n other cust b.redemption h,
  refl,
  refl,
  refl,
)
