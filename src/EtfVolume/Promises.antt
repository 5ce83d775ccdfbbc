-- ===== src/EtfVolume/Promises.antt =====
-- The methods of `ETF_TradeVolume_Basket` in turn: freeze and release, freeze and confirm.
use simutgw_src.Common.{
  Map, find-put, put, ℕ, String, ◌<◌, ◌≡◌, ◌≢◌, refl, inl, inr, false, Bool-cases, ==_iff, Code,
  success, failure, ◌==◌, arith,
}
use simutgw_src.Volume
use simutgw_src.Volume.{FrozeVolume, of_max}
use simutgw_src.Volume.Account.{Fits, total, Spent}
use simutgw_src.EtfVolume.{Quota, Basket}
use simutgw_src.EtfVolume.Quotas.{
  nothing_to_do, user_volume, froze_quota, at_quota, froze_creation, defroze_creation,
  confirm_creation, froze_redemption, defroze_redemption, confirm_redemption,
}
use simutgw_src.EtfVolume.Limits.{
  taken, taken_quota, settled_quota, settled_user, froze_quota-taken, at_quota-taken, Room, HasRoom,
  known, defroze_quota-froze_quota,
}

-- The two directions, with their quota and their methods.
pub data Direction : Type 0 where
  creating redeeming : Direction

abbrev pub quota_of : Direction → Basket → Quota
quota_of creating b = b.creation
quota_of redeeming b = b.redemption

abbrev pub froze_in : Direction → ℕ → String → Basket → Code × Basket
froze_in creating = froze_creation
froze_in redeeming = froze_redemption

abbrev pub defroze_in : Direction → ℕ → String → Basket → Code × Basket
defroze_in creating = defroze_creation
defroze_in redeeming = defroze_redemption

abbrev pub confirm_in : Direction → ℕ → String → Basket → Code × Basket
confirm_in creating = confirm_creation
confirm_in redeeming = confirm_redemption

-- The basket with counters for the customer, if they were missing.
abbrev pub known_in : Direction → String → Basket → Basket
known_in creating cust b = record b { creation = known cust b.creation }
known_in redeeming cust b = record b { redemption = known cust b.redemption }

-- For creation and for redemption: a freeze of a positive amount by a named customer, for whom there
-- is room in all and alone, gross and net, returns 0. A release of the same amount then returns 0 and
-- leaves the basket as it was, but for counters of the customer that the freeze has made, which hold
-- their whole limit.
pub defroze-froze_in :
    (d : Direction) (n : ℕ) (cust : String) (b : Basket)
    → nothing_to_do n cust ≡ false
    → HasRoom n cust (quota_of d b)
    → ((froze_in d n cust b).0 ≡ success)
      × (defroze_in d n cust (froze_in d n cust b).1 ≡ (success, known_in d cust b))
unfolding froze_creation defroze_creation froze_redemption defroze_redemption
defroze-froze_in creating n cust b h r = (
  rw (froze_quota-taken n cust b.creation h) refl,
  rw (froze_quota-taken n cust b.creation h)
      (rw (defroze_quota-froze_quota n cust b.creation h r) refl),
)
defroze-froze_in redeeming n cust b h r = (
  rw (froze_quota-taken n cust b.redemption h) refl,
  rw (froze_quota-taken n cust b.redemption h)
      (rw (defroze_quota-froze_quota n cust b.redemption h r) refl),
)

-- What a freeze and its confirmation have done to a quota: each counter that applies has lost `n`.
pub record Used (n : ℕ) (cust : String) (q q' : Quota) : Type 0 where
  pub limit : Spent q.limit n q'.limit
  pub net : Spent q.net_limit n q'.net_limit
  pub user :
      q.limit_per_user ≢ 0
      → Spent
          (user_volume q.limit_per_user cust q.users)
          n
          (user_volume q'.limit_per_user cust q'.users)
  pub net_user :
      q.net_limit_per_user ≢ 0
      → Spent
          (user_volume q.net_limit_per_user cust q.net_users)
          n
          (user_volume q'.net_limit_per_user cust q'.net_users)

abbrev confirm_by : ℕ → FrozeVolume → Code × FrozeVolume
confirm_by n v = Volume.confirm v n

spend :
    (n : ℕ) (v : FrozeVolume)
    → Room n v
    → ((confirm_by n (taken n v)).0 ≡ success) × Spent v n (confirm_by n (taken n v)).1
unfolding Volume.froze Volume.confirm
spend n v r = ground arith

user_volume-put :
    (limit : ℕ) (cust : String) (v : FrozeVolume) (m : Map FrozeVolume)
    → user_volume limit cust (put cust v m) ≡ v
user_volume-put limit cust v m = rw (find-put cust v m, user_volume) refl

spend_user :
    (limit n : ℕ) (cust : String) (m : Map FrozeVolume)
    → (limit ≢ 0 → Room n (user_volume limit cust m))
    → limit ≢ 0
    → Spent
        (user_volume limit cust m)
        n
        (user_volume limit cust (settled_user (confirm_by n) limit n cust m))
spend_user limit n cust m r z = elim (Bool-cases (limit == 0)) [
  | inl a ↦ absurd (z ((==_iff limit 0).0 a))
  | inr a ↦ rw a (
      rw (user_volume-put limit cust (confirm_by n (taken n (user_volume limit cust m))).1 m)
        (spend n (user_volume limit cust m) (r z)).1)
]

confirm_quota-froze_quota :
    (n : ℕ) (cust : String) (q : Quota)
    → nothing_to_do n cust ≡ false
    → HasRoom n cust q
    → (at_quota (confirm_by n) n cust (taken_quota n cust q)
        ≡ (success, settled_quota (confirm_by n) n cust q))
      × Used n cust q (settled_quota (confirm_by n) n cust q)
confirm_quota-froze_quota n cust q h r = (
  at_quota-taken (confirm_by n) n cust q h (spend n q.limit r.limit).0
      (λ z. (spend n (user_volume q.limit_per_user cust q.users) (r.user z)).0)
      (λ z. (spend n (user_volume q.net_limit_per_user cust q.net_users) (r.net_user z)).0),
  record {
    limit = (spend n q.limit r.limit).1;
    net = (spend n q.net_limit r.net).1;
    user = spend_user q.limit_per_user n cust q.users r.user;
    net_user = spend_user q.net_limit_per_user n cust q.net_users r.net_user;
  },
)

-- For creation and for redemption: a freeze of a positive amount by a named customer, for whom there
-- is room in all and alone, gross and net, is followed by a confirmation of the same amount, which
-- returns 0; each counter that applies has lost the amount and has no more frozen than before.
pub confirm-froze_in :
    (d : Direction) (n : ℕ) (cust : String) (b : Basket)
    → nothing_to_do n cust ≡ false
    → HasRoom n cust (quota_of d b)
    → ((confirm_in d n cust (froze_in d n cust b).1).0 ≡ success)
      × Used n cust (quota_of d b) (quota_of d (confirm_in d n cust (froze_in d n cust b).1).1)
unfolding froze_creation confirm_creation froze_redemption confirm_redemption
confirm-froze_in creating n cust b h r =
    let (e, u) = confirm_quota-froze_quota n cust b.creation h r in
    rw (froze_quota-taken n cust b.creation h) (rw e (refl, u))
confirm-froze_in redeeming n cust b h r =
    let (e, u) = confirm_quota-froze_quota n cust b.redemption h r in
    rw (froze_quota-taken n cust b.redemption h) (rw e (refl, u))

froze_quota-success : (n : ℕ) (cust : String) (q : Quota) → (froze_quota n cust q).0 ≡ success
unfolding froze_quota
froze_quota-success n cust q = elim (Bool-cases (nothing_to_do n cust)) [
  | inl a ↦ rw (a, froze_quota) refl
  | inr a ↦ rw (froze_quota-taken n cust q a) refl
]

-- A freeze never fails, whatever the limits: it returns 0, for creation and for redemption.
pub froze_in-success :
    (d : Direction) (n : ℕ) (cust : String) (b : Basket) → (froze_in d n cust b).0 ≡ success
unfolding froze_creation froze_redemption
froze_in-success creating n cust b = froze_quota-success n cust b.creation
froze_in-success redeeming n cust b = froze_quota-success n cust b.redemption

over_limit :
    (n : ℕ) (cust : String) (q : Quota)
    → nothing_to_do n cust ≡ false
    → Fits q.limit
    → total q.limit < n
    → (at_quota (confirm_by n) n cust (taken_quota n cust q)).0 ≡ failure
unfolding at_quota Volume.froze Volume.confirm
over_limit n cust q h f l =
    let c : (confirm_by n (taken n q.limit)).0 ≡ failure = ground arith in rw h (rw c refl)

-- For creation and for redemption, and a counter of all customers that fits 64 bits: an amount beyond
-- what it holds, free and frozen, is refused a named customer by the confirmation, which returns -1,
-- after the freeze has granted it. This is so also for a counter of the limit 0, which holds nothing,
-- though the comments of the source say that a limit of 0 stands for no limit.
pub confirm-froze_in-Over :
    (d : Direction) (n : ℕ) (cust : String) (b : Basket)
    → nothing_to_do n cust ≡ false
    → Fits (quota_of d b).limit
    → total (quota_of d b).limit < n
    → ((froze_in d n cust b).0 ≡ success)
      × ((confirm_in d n cust (froze_in d n cust b).1).0 ≡ failure)
unfolding froze_creation confirm_creation froze_redemption confirm_redemption
confirm-froze_in-Over creating n cust b h f l = (
  froze_quota-success n cust b.creation,
  rw (froze_quota-taken n cust b.creation h) (over_limit n cust b.creation h f l),
)
confirm-froze_in-Over redeeming n cust b h f l = (
  froze_quota-success n cust b.redemption,
  rw (froze_quota-taken n cust b.redemption h) (over_limit n cust b.redemption h f l),
)
