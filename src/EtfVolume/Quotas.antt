-- ===== src/EtfVolume/Quotas.antt =====
-- `FrozeCreation`, `DefrozeCreation`, `ConfirmCreation` and the same for redemption, of
-- `ETF_TradeVolume_Basket`. `Froze` and `Defroze` of the net counter leave `iRes` as it was, and the
-- test after it looks at the earlier code again.
use simutgw_src.Common.{
  Map, find, put, ℕ, String, Bool, ◌||◌, none, some, Code, success, failure, is_ok, ◌==◌, str_eq,
  if◌then◌else◌,
}
use simutgw_src.Volume
use simutgw_src.Volume.{FrozeVolume, of_max}
use simutgw_src.EtfVolume.{Quota, Basket}

-- `0 == in_num || in_sCustId.empty()`
abbrev pub nothing_to_do : ℕ → String → Bool
nothing_to_do n cust = (n == 0) || str_eq cust ""

-- The counter of a customer: the one in the map, or a new one with the whole limit.
abbrev pub user_volume : ℕ → String → Map FrozeVolume → FrozeVolume
user_volume limit cust m = elim (find cust m) [ none ↦ of_max limit | some v ↦ v ]

-- `Froze` on the counter of a customer.
unfoldable pub froze_user : ℕ → ℕ → String → Map FrozeVolume → Code × Map FrozeVolume
froze_user limit n cust m =
    let (code, _, v) = Volume.froze (user_volume limit cust m) n in (code, put cust v m)

-- `Defroze` or `Confirm` on the counter of a customer, who must be in the map.
unfoldable pub at_user :
    (FrozeVolume → Code × FrozeVolume) → String → Map FrozeVolume → Code × Map FrozeVolume
at_user f cust m = elim (find cust m) [
  | none ↦ (failure, m)
  | some v ↦ let (code, v') = f v in (code, put cust v' m)
]

abbrev pub release : ℕ → FrozeVolume → FrozeVolume
release n v = (Volume.defroze v n).1

-- The three rollbacks of a freeze, each with what the one before it does.
abbrev pub rollback_limit : ℕ → Quota → Quota
rollback_limit n q = record q { limit = release n q.limit }

abbrev pub rollback_users : ℕ → String → Quota → Quota
rollback_users n cust q =
    let q' = rollback_limit n q in
    if q.limit_per_user == 0
    then q'
    else record q' { users = (at_user (λ v. Volume.defroze v n) cust q.users).1 }

abbrev pub rollback_net : ℕ → String → Quota → Quota
rollback_net n cust q =
    let q' = rollback_users n cust q in record q' { net_limit = release n q.net_limit }

-- The last part of a freeze: the net counter of the customer.
unfoldable pub froze_net_user : ℕ → String → Quota → Code × Quota
unfolding froze_user at_user
froze_net_user n cust q =
    if q.net_limit_per_user == 0
    then (success, q)
    else (let (code, m) = froze_user q.net_limit_per_user n cust q.net_users in
        let q' = record q { net_users = m } in
        if is_ok code then (success, q') else (failure, rollback_net n cust q'))

-- The part before it: the net counter. `code` is `iRes`, which it does not set.
unfoldable pub froze_net : Code → ℕ → String → Quota → Code × Quota
unfolding froze_net_user at_user
froze_net code n cust q =
    let (_, _, v) = Volume.froze q.net_limit n in
    let q' = record q { net_limit = v } in
    if is_ok code then froze_net_user n cust q' else (failure, rollback_users n cust q')

-- And the part before that: the counter of the customer.
unfoldable pub froze_gross_user : Code → ℕ → String → Quota → Code × Quota
unfolding froze_net froze_user
froze_gross_user before n cust q =
    if q.limit_per_user == 0
    then froze_net before n cust q
    else (let (code, m) = froze_user q.limit_per_user n cust q.users in
        let q' = record q { users = m } in
        if is_ok code then froze_net code n cust q' else (failure, rollback_limit n q'))

unfoldable pub froze_quota : ℕ → String → Quota → Code × Quota
unfolding froze_gross_user
froze_quota n cust q =
    if nothing_to_do n cust
    then (success, q)
    else (let (code, _, v) = Volume.froze q.limit n in
        let q' = record q { limit = v } in
        if is_ok code then froze_gross_user code n cust q' else (failure, q'))

-- `Defroze…` and `Confirm…` have one shape: a method of every counter, in turn.
unfoldable pub at_net_user : (FrozeVolume → Code × FrozeVolume) → String → Quota → Code × Quota
unfolding at_user
at_net_user f cust q =
    if q.net_limit_per_user == 0
    then (success, q)
    else (let (code, m) = at_user f cust q.net_users in (code, record q { net_users = m }))

unfoldable pub at_net : Code → (FrozeVolume → Code × FrozeVolume) → String → Quota → Code × Quota
unfolding at_net_user
at_net code f cust q =
    let q' = record q { net_limit = (f q.net_limit).1 } in
    if is_ok code then at_net_user f cust q' else (failure, q')

unfoldable pub at_gross_user :
    Code → (FrozeVolume → Code × FrozeVolume) → String → Quota → Code × Quota
unfolding at_net at_user
at_gross_user before f cust q =
    if q.limit_per_user == 0
    then at_net before f cust q
    else (let (code, m) = at_user f cust q.users in
        let q' = record q { users = m } in
        if is_ok code then at_net code f cust q' else (failure, q'))

unfoldable pub at_quota : (FrozeVolume → Code × FrozeVolume) → ℕ → String → Quota → Code × Quota
unfolding at_gross_user
at_quota f n cust q =
    if nothing_to_do n cust
    then (success, q)
    else (let (code, v) = f q.limit in
        let q' = record q { limit = v } in
        if is_ok code then at_gross_user code f cust q' else (failure, q'))

-- The methods.
abbrev pub at_creation : (Quota → Code × Quota) → Basket → Code × Basket
at_creation f b = let (code, q) = f b.creation in (code, record b { creation = q })

abbrev pub at_redemption : (Quota → Code × Quota) → Basket → Code × Basket
at_redemption f b = let (code, q) = f b.redemption in (code, record b { redemption = q })

unfoldable pub froze_creation : ℕ → String → Basket → Code × Basket
unfolding froze_quota
froze_creation n cust b = at_creation (froze_quota n cust) b

unfoldable pub defroze_creation : ℕ → String → Basket → Code × Basket
unfolding at_quota
defroze_creation n cust b = at_creation (at_quota (λ v. Volume.defroze v n) n cust) b

unfoldable pub confirm_creation : ℕ → String → Basket → Code × Basket
unfolding at_quota
confirm_creation n cust b = at_creation (at_quota (λ v. Volume.confirm v n) n cust) b

unfoldable pub froze_redemption : ℕ → String → Basket → Code × Basket
unfolding froze_quota
froze_redemption n cust b = at_redemption (froze_quota n cust) b

unfoldable pub defroze_redemption : ℕ → String → Basket → Code × Basket
unfolding at_quota
defroze_redemption n cust b = at_redemption (at_quota (λ v. Volume.defroze v n) n cust) b

unfoldable pub confirm_redemption : ℕ → String → Basket → Code × Basket
unfolding at_quota
confirm_redemption n cust b = at_redemption (at_quota (λ v. Volume.confirm v n) n cust) b
