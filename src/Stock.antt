-- ===== src/Stock.antt =====
-- `class UserStockVolume` (shared_src/cache/UserStockVolume.{h,cpp}): the shares that an account
-- holds of one security, in seven counters. The first is the account's balance; the others say
-- where the shares come from, and so what they may be used for. Every order that uses shares freezes
-- them from two sources, and freezes the balance by the same amount.
-- The class locks nothing itself; its callers hold the mutex of the map of accounts.
pub mod Sell
pub mod SellEtf
pub mod Creation
pub mod Redemption
pub mod Increase
pub mod Uses
pub mod Parts
pub mod Outcomes
pub mod Split
pub mod Rollback
pub mod Release
pub mod Settle
pub mod Credit
pub mod Synced
mod Examples
use simutgw_src.Common.{
  ℕ, Bool, true, false, Code, success, failure, is_ok, sub64, ltb, ◌==◌, if◌then◌else◌,
}
use simutgw_src.Volume
use simutgw_src.Volume.{FrozeVolume}

pub record UserStockVolume : Type 0 where
  pub stored : Bool
  pub stk_balance : FrozeVolume
  pub stk_act_pch_balance : FrozeVolume
  pub stk_stp_pch_balance : FrozeVolume
  pub stk_etf_rdp_balance : FrozeVolume
  pub stk_crt_balance : FrozeVolume
  pub stk_avl_balance : FrozeVolume
  pub stk_last_balance : FrozeVolume
  pub last_access_time : ℕ
  pub time_interval : ℕ
  pub expire : Bool

-- The constructor with the balances read from the database, at time `now`. Each counter is
-- default-constructed and then given its volume by `Init`.
unfoldable pub load : ℕ → Bool → ℕ → ℕ → ℕ → ℕ → ℕ → ℕ → ℕ → ℕ → UserStockVolume
unfolding Volume.init
load now stored balance act_pch stp_pch etf_rdp crt avl last interval = record {
  stored = stored;
  stk_balance = Volume.init Volume.empty balance;
  stk_act_pch_balance = Volume.init Volume.empty act_pch;
  stk_stp_pch_balance = Volume.init Volume.empty stp_pch;
  stk_etf_rdp_balance = Volume.init Volume.empty etf_rdp;
  stk_crt_balance = Volume.init Volume.empty crt;
  stk_avl_balance = Volume.init Volume.empty avl;
  stk_last_balance = Volume.init Volume.empty last;
  last_access_time = now;
  time_interval = interval;
  expire = false;
}

-- `IsExpired`, at time `now` (an `unsigned long` of 64 bits). The last assignment is outside the `if`.
unfoldable pub is_expired : ℕ → UserStockVolume → Bool × UserStockVolume
is_expired now s =
    let s1 =
      if ltb (sub64 now s.last_access_time) s.time_interval
      then record s { last_access_time = now; expire = false }
      else s in
    (true, record s1 { expire = true })

-- A method that returns a code, as a step on the state.
abbrev pub Action : Type 0
Action = UserStockVolume → Code × UserStockVolume

-- `if (0 != iRes) return -1;` after a step, then the rest.
infixl 5 ◌>>◌
abbrev pub ◌>>◌ : Action → Action → Action
◌>>◌ m k s = let (code, s') = m s in if is_ok code then k s' else (failure, s')

-- `if (0 != n) { … }`
abbrev pub unless_zero : ℕ → Action → Action
unless_zero n m s = if n == 0 then (success, s) else m s

-- A step whose code nobody looks at.
abbrev pub ignoring : Action → Action
ignoring m s = (success, (m s).1)

-- A method of one counter, as a step of the whole.
abbrev pub at_stk : (FrozeVolume → Code × FrozeVolume) → Action
at_stk f s = let (code, v) = f s.stk_balance in (code, record s { stk_balance = v })

abbrev pub at_act : (FrozeVolume → Code × FrozeVolume) → Action
at_act f s = let (code, v) = f s.stk_act_pch_balance in (code, record s { stk_act_pch_balance = v })

abbrev pub at_rdp : (FrozeVolume → Code × FrozeVolume) → Action
at_rdp f s = let (code, v) = f s.stk_etf_rdp_balance in (code, record s { stk_etf_rdp_balance = v })

abbrev pub at_crt : (FrozeVolume → Code × FrozeVolume) → Action
at_crt f s = let (code, v) = f s.stk_crt_balance in (code, record s { stk_crt_balance = v })

abbrev pub at_avl : (FrozeVolume → Code × FrozeVolume) → Action
at_avl f s = let (code, v) = f s.stk_avl_balance in (code, record s { stk_avl_balance = v })

-- `Defroze` and `Confirm` by an amount.
abbrev pub defroze_by : ℕ → FrozeVolume → Code × FrozeVolume
defroze_by n v = Volume.defroze v n

abbrev pub confirm_by : ℕ → FrozeVolume → Code × FrozeVolume
confirm_by n v = Volume.confirm v n

-- The call of `IsExpired` with which most methods begin; its result is not looked at.
abbrev pub visit : ℕ → UserStockVolume → UserStockVolume
visit now s = (is_expired now s).1

abbrev pub touch : ℕ → Action
touch now s = (success, visit now s)

-- `FrozeStkBalance` looks at the code of `Froze`, not at the amount.
unfoldable pub froze_stk_balance : ℕ → Action
froze_stk_balance n s =
    let (code, _, v) = Volume.froze s.stk_balance n in
    (if is_ok code then success else failure, record s { stk_balance = v })

unfoldable pub defroze_stk_balance : ℕ → Action
defroze_stk_balance n s =
    let (code, v) = Volume.defroze s.stk_balance n in
    (if is_ok code then success else failure, record s { stk_balance = v })
