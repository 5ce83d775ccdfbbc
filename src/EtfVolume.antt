-- ===== src/EtfVolume.antt =====
-- `ETF_TradeVolume_Basket` and `ETF_TradeVolume` (shared_src/etf/): how much of each ETF may be created
-- and redeemed in a day, in all and by one customer, gross and net. The members of the basket for
-- creation and for redemption are the same but for their names, so they are two records `Quota`.
-- A `std::map` is a list of pairs; no key stands in it twice.
pub mod Quotas
pub mod Table
pub mod Limits
pub mod Promises
pub mod Isolation
pub mod Keys
mod Examples
use simutgw_src.Common.{
  Map, ℕ, String, Bool, true, false, Option, none, some, List, [], ◌∷◌, str_eq, if◌then◌else◌,
}
use simutgw_src.Volume.{FrozeVolume, of_max}

-- One direction: `m_CreationLimit`, `m_ui64CreationLimitPerUser`, `m_CreationLimitPerUser`,
-- `m_NetCreationLimit`, `m_ui64NetCreationLimitPerUser` and `m_NetCreationLimitPerUser`.
pub record Quota : Type 0 where
  pub limit : FrozeVolume
  pub limit_per_user : ℕ
  pub users : Map FrozeVolume
  pub net_limit : FrozeVolume
  pub net_limit_per_user : ℕ
  pub net_users : Map FrozeVolume

-- The limits that nothing reads again, `m_ui64CreationLimit` and the like, are left out.
pub record Basket : Type 0 where
  pub creation : Quota
  pub redemption : Quota

-- The limits of `SzETF` that the constructor takes.
pub record SzEtf : Type 0 where
  pub creation_limit : ℕ
  pub redemption_limit : ℕ
  pub creation_limit_per_user : ℕ
  pub redemption_limit_per_user : ℕ
  pub net_creation_limit : ℕ
  pub net_redemption_limit : ℕ
  pub net_creation_limit_per_user : ℕ
  pub net_redemption_limit_per_user : ℕ

abbrev pub new_quota : ℕ → ℕ → ℕ → ℕ → Quota
new_quota limit per_user net net_per_user = record {
  limit = of_max limit;
  limit_per_user = per_user;
  users = [];
  net_limit = of_max net;
  net_limit_per_user = net_per_user;
  net_users = [];
}

abbrev pub new_basket : SzEtf → Basket
new_basket e = record {
  creation =
      new_quota e.creation_limit e.creation_limit_per_user e.net_creation_limit
        e.net_creation_limit_per_user;
  redemption =
      new_quota e.redemption_limit e.redemption_limit_per_user e.net_redemption_limit
        e.net_redemption_limit_per_user;
}

-- The constructor without arguments.
abbrev pub empty_basket : Basket
empty_basket = record { creation = new_quota 0 0 0 0; redemption = new_quota 0 0 0 0 }
