-- ===== src/Accounts.antt =====
-- core/account_store/: the accounts of a vault, as far as the filter reads them.
pub mod Filter
pub mod Order
pub mod Sorted
use steam_account_manager.Common.{ℕ, List, Bool}
use steam_account_manager.Common.Int.{ℤ}

pub data TrustLabel : Type 0 where
  unset green yellow red : TrustLabel

pub data NfaTokenStatus : Type 0 where
  unknown valid revoked : NfaTokenStatus

pub record WebProfile : Type 0 where
  pub persona_name : List ℕ
  pub steam_level : ℤ

pub record Bans : Type 0 where
  pub community_banned : Bool
  pub vac_banned : Bool
  pub game_ban_count : ℤ
  pub economy_ban : List ℕ

pub record Cs2 : Type 0 where
  pub premier_rating : ℤ
  pub cs2_player_level : ℤ
  pub cs2_player_xp : ℤ
  pub prime_status : Bool
  pub cooldown_expires_unix : ℤ
  pub weekly_drop_reset_unix : ℤ

-- `Account`; `has_sda` is `sda.has_value()`, `total_spend_usd_cents` a field of its `funds`.
pub record Account : Type 0 where
  pub login : List ℕ
  pub has_sda : Bool
  pub nfa_status : NfaTokenStatus
  pub display_name : List ℕ
  pub notes : List ℕ
  pub tag_ids : List (List ℕ)
  pub trust : TrustLabel
  pub last_login_unix : ℤ
  pub created_unix : ℤ
  pub web : WebProfile
  pub bans : Bans
  pub cs2 : Cs2
  pub total_spend_usd_cents : ℤ
