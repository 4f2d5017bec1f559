-- ===== src/Alerts.antt =====
-- Ban and cooldown alerts: the events (core/account_store/ban_event.hpp), how two states of an
-- account are compared (Diff), and the store of the events (Store).
pub mod Diff
pub mod DiffSelf
pub mod DiffKinds
pub mod Store
pub mod StorePush
pub mod StoreAck
pub mod StorePrune
pub mod StoreInvariant
pub mod Refresh
use steam_account_manager.Common.{ℕ, List}
use steam_account_manager.Common.Int.{ℤ}

pub data BanEventKind : Type 0 where
  new_vac_ban new_game_ban new_community_ban new_trade_ban new_vac_live : BanEventKind
  ban_removed cooldown_started cooldown_ended : BanEventKind

-- Times are seconds since 1970; a `std::string` is the list of its bytes.
pub record BanEvent : Type 0 where
  pub event_id : List ℕ
  pub account_id : List ℕ
  pub kind : BanEventKind
  pub detected_unix : ℤ
  pub ack_unix : ℤ
  pub before : ℤ
  pub after : ℤ
