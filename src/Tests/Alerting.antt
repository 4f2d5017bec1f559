-- ===== src/Tests/Alerting.antt =====
-- Runs of core/account_store/ban_diff.cpp and core/notifications/notification_store.cpp.
use steam_account_manager.Common.{List, [], ◌∷◌, ◌≡◌, true, false, refl, arith}
use steam_account_manager.Common.Int.{pos}
use steam_account_manager.Codec.Base64.{codes}
use steam_account_manager.Alerts.{BanEvent, BanEventKind}
use steam_account_manager.Alerts.Diff.{snapshot_from, BanStatus, Cs2Status, PreviousSnapshot}
use steam_account_manager.Alerts.Diff.{diff_account_state}
use steam_account_manager.Alerts.Refresh.{
  NotificationToggles, Watch, apply_diff_and_snapshot, Reported, pushed,
  apply_diff_and_snapshot-again, apply_diff_and_snapshot-store,
}
use steam_account_manager.Alerts.Store.{NotificationStore, prune_older_than}
use steam_account_manager.Alerts.StorePrune.{prune_older_than-Prunes, Prunes}
use steam_account_manager.Alerts.StoreInvariant.{
  apply_all, Command, pushes, acks, acks_all, prunes, loads, sets_path,
}

abbrev banned : BanEvent
banned = record {
  event_id = codes "evt-1";
  account_id = codes "a";
  kind = BanEventKind.new_vac_ban;
  detected_unix = pos 100;
  ack_unix = pos 0;
  before = pos 0;
  after = pos 1;
}

abbrev cooled : BanEvent
cooled = record banned {
  event_id = codes "evt-2";
  account_id = codes "b";
  detected_unix = pos 200000;
}

abbrev store : NotificationStore
store = record { events = banned ∷ cooled ∷ []; has_path = true; file = banned ∷ cooled ∷ [] }

abbrev commands : List Command
commands =
    sets_path true (cooled ∷ banned ∷ [])
    ∷ loads true
    ∷ pushes banned
    ∷ acks (pos 5) (codes "evt-2")
    ∷ acks_all (pos 6) (codes "a")
    ∷ prunes (pos 1) (pos 200000)
    ∷ []

prune_older_than-Prunes_example :
    let (s', removed) = prune_older_than store (pos 1) (pos 200000) in
    Prunes (pos 1) (pos 200000) store.events s'.events removed
prune_older_than-Prunes_example = prune_older_than-Prunes store (pos 1) (pos 200000)

abbrev bans : BanStatus
bans = record {
  community_banned = false;
  vac_ban_count = pos 1;
  game_ban_count = pos 0;
  economy_ban = codes "probation";
}

abbrev cs2 : Cs2Status
cs2 = record { vac_live = true; cooldown_expires_unix = pos 500 }

abbrev before : PreviousSnapshot
before = record {
  vac_ban_count = pos 0;
  game_ban_count = pos 1;
  community_banned = true;
  economy_ban = codes "none";
  vac_live = false;
  cooldown_expires_unix = pos 0;
  snapshot_unix = pos 50;
}

abbrev toggles : NotificationToggles
toggles = record {
  enabled = true;
  on_new_vac_ban = true;
  on_new_game_ban = true;
  on_new_community_ban = true;
  on_new_trade_ban = false;
  on_new_vac_live = true;
  on_ban_removed = true;
  on_cooldown_started = true;
  on_cooldown_ended = true;
}

abbrev watch : Watch
watch = record { notifications = store; counter = 7; prev_snapshot = before }

apply_diff_and_snapshot-again_example :
    let w' = (apply_diff_and_snapshot toggles (codes "a") watch bans cs2 (pos 100)).0 in
    (apply_diff_and_snapshot toggles (codes "a") w' bans cs2 (pos 200)).1 ≡ []
apply_diff_and_snapshot-again_example =
    apply_diff_and_snapshot-again toggles toggles (codes "a") watch bans cs2 (pos 100) (pos 200)
      (omega arith) refl

apply_diff_and_snapshot-store_example :
    let (w', persisted) = apply_diff_and_snapshot toggles (codes "a") watch bans cs2 (pos 100) in
    let (events, counter') = diff_account_state 7 (codes "a") before bans cs2 (pos 100) in
    Reported toggles events persisted
    × (w'.notifications ≡ apply_all store (pushed persisted))
    × (w'.counter ≡ counter')
    × (w'.prev_snapshot ≡ record (snapshot_from bans cs2) { snapshot_unix = pos 100 })
apply_diff_and_snapshot-store_example =
    apply_diff_and_snapshot-store toggles (codes "a") watch bans cs2 (pos 100) refl
