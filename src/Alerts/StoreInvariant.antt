-- ===== src/Alerts/StoreInvariant.antt =====
-- core/notifications/notification_store.cpp: what every sequence of its operations preserves.
use steam_account_manager.Common.{ℕ, ◌≤◌, List, [], ◌∷◌, Bool, true, false, ◌||◌, leb, length, ◌≡◌}
use steam_account_manager.Common.Int.{ℤ}
use steam_account_manager.Alerts.{BanEvent}
use steam_account_manager.Alerts.Store.{
  NotificationStore, max_events, set_path, load, push, prune_older_than, acknowledge,
  acknowledge_all_for,
}

-- The calls that change a store, with their arguments and what they find on the disk.
pub data Command : Type 0 where
  pushes : BanEvent → Command
  acks : ℤ → List ℕ → Command
  acks_all : ℤ → List ℕ → Command
  prunes : ℤ → ℤ → Command
  loads : Bool → Command
  sets_path : Bool → List BanEvent → Command

unfoldable pub apply : NotificationStore → Command → NotificationStore
apply s (pushes event) = push s event
apply s (acks now event_id) = acknowledge s now event_id
apply s (acks_all now account_id) = acknowledge_all_for s now account_id
apply s (prunes days now) = let (s', removed) = prune_older_than s days now in s'
apply s (loads readable) = load s readable
apply s (sets_path has_path file) = set_path s has_path file

unfoldable pub apply_all : NotificationStore → List Command → NotificationStore
apply_all s [] = s
apply_all s (c ∷ cs) = apply_all (apply s c) cs

-- What is on disk is what is in memory, when the store has a file.
unfoldable pub IsSaved : NotificationStore → Type 0
IsSaved s = s.has_path ≡ true → s.file ≡ s.events

-- Whether memory and file agree after a call, if they agreed before it exactly where `agreed` says so.
unfoldable pub agrees : Bool → Command → Bool
agrees agreed (pushes event) = true
agrees agreed (acks now event_id) = agreed
agrees agreed (acks_all now account_id) = agreed
agrees agreed (prunes days now) = agreed
agrees agreed (loads readable) = readable || agreed
agrees agreed (sets_path has_path file) = false

unfoldable pub all_agree : Bool → List Command → Bool
all_agree agreed [] = agreed
all_agree agreed (c ∷ cs) = all_agree (agrees agreed c) cs

-- Neither the events nor the file are more than 500.
abbrev pub IsBounded : NotificationStore → Type 0
IsBounded s = (length s.events ≤ max_events) × (length s.file ≤ max_events)

-- The files that a path is set to hold at most 500 events.
abbrev pub finds_short : Command → Bool
finds_short (sets_path has_path file) = leb (length file) max_events
finds_short _ = true
