-- ===== src/Alerts/Store.antt =====
-- core/notifications/notification_store.{hpp,cpp}. `time(nullptr)` is the argument `now`. The file
-- is the list of the events that it holds; JSON and failing writes are left out.
use steam_account_manager.Common.{
  ℕ, zero, suc, ◌+◌, ◌-◌, ◌*◌, List, [], ◌∷◌, ◌++◌, Bool, true, false, not, ◌&&◌, ◌==◌, leb,
  if◌then◌else◌, length, text_eq,
}
use steam_account_manager.Common.Int.{ℤ, pos, ltb_ℤ, ◌-ℤ◌}
use steam_account_manager.Alerts.{BanEvent}

-- `kMaxEvents`.
abbrev pub max_events : ℕ
max_events = 500

pub record NotificationStore : Type 0 where
  pub events : List BanEvent
  pub has_path : Bool
  pub file : List BanEvent

-- A path is empty or leads to a file that holds `file`.
unfoldable pub set_path : NotificationStore → Bool → List BanEvent → NotificationStore
set_path s has_path file = record s { has_path = has_path; file = file }

-- `readable` is whether the file opens and parses.
unfoldable pub load : NotificationStore → Bool → NotificationStore
load s readable =
    if not s.has_path then s else if not readable then s else record s { events = s.file }

unfoldable pub save_locked : NotificationStore → NotificationStore
save_locked s = if s.has_path then record s { file = s.events } else s

abbrev pub is_acked : BanEvent → Bool
is_acked e = ltb_ℤ (pos 0) e.ack_unix

abbrev pub is_zero : ℤ → Bool
is_zero (pos n) = n == 0
is_zero _ = false

abbrev pub is_unacked : BanEvent → Bool
is_unacked e = is_zero e.ack_unix

unfoldable pub has_acked : List BanEvent → Bool
has_acked [] = false
has_acked (e ∷ es) = if is_acked e then true else has_acked es

-- `erase(it)` at the first acknowledged event.
unfoldable pub erase_acked : List BanEvent → List BanEvent
erase_acked [] = []
erase_acked (e ∷ es) = if is_acked e then es else e ∷ erase_acked es

abbrev pub pop_front : List BanEvent → List BanEvent
pop_front [] = []
pop_front (e ∷ es) = es

unfoldable pub make_room : List BanEvent → List BanEvent
make_room es =
    if leb max_events (length es)
    then (if has_acked es then erase_acked es else pop_front es)
    else es

unfoldable pub push : NotificationStore → BanEvent → NotificationStore
push s event = save_locked (record s { events = make_room s.events ++ event ∷ [] })

abbrev pub is_unacked_of : List ℕ → BanEvent → Bool
is_unacked_of account_id e = text_eq e.account_id account_id && is_unacked e

unfoldable pub unacked_in : List ℕ → List BanEvent → List BanEvent
unacked_in account_id [] = []
unacked_in account_id (e ∷ es) =
    if is_unacked_of account_id e then e ∷ unacked_in account_id es else unacked_in account_id es

unfoldable pub unacked_for : NotificationStore → List ℕ → List BanEvent
unacked_for s account_id = unacked_in account_id s.events

unfoldable pub unacked_count_in : List ℕ → List BanEvent → ℕ
unacked_count_in account_id [] = 0
unacked_count_in account_id (e ∷ es) =
    (if is_unacked_of account_id e then 1 else 0) + unacked_count_in account_id es

unfoldable pub unacked_count_for : NotificationStore → List ℕ → ℕ
unacked_count_for s account_id = unacked_count_in account_id s.events

unfoldable pub count_unacked : List BanEvent → ℕ
count_unacked [] = 0
count_unacked (e ∷ es) = (if is_unacked e then 1 else 0) + count_unacked es

unfoldable pub unacked_count : NotificationStore → ℕ
unacked_count s = count_unacked s.events

-- The loop of `acknowledge` stops at the first event of that id that is not acknowledged.
abbrev pub is_open : List ℕ → BanEvent → Bool
is_open event_id e = text_eq e.event_id event_id && is_unacked e

unfoldable pub ack_first : List ℕ → ℤ → List BanEvent → List BanEvent
ack_first event_id now [] = []
ack_first event_id now (e ∷ es) =
    if is_open event_id e then record e { ack_unix = now } ∷ es else e ∷ ack_first event_id now es

-- `changed` of that loop.
unfoldable pub has_open : List ℕ → List BanEvent → Bool
has_open event_id [] = false
has_open event_id (e ∷ es) = if is_open event_id e then true else has_open event_id es

unfoldable pub acknowledge : NotificationStore → ℤ → List ℕ → NotificationStore
acknowledge s now event_id =
    let s' = record s { events = ack_first event_id now s.events } in
    if has_open event_id s.events then save_locked s' else s'

unfoldable pub ack_all : List ℕ → ℤ → List BanEvent → List BanEvent
ack_all account_id now [] = []
ack_all account_id now (e ∷ es) =
    (if is_unacked_of account_id e then record e { ack_unix = now } else e)
    ∷ ack_all account_id now es

unfoldable pub acknowledge_all_for : NotificationStore → ℤ → List ℕ → NotificationStore
acknowledge_all_for s now account_id =
    let s' = record s { events = ack_all account_id now s.events } in
    if not (unacked_count_in account_id s.events == 0) then save_locked s' else s'

-- The loop of `prune_older_than` pops from the front while the front is older than the cutoff.
unfoldable pub drop_older : ℤ → List BanEvent → List BanEvent
drop_older cutoff [] = []
drop_older cutoff (e ∷ es) =
    let rest = drop_older cutoff es in if ltb_ℤ e.detected_unix cutoff then rest else e ∷ es

-- The store afterwards, and how many events were dropped; `days` is an `int`.
unfoldable pub prune_older_than : NotificationStore → ℤ → ℤ → NotificationStore × ℕ
prune_older_than s (pos zero) now = (s, 0)
prune_older_than s (pos (suc d)) now =
    let cutoff = now -ℤ pos (suc d * 86400) in
    let s' = record s { events = drop_older cutoff s.events } in
    let removed = length s.events - length s'.events in
    (if not (removed == 0) then save_locked s' else s', removed)
prune_older_than s _ now = (s, 0)
