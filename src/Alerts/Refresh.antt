-- ===== src/Alerts/Refresh.antt =====
-- app/app_state_refresh.cpp, `apply_diff_and_snapshot`, and app/app_state.cpp, `event_enabled`: how a
-- refresh compares, stores its alerts and takes the new snapshot.
use steam_account_manager.Common.{
  ℕ, List, [], ◌∷◌, Bool, false, if◌then◌else◌, ◌≡◌, refl, ap, not, true, ◌&&◌, ◌∙◌, arith,
  Bool-cases, inl, inr,
}
use steam_account_manager.Common.Int.{ℤ, ◌≤ℤ◌}
use steam_account_manager.Alerts.{BanEvent, BanEventKind}
use steam_account_manager.Alerts.Diff.{
  BanStatus, Cs2Status, PreviousSnapshot, diff_account_state, snapshot_from, changes, number_events,
  is_running,
}
use steam_account_manager.Alerts.DiffSelf.{changes-snapshot_from}
use steam_account_manager.Alerts.Store.{NotificationStore, push}
use steam_account_manager.Alerts.StoreInvariant.{Command, pushes, apply, apply_all}

-- `Settings::NotificationToggles`, without how alerts are shown.
pub record NotificationToggles : Type 0 where
  pub enabled : Bool
  pub on_new_vac_ban : Bool
  pub on_new_game_ban : Bool
  pub on_new_community_ban : Bool
  pub on_new_trade_ban : Bool
  pub on_new_vac_live : Bool
  pub on_ban_removed : Bool
  pub on_cooldown_started : Bool
  pub on_cooldown_ended : Bool

unfoldable pub event_enabled : NotificationToggles → BanEventKind → Bool
event_enabled t BanEventKind.new_vac_ban = t.on_new_vac_ban
event_enabled t BanEventKind.new_game_ban = t.on_new_game_ban
event_enabled t BanEventKind.new_community_ban = t.on_new_community_ban
event_enabled t BanEventKind.new_trade_ban = t.on_new_trade_ban
event_enabled t BanEventKind.new_vac_live = t.on_new_vac_live
event_enabled t BanEventKind.ban_removed = t.on_ban_removed
event_enabled t BanEventKind.cooldown_started = t.on_cooldown_started
event_enabled t BanEventKind.cooldown_ended = t.on_cooldown_ended

-- What the function changes of the application, and of the account: the store, the counter of the
-- event ids and the snapshot.
pub record Watch : Type 0 where
  pub notifications : NotificationStore
  pub counter : ℕ
  pub prev_snapshot : PreviousSnapshot

-- The loop over the events: the store afterwards, and the events that were stored.
unfoldable pub store_events :
    NotificationToggles → NotificationStore → List BanEvent → NotificationStore × List BanEvent
store_events t s [] = (s, [])
store_events t s (ev ∷ evs) =
    let (s₁, persisted₁) = store_events t (push s ev) evs in
    let (s₂, persisted₂) = store_events t s evs in
    if event_enabled t ev.kind then (s₁, ev ∷ persisted₁) else (s₂, persisted₂)

unfoldable pub apply_diff_and_snapshot :
    NotificationToggles → List ℕ → Watch → BanStatus → Cs2Status → ℤ → Watch × List BanEvent
apply_diff_and_snapshot t account_id w new_bans new_cs2 now =
    let snapshot : PreviousSnapshot = record (snapshot_from new_bans new_cs2) {
      snapshot_unix = now;
    } in
    let (events, counter') =
      diff_account_state w.counter account_id w.prev_snapshot new_bans new_cs2 now in
    let (store, persisted) = store_events t w.notifications events in
    if t.enabled
    then (record { notifications = store; counter = counter'; prev_snapshot = snapshot }, persisted)
    else (record w { prev_snapshot = snapshot }, [])

-- The kinds that the user has switched on: which setting is which kind's.
pub data IsOn (t : NotificationToggles) : BanEventKind → Type 0 where
  vac : t.on_new_vac_ban ≡ true → IsOn t BanEventKind.new_vac_ban
  game : t.on_new_game_ban ≡ true → IsOn t BanEventKind.new_game_ban
  community : t.on_new_community_ban ≡ true → IsOn t BanEventKind.new_community_ban
  trade : t.on_new_trade_ban ≡ true → IsOn t BanEventKind.new_trade_ban
  vac_live : t.on_new_vac_live ≡ true → IsOn t BanEventKind.new_vac_live
  removed : t.on_ban_removed ≡ true → IsOn t BanEventKind.ban_removed
  started : t.on_cooldown_started ≡ true → IsOn t BanEventKind.cooldown_started
  ended : t.on_cooldown_ended ≡ true → IsOn t BanEventKind.cooldown_ended

-- Of some events, those of the kinds that are on, in their order.
pub data Reported (t : NotificationToggles) : List BanEvent → List BanEvent → Type 0 where
  none_left : Reported t [] []
  kept :
      {ev : BanEvent} {evs out : List BanEvent}
      → IsOn t ev.kind
      → Reported t evs out
      → Reported t (ev ∷ evs) (ev ∷ out)
  left_out :
      {ev : BanEvent} {evs out : List BanEvent}
      → ¬ IsOn t ev.kind
      → Reported t evs out
      → Reported t (ev ∷ evs) out

unfoldable pub pushed : List BanEvent → List Command
pushed [] = []
pushed (ev ∷ evs) = pushes ev ∷ pushed evs

event_enabled-IsOn :
    (t : NotificationToggles) (kind : BanEventKind) → event_enabled t kind ≡ true → IsOn t kind
unfolding event_enabled
event_enabled-IsOn t BanEventKind.new_vac_ban h = vac h
event_enabled-IsOn t BanEventKind.new_game_ban h = game h
event_enabled-IsOn t BanEventKind.new_community_ban h = community h
event_enabled-IsOn t BanEventKind.new_trade_ban h = trade h
event_enabled-IsOn t BanEventKind.new_vac_live h = vac_live h
event_enabled-IsOn t BanEventKind.ban_removed h = removed h
event_enabled-IsOn t BanEventKind.cooldown_started h = started h
event_enabled-IsOn t BanEventKind.cooldown_ended h = ended h

event_enabled_off :
    (t : NotificationToggles) {kind : BanEventKind} → event_enabled t kind ≡ false → ¬ IsOn t kind
unfolding event_enabled
event_enabled_off t h (vac e) = absurd cc
event_enabled_off t h (game e) = absurd cc
event_enabled_off t h (community e) = absurd cc
event_enabled_off t h (trade e) = absurd cc
event_enabled_off t h (vac_live e) = absurd cc
event_enabled_off t h (removed e) = absurd cc
event_enabled_off t h (started e) = absurd cc
event_enabled_off t h (ended e) = absurd cc

store_events_lem :
    (t : NotificationToggles) (s : NotificationStore) (evs : List BanEvent)
    → ((store_events t s evs).0 ≡ apply_all s (pushed (store_events t s evs).1))
      × Reported t evs (store_events t s evs).1
unfolding store_events pushed apply_all apply
store_events_lem t s [] = (refl, none_left)
store_events_lem t s (ev ∷ evs) = elim (Bool-cases (event_enabled t ev.kind)) [
  | inl e ↦
      let (a, b) = store_events_lem t (push s ev) evs in
      rw (e, store_events) (a, kept (event_enabled-IsOn t ev.kind e) b)
  | inr e ↦
      let (a, b) = store_events_lem t s evs in
      rw (e, store_events) (a, left_out (event_enabled_off t e) b)
]

-- With alerts switched on, a refresh reports the events of the comparison whose kinds are
-- switched on, each by its own setting, and no others, in their order; its effect on the store
-- is to push those it reports, in that order, the counter of event ids moves on as the
-- comparison leaves it, and the snapshot is that of the new state, taken now.
pub apply_diff_and_snapshot-store :
    (t : NotificationToggles) (account_id : List ℕ) (w : Watch) (bans : BanStatus) (cs2 : Cs2Status)
    (now : ℤ)
    → t.enabled ≡ true
    → let (w', persisted) = apply_diff_and_snapshot t account_id w bans cs2 now in
      let (events, counter') =
        diff_account_state w.counter account_id w.prev_snapshot bans cs2 now in
      Reported t events persisted
      × (w'.notifications ≡ apply_all w.notifications (pushed persisted))
      × (w'.counter ≡ counter')
      × (w'.prev_snapshot ≡ record (snapshot_from bans cs2) { snapshot_unix = now })
unfolding apply_diff_and_snapshot
apply_diff_and_snapshot-store t account_id w bans cs2 now on =
    let events = (diff_account_state w.counter account_id w.prev_snapshot bans cs2 now).0 in
    let (stored, reported) = store_events_lem t w.notifications events in
    simp on (reported, stored, refl, refl)

taken_snapshot :
    (t : NotificationToggles) (account_id : List ℕ) (w : Watch) (bans : BanStatus) (cs2 : Cs2Status)
    (now : ℤ)
    → (apply_diff_and_snapshot t account_id w bans cs2 now).0.prev_snapshot
      ≡ record (snapshot_from bans cs2) { snapshot_unix = now }
unfolding apply_diff_and_snapshot
taken_snapshot t account_id w bans cs2 now = elim (Bool-cases t.enabled) [
  | inl e ↦ rw e
  | inr e ↦ rw e
]

unchanged :
    (t : NotificationToggles) (account_id : List ℕ) (w : Watch) (bans : BanStatus) (cs2 : Cs2Status)
    (now : ℤ)
    → changes w.prev_snapshot bans cs2 now ≡ []
    → (apply_diff_and_snapshot t account_id w bans cs2 now).1 ≡ []
unfolding apply_diff_and_snapshot diff_account_state number_events store_events
unchanged t account_id w bans cs2 now h = elim (Bool-cases t.enabled) [
  | inl e ↦ rw (e, h)
  | inr e ↦ rw e
]

no_changes :
    (bans : BanStatus) (cs2 : Cs2Status) (now later : ℤ)
    → now ≤ℤ later
    → (is_running cs2.cooldown_expires_unix now && not (is_running cs2.cooldown_expires_unix later))
      ≡ false
    → changes (record (snapshot_from bans cs2) { snapshot_unix = now }) bans cs2 later ≡ []
no_changes bans cs2 now later h k = changes-snapshot_from bans cs2 now later h ∙ ground (arith, k)

-- A refresh that finds the same state as the one before it, at a time that is not earlier,
-- reports nothing, unless a cooldown that ran at the first has ended at the second; whichever
-- alerts are switched on at either.
pub apply_diff_and_snapshot-again :
    (t t' : NotificationToggles) (account_id : List ℕ) (w : Watch) (bans : BanStatus)
    (cs2 : Cs2Status) (now later : ℤ)
    → now ≤ℤ later
    → (is_running cs2.cooldown_expires_unix now && not (is_running cs2.cooldown_expires_unix later))
      ≡ false
    → let w' = (apply_diff_and_snapshot t account_id w bans cs2 now).0 in
      (apply_diff_and_snapshot t' account_id w' bans cs2 later).1 ≡ []
apply_diff_and_snapshot-again t t' account_id w bans cs2 now later h k =
    let w' = (apply_diff_and_snapshot t account_id w bans cs2 now).0 in
    unchanged t' account_id w' bans cs2 later (
      ap (λ s. changes s bans cs2 later) (taken_snapshot t account_id w bans cs2 now)
      ∙ no_changes bans cs2 now later h k)
