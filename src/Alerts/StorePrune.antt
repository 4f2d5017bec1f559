-- ===== src/Alerts/StorePrune.antt =====
-- core/notifications/notification_store.cpp, `prune_older_than`: what goes and what stays.
use steam_account_manager.Common.{
  ℕ, zero, suc, ◌-◌, ◌*◌, ◌≤◌, List, [], ◌∷◌, Bool, true, false, not, ◌==◌, if◌then◌else◌, length,
  ◌≡◌, inl, inr, refl, arith, Bool-cases,
}
use steam_account_manager.Common.Int.{ℤ, pos, negsuc, ltb_ℤ, ◌-ℤ◌}
use steam_account_manager.Alerts.{BanEvent}
use steam_account_manager.Alerts.StorePush.{save_locked-events}
use steam_account_manager.Alerts.Store.{
  NotificationStore, save_locked, drop_older, prune_older_than,
}

-- The events from the first one on that is not older than the cutoff.
pub data DropsOlder (cutoff : ℤ) : List BanEvent → List BanEvent → ℕ → Type 0 where
  none_left : DropsOlder cutoff [] [] 0
  kept :
      {e : BanEvent} {es : List BanEvent}
      → ltb_ℤ e.detected_unix cutoff ≡ false
      → DropsOlder cutoff (e ∷ es) (e ∷ es) 0
  older :
      {e : BanEvent} {es rest : List BanEvent} {n : ℕ}
      → ltb_ℤ e.detected_unix cutoff ≡ true
      → DropsOlder cutoff es rest n
      → DropsOlder cutoff (e ∷ es) rest (suc n)

pub length-drop_older :
    (cutoff : ℤ) (es : List BanEvent) → length (drop_older cutoff es) ≤ length es
unfolding drop_older
length-drop_older cutoff [] = omega arith
length-drop_older cutoff (e ∷ es) = ground (arith, length-drop_older cutoff es)

pub saved_if-events :
    (b : Bool) (s : NotificationStore) → (if b then save_locked s else s).events ≡ s.events
saved_if-events true s = save_locked-events s
saved_if-events false s = refl

self_sub : (n : ℕ) → n - n ≡ 0
self_sub n = omega arith

suc_sub : (n m : ℕ) → m ≤ n → suc n - m ≡ suc (n - m)
suc_sub n m h = omega arith

drop_older-DropsOlder :
    (cutoff : ℤ) (es : List BanEvent)
    → DropsOlder cutoff es (drop_older cutoff es) (length es - length (drop_older cutoff es))
unfolding drop_older
drop_older-DropsOlder cutoff [] = none_left
drop_older-DropsOlder cutoff (e ∷ es) = elim (Bool-cases (ltb_ℤ e.detected_unix cutoff)) [
  | inl o ↦
      rw (o, suc_sub (length es) (length (drop_older cutoff es)) (length-drop_older cutoff es))
        (older o (drop_older-DropsOlder cutoff es))
  | inr k ↦ rw (k, self_sub (suc (length es))) (kept k)
]

-- What `prune_older_than` did to the events, by the sign of `days`.
pub Prunes : ℤ → ℤ → List BanEvent → List BanEvent → ℕ → Type 0
Prunes (pos (suc d)) now es rest n = DropsOlder (now -ℤ pos (suc d * 86400)) es rest n
Prunes (pos zero) now es rest n = (rest ≡ es) × (n ≡ 0)
Prunes (negsuc d) now es rest n = (rest ≡ es) × (n ≡ 0)

-- With `days` positive, prune_older_than drops the events before the first one that is at most
-- that many days old and no other, and returns how many it dropped. With any other `days` it
-- drops none.
pub prune_older_than-Prunes :
    (s : NotificationStore) (days now : ℤ)
    → let (s', removed) = prune_older_than s days now in Prunes days now s.events s'.events removed
unfolding Prunes prune_older_than
prune_older_than-Prunes s (pos zero) now = (refl, refl)
prune_older_than-Prunes s (pos (suc d)) now =
    let cutoff = now -ℤ pos (suc d * 86400) in
    let s' = record s { events = drop_older cutoff s.events } in
    rw (saved_if-events (not (length s.events - length s'.events == 0)) s')
      (drop_older-DropsOlder cutoff s.events)
prune_older_than-Prunes s (negsuc d) now = (refl, refl)
