-- ===== src/Alerts/StoreAck.antt =====
-- core/notifications/notification_store.cpp: the counts, and what the two acknowledgements change.
use steam_account_manager.Common.{
  ℕ, ◌+◌, List, [], ◌∷◌, false, if◌then◌else◌, length, text_eq, text_eq_iff, ◌≡◌, ◌≢◌, inl, inr,
  refl, arith, Bool-cases,
}
use steam_account_manager.Common.Int.{ℤ, pos, negsuc}
use steam_account_manager.Alerts.{BanEvent}
use steam_account_manager.Alerts.Store.{
  NotificationStore, save_locked, is_unacked_of, is_open, unacked_in, unacked_for, unacked_count_in,
  unacked_count_for, count_unacked, unacked_count, ack_first, has_open, acknowledge, ack_all,
  acknowledge_all_for, is_zero,
}

unacked_count_in-length :
    (a : List ℕ) (es : List BanEvent) → unacked_count_in a es ≡ length (unacked_in a es)
unfolding unacked_count_in unacked_in
unacked_count_in-length a [] = refl
unacked_count_in-length a (e ∷ es) = elim (Bool-cases (is_unacked_of a e)) [
  | inl u ↦ rw u (omega (arith, unacked_count_in-length a es))
  | inr u ↦ rw u (omega (arith, unacked_count_in-length a es))
]

-- The count of an account is the length of its list.
pub unacked_count_for-length :
    (s : NotificationStore) (a : List ℕ) → unacked_count_for s a ≡ length (unacked_for s a)
unfolding unacked_count_for unacked_for
unacked_count_for-length s a = unacked_count_in-length a s.events

is_zero-ne : (z : ℤ) → z ≢ pos 0 → is_zero z ≡ false
is_zero-ne (pos n) k = ground arith
is_zero-ne (negsuc n) k = refl

ack_first-count :
    (id : List ℕ) (now : ℤ) (es : List BanEvent)
    → is_zero now ≡ false
    → count_unacked (ack_first id now es) + (if has_open id es then 1 else 0) ≡ count_unacked es
unfolding count_unacked ack_first has_open
ack_first-count id now [] h = refl
ack_first-count id now (e ∷ es) h = elim (Bool-cases (is_open id e)) [
  | inl o ↦ rw (o, h) (ground arith)
  | inr o ↦ rw o (omega (arith, ack_first-count id now es h))
]

pub acknowledge-events :
    (s : NotificationStore) (now : ℤ) (id : List ℕ)
    → (acknowledge s now id).events ≡ ack_first id now s.events
unfolding acknowledge save_locked
acknowledge-events s now id = ground arith

-- At a time that is not 0, acknowledge settles one event exactly when some event of that id is
-- not acknowledged.
pub acknowledge-unacked_count :
    (s : NotificationStore) (now : ℤ) (event_id : List ℕ)
    → now ≢ pos 0
    → unacked_count (acknowledge s now event_id) + (if has_open event_id s.events then 1 else 0)
      ≡ unacked_count s
unfolding unacked_count
acknowledge-unacked_count s now id h =
    rw (acknowledge-events s now id) (ack_first-count id now s.events (is_zero-ne now h))

ack_all-unacked :
    (a b : List ℕ) (now : ℤ) (es : List BanEvent)
    → is_zero now ≡ false
    → unacked_in b (ack_all a now es) ≡ (if text_eq a b then [] else unacked_in b es)
unfolding unacked_in ack_all
ack_all-unacked a b now [] h = ground arith
ack_all-unacked a b now (e ∷ es) h = ground (
  arith,
  text_eq_iff a b,
  text_eq_iff e.account_id a,
  text_eq_iff e.account_id b,
  ack_all-unacked a b now es h,
)

pub acknowledge_all_for-events :
    (s : NotificationStore) (now : ℤ) (a : List ℕ)
    → (acknowledge_all_for s now a).events ≡ ack_all a now s.events
unfolding acknowledge_all_for save_locked
acknowledge_all_for-events s now a = ground arith

-- At a time that is not 0, acknowledge_all_for leaves its account nothing to acknowledge, and
-- every other account what it had.
pub acknowledge_all_for-unacked_for :
    (s : NotificationStore) (now : ℤ) (account_id other : List ℕ)
    → now ≢ pos 0
    → unacked_for (acknowledge_all_for s now account_id) other
      ≡ (if text_eq account_id other then [] else unacked_for s other)
unfolding unacked_for
acknowledge_all_for-unacked_for s now a b h =
    rw (acknowledge_all_for-events s now a) (ack_all-unacked a b now s.events (is_zero-ne now h))
