-- ===== src/Alerts/StorePush.antt =====
-- core/notifications/notification_store.cpp, `push`: what makes room and what is kept.
use steam_account_manager.Common.{
  ℕ, suc, ◌≤◌, ◌<◌, List, [], ◌∷◌, ◌++◌, true, false, leb, if◌then◌else◌, length, ◌≡◌, ◌⊎◌, inl,
  inr, refl, ap, arith, Bool-cases, length-append,
}
use steam_account_manager.Common.Int.{ℤ, pos, negsuc, ltb_ℤ}
use steam_account_manager.Alerts.{BanEvent}
use steam_account_manager.Alerts.Store.{
  NotificationStore, max_events, save_locked, is_acked, is_unacked_of, has_acked, erase_acked,
  pop_front, make_room, push, unacked_in, unacked_for, is_zero,
}

pub save_locked-events : (s : NotificationStore) → (save_locked s).events ≡ s.events
unfolding save_locked
save_locked-events s = ground arith

acked_not_zero : (z : ℤ) → ltb_ℤ (pos 0) z ≡ true → is_zero z ≡ false
acked_not_zero (pos n) h = ground arith
acked_not_zero (negsuc n) h = refl

length-erase_acked :
    (es : List BanEvent) → has_acked es ≡ true → suc (length (erase_acked es)) ≡ length es
unfolding has_acked erase_acked
length-erase_acked [] h = cc
length-erase_acked (e ∷ es) h = elim (Bool-cases (is_acked e)) [
  | inl a ↦ rw a
  | inr a ↦ rw a (ap suc (length-erase_acked es (rw a at h)))
]

pub length-make_room :
    (es : List BanEvent) → length es ≤ max_events → length (make_room es) < max_events
unfolding make_room
length-make_room es h = elim (Bool-cases (leb max_events (length es))) [
  | inl full ↦ elim (Bool-cases (has_acked es)) [
    | inl a ↦ rw (full, a) (omega (arith, length-erase_acked es a))
    | inr a ↦ rw (full, a) (pop es h)
  ]
  | inr free ↦ rw free (ground arith)
]
  where
    pop : (xs : List BanEvent) → length xs ≤ max_events → length (pop_front xs) < max_events
    pop [] k = omega arith
    pop (x ∷ xs) k = k

pub length-push :
    (s : NotificationStore) (event : BanEvent)
    → length s.events ≤ max_events
    → length (push s event).events ≤ max_events
unfolding push
length-push s event h =
    rw
      (
        save_locked-events (record s { events = make_room s.events ++ event ∷ [] }),
        length-append (make_room s.events),
      )
      (omega (arith, length-make_room s.events h))

pub unacked_in-append :
    (a : List ℕ) (xs ys : List BanEvent)
    → unacked_in a (xs ++ ys) ≡ unacked_in a xs ++ unacked_in a ys
unfolding unacked_in
unacked_in-append a [] ys = refl
unacked_in-append a (x ∷ xs) ys = elim (Bool-cases (is_unacked_of a x)) [
  | inl e ↦ rw (e, unacked_in-append a xs ys)
  | inr e ↦ rw (e, unacked_in-append a xs ys)
]

unacked_in-erase_acked :
    (a : List ℕ) (es : List BanEvent) → unacked_in a (erase_acked es) ≡ unacked_in a es
unfolding unacked_in erase_acked
unacked_in-erase_acked a [] = refl
unacked_in-erase_acked a (e ∷ es) = elim (Bool-cases (is_acked e)) [
  | inl k ↦ rw (k, acked_not_zero e.ack_unix k) (ground arith)
  | inr k ↦ elim (Bool-cases (is_unacked_of a e)) [
    | inl u ↦ rw (k, u, unacked_in-erase_acked a es)
    | inr u ↦ rw (k, u, unacked_in-erase_acked a es)
  ]
]

unacked_in-make_room :
    (a : List ℕ) (es : List BanEvent)
    → (length es < max_events) ⊎ (has_acked es ≡ true)
    → unacked_in a (make_room es) ≡ unacked_in a es
unfolding make_room
unacked_in-make_room a es (inl free) =
    let e : leb max_events (length es) ≡ false = ground arith in rw e
unacked_in-make_room a es (inr acked) = elim (Bool-cases (leb max_events (length es))) [
  | inl full ↦ rw (full, acked) (unacked_in-erase_acked a es)
  | inr free ↦ rw free
]

-- As long as the store is not full, or holds an acknowledged event, push loses no event that is
-- not acknowledged: each account has those it had, in their order, and then the new one if that
-- is its own and not acknowledged.
pub push-unacked_for :
    (s : NotificationStore) (event : BanEvent) (account_id : List ℕ)
    → (length s.events < max_events) ⊎ (has_acked s.events ≡ true)
    → unacked_for (push s event) account_id
      ≡ unacked_for s account_id ++ (if is_unacked_of account_id event then event ∷ [] else [])
unfolding push unacked_for
push-unacked_for s event a h =
    rw
      (
        save_locked-events (record s { events = make_room s.events ++ event ∷ [] }),
        unacked_in-append a (make_room s.events),
        unacked_in-make_room a s.events h,
      )
      (unfold unacked_in in refl)
