-- ===== src/App/VaultSaver/Order.antt =====
-- app/vault_saver.cpp: the vaults on their way to save_vault, and their order.
use mathlib.Core.List.{Sublistᴰ}
use steam_account_manager.Common.{
  List, [], ◌∷◌, ◌++◌, Bool, true, false, Option, none, some, ◌≡◌, ◌≢◌, refl, arith, Option-cases,
  inl, inr,
}
use steam_account_manager.App.VaultSaver.{
  Pending, Worker, Saver, Action, unborn, waiting, writing, settling, leaving, last_writing, ended,
  starts, schedules, flushes, stops, ticks, works, start, schedule, flush, take_work, take_last,
  work_at, work, step, run, new,
}

module _ {V : Type 0} where
  abbrev pub waiting_vault : Option (Pending V) → List V
  waiting_vault none = []
  waiting_vault (some p) = p.vault ∷ []

  abbrev pub vault_in_hand : Worker V → List V
  vault_in_hand (writing v) = v ∷ []
  vault_in_hand (last_writing v) = v ∷ []
  vault_in_hand _ = []

  abbrev pub is_busy : Worker V → Bool
  is_busy (writing v) = true
  is_busy settling = true
  is_busy _ = false

  abbrev pub is_leaving : Worker V → Bool
  is_leaving leaving = true
  is_leaving (last_writing v) = true
  is_leaving ended = true
  is_leaving _ = false

  -- The vaults on their way to the disk and those written, the newest first.
  abbrev pub line : Saver V → List V
  line s = waiting_vault s.pending ++ (vault_in_hand s.worker ++ s.attempted)

  -- `l` is what is left of `all` when some are dropped, never the newest.
  pub data Coalesces : List V → List V → Type 0 where
    empty : Coalesces [] []
    newest : {v : V} {l all : List V} → Sublistᴰ l all → Coalesces (v ∷ l) (v ∷ all)

  pub Coalesces-sublist : {l all : List V} → Coalesces l all → Sublistᴰ l all
  Coalesces-sublist empty = Sublistᴰ.slnil
  Coalesces-sublist (newest h) = Sublistᴰ.cons-cons refl h

  pub record Inv (s : Saver V) : Type 0 where
    pub coalesced : Coalesces (line s) s.scheduled
    pub unstarted : s.started ≡ false → s.worker ≡ unborn
    pub born : s.started ≡ true → s.worker ≢ unborn
    pub busy_at : s.busy ≡ is_busy s.worker
    pub stopped : is_leaving s.worker ≡ true → s.stop ≡ true

  pub new-Inv : Inv new
  unfolding new
  new-Inv = record {
    coalesced = empty;
    unstarted = λ h. refl;
    born = λ h. cc;
    busy_at = refl;
    stopped = λ h. cc;
  }

  start-Inv : (s : Saver V) → Inv s → Inv (start s)
  unfolding start
  start-Inv s h = ground (arith, h)

  sublist_tail : (v : V) {l : List V} (all : List V) → Sublistᴰ (v ∷ l) all → Sublistᴰ l all
  sublist_tail v [] h = elim h [ ]
  sublist_tail v (a ∷ all) (Sublistᴰ.cons h) = Sublistᴰ.cons (sublist_tail v all h)
  sublist_tail v (a ∷ all) (Sublistᴰ.cons-cons e h) = Sublistᴰ.cons h

  sublist_behind :
      (o : Option (Pending V)) (l all : List V)
      → Sublistᴰ (waiting_vault o ++ l) all
      → Sublistᴰ l all
  sublist_behind none l all h = h
  sublist_behind (some p) l all h = sublist_tail p.vault all h

  schedule-Inv : (s : Saver V) (v : V) → Inv s → Inv (schedule s v)
  unfolding schedule
  schedule-Inv s v h = record {
    coalesced = newest (
        sublist_behind s.pending (vault_in_hand s.worker ++ s.attempted) s.scheduled
          (Coalesces-sublist h.coalesced));
    unstarted = h.unstarted;
    born = h.born;
    busy_at = h.busy_at;
    stopped = h.stopped;
  }

  pub flush-Inv : (s : Saver V) → Inv s → Inv (flush s)
  unfolding flush
  flush-Inv s h = elim (Option-cases s.pending) [
    | inl e ↦ ground (arith, e, h)
    | inr (p, e) ↦ ground (arith, e, h)
  ]

  work_at-Inv : (w : Worker V) (s : Saver V) → s.worker ≡ w → Inv s → Inv (work_at w s)
  unfolding work_at take_work take_last
  work_at-Inv unborn s e h = h
  work_at-Inv waiting s e h = ground (arith, e, h)
  work_at-Inv (writing v) s e h = ground (arith, e, h)
  work_at-Inv settling s e h = ground (arith, e, h)
  work_at-Inv leaving s e h = ground (arith, e, h)
  work_at-Inv (last_writing v) s e h = ground (arith, e, h)
  work_at-Inv ended s e h = h

  pub step-Inv : (s : Saver V) (a : Action V) → Inv s → Inv (step s a)
  unfolding step work
  step-Inv s starts h = start-Inv s h
  step-Inv s (schedules v) h = schedule-Inv s v h
  step-Inv s flushes h = flush-Inv s h
  step-Inv s stops h = ground (arith, h)
  step-Inv s (ticks n) h = ground (arith, h)
  step-Inv s works h = work_at-Inv s.worker s refl h

  pub run-Inv : (s : Saver V) (actions : List (Action V)) → Inv s → Inv (run s actions)
  unfolding run
  run-Inv s [] h = h
  run-Inv s (a ∷ rest) h = run-Inv (step s a) rest (step-Inv s a h)

  -- In every interleaving of the steps of VaultSaver, what save_vault has been called with, is
  -- being called with and waits for it, in this order, is a subsequence of the vaults that were
  -- scheduled, and its newest is the vault scheduled last.
  pub run-Coalesces :
      (actions : List (Action V)) → Coalesces (line (run new actions)) (run new actions).scheduled
  run-Coalesces actions = (run-Inv new actions new-Inv).coalesced
