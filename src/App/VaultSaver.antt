-- ===== src/App/VaultSaver.antt =====
-- app/vault_saver.{hpp,cpp}: vaults are written by a thread of their own. A step is what one thread does
-- while it holds the mutex, or one write; an interleaving is a list of steps. `V` is a vault with its
-- password, and time is counted in milliseconds.
pub mod Order
pub mod Flush
use steam_account_manager.Common.{
  ℕ, ◌+◌, List, [], ◌∷◌, Bool, true, false, not, ◌&&◌, ◌||◌, Option, none, some, if◌then◌else◌, leb,
}

-- `kSaveDebounce`.
abbrev pub save_debounce : ℕ
save_debounce = 250

-- `Pending`.
pub record Pending (V : Type 0) : Type 0 where
  pub vault : V
  pub deadline : ℕ

-- Where `run` stands: before the thread starts, at the top of its loop, at the write, before it locks
-- to clear `busy_`, behind the loop, at the last write, at its end.
pub data Worker (V : Type 0) : Type 0 where
  unborn : Worker V
  waiting : Worker V
  writing : V → Worker V
  settling : Worker V
  leaving : Worker V
  last_writing : V → Worker V
  ended : Worker V

-- The members of `VaultSaver`, its thread, the clock, and two logs, the newest first: the vaults that
-- were scheduled and the attempts, which are the vaults
-- that `save_vault` was called with; one that throws is logged and dropped, and nothing else depends on it.
pub record Saver (V : Type 0) : Type 0 where
  pub pending : Option (Pending V)
  pub busy : Bool
  pub stop : Bool
  pub started : Bool
  pub worker : Worker V
  pub now : ℕ
  pub scheduled : List V
  pub attempted : List V

pub data Action (V : Type 0) : Type 0 where
  starts : Action V
  schedules : V → Action V
  flushes : Action V
  stops : Action V
  ticks : ℕ → Action V
  works : Action V

module _ {V : Type 0} where
  unfoldable pub new : Saver V
  new = record {
    pending = none;
    busy = false;
    stop = false;
    started = false;
    worker = unborn;
    now = 0;
    scheduled = [];
    attempted = [];
  }

  unfoldable pub start : Saver V → Saver V
  start s = if s.started then s else record s { started = true; worker = waiting }

  unfoldable pub schedule : Saver V → V → Saver V
  schedule s v = record s {
    pending = some (record { vault = v; deadline = s.now + save_debounce });
    scheduled = v ∷ s.scheduled;
  }

  abbrev pub hurried : ℕ → Option (Pending V) → Option (Pending V)
  hurried now none = none
  hurried now (some p) = some (record p { deadline = now })

  -- `flush` up to its wait.
  unfoldable pub flush : Saver V → Saver V
  flush s = if s.started then record s { pending = hurried s.now s.pending } else s

  -- What `flush` waits for.
  unfoldable pub is_settled : Saver V → Bool
  is_settled s = elim s.pending [ none ↦ not s.busy | some p ↦ false ]

  -- The critical section at the top of the loop: blocked, it changes nothing.
  unfoldable pub take_work : Saver V → Saver V
  take_work s = elim s.pending [
    | none ↦ if s.stop then record s { worker = leaving } else s
    | some p ↦
        if s.stop || leb p.deadline s.now
        then record s { pending = none; busy = true; worker = writing p.vault }
        else s
  ]

  -- The critical section behind the loop.
  unfoldable pub take_last : Saver V → Saver V
  take_last s = elim s.pending [
    | none ↦ record s { worker = ended }
    | some p ↦ record s { pending = none; worker = last_writing p.vault }
  ]

  unfoldable pub work_at : Worker V → Saver V → Saver V
  work_at unborn s = s
  work_at waiting s = take_work s
  work_at (writing v) s = record s { worker = settling; attempted = v ∷ s.attempted }
  work_at settling s = record s { worker = waiting; busy = false }
  work_at leaving s = take_last s
  work_at (last_writing v) s = record s { worker = ended; attempted = v ∷ s.attempted }
  work_at ended s = s

  -- The next step of `run`.
  unfoldable pub work : Saver V → Saver V
  work s = work_at s.worker s

  unfoldable pub step : Saver V → Action V → Saver V
  step s starts = start s
  step s (schedules v) = schedule s v
  step s flushes = flush s
  step s stops = record s { stop = true }
  step s (ticks n) = record s { now = s.now + n }
  step s works = work s

  unfoldable pub run : Saver V → List (Action V) → Saver V
  run s [] = s
  run s (a ∷ rest) = run (step s a) rest
