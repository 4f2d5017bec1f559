-- ===== src/App/JobPump/Conserved.antt =====
-- app/job_pump.cpp: where each task is.
use steam_account_manager.Common.{
  ℕ, zero, suc, ◌+◌, ◌≡◌, refl, ap, Bool, true, false, not, ◌||◌, arith, List, [], ◌∷◌, ◌++◌,
  Option, none, some, if◌then◌else◌, ◌==◌, map, get_elem?, set, replicate, Bool-cases, inl, inr,
}
use steam_account_manager.Common.Every.{every}
use steam_account_manager.App.JobPump.{
  Worker, checking, parking, blocked, ended, running, sleeping, Pump, is_locked, has_ended,
  notified, put, check_queue, submit, start_workers, stop_workers, join_workers, Step, start, stop,
  join, submit_to, check, park, finish, doze, wake, work, work_at, picked, step, run,
}

-- How often a task stands in a list, and how many workers are in it.
unfoldable pub count : ℕ → List ℕ → ℕ
count t [] = 0
count t (u ∷ us) = (if u == t then 1 else 0) + count t us

abbrev held : ℕ → Worker → ℕ
held t (running u) = if u == t then 1 else 0
held t (sleeping u) = if u == t then 1 else 0
held t w = 0

unfoldable pub in_work : ℕ → List Worker → ℕ
in_work t [] = 0
in_work t (w ∷ ws) = held t w + in_work t ws

count-append : (t : ℕ) (us vs : List ℕ) → count t (us ++ vs) ≡ count t us + count t vs
unfolding count
count-append t [] vs = omega arith
count-append t (u ∷ us) vs = omega (arith, count-append t us vs)

in_work-append : (t : ℕ) (us vs : List Worker) → in_work t (us ++ vs) ≡ in_work t us + in_work t vs
unfolding in_work
in_work-append t [] vs = omega arith
in_work-append t (u ∷ us) vs = omega (arith, in_work-append t us vs)

in_work-fresh : (t n : ℕ) → in_work t (replicate n checking) ≡ 0
unfolding in_work
in_work-fresh t zero = refl
in_work-fresh t (suc n) = omega (arith, in_work-fresh t n)

held-notified : (t : ℕ) (b : Bool) (w : Worker) → held t (notified b w) ≡ held t w
unfolding notified
held-notified t b checking = refl
held-notified t b parking = refl
held-notified t b blocked = refl
held-notified t b ended = refl
held-notified t b (running u) = refl
held-notified t true (sleeping u) = refl
held-notified t false (sleeping u) = refl

in_work-notified : (t : ℕ) (ws : List Worker) → in_work t (map (notified false) ws) ≡ in_work t ws
unfolding in_work
in_work-notified t [] = refl
in_work-notified t (w ∷ ws) = omega (arith, held-notified t false w, in_work-notified t ws)

in_work-ended : (t : ℕ) (ws : List Worker) → every has_ended ws ≡ true → in_work t ws ≡ 0
unfolding in_work every
in_work-ended t [] h = refl
in_work-ended t (ended ∷ ws) h = omega (arith, in_work-ended t ws h)
in_work-ended t (checking ∷ ws) h = ground (arith, h)
in_work-ended t (parking ∷ ws) h = ground (arith, h)
in_work-ended t (blocked ∷ ws) h = ground (arith, h)
in_work-ended t (running u ∷ ws) h = ground (arith, h)
in_work-ended t (sleeping u ∷ ws) h = ground (arith, h)

held_of : ℕ → Option Worker → ℕ
held_of t none = 0
held_of t (some w) = held t w

-- A worker that goes on.
in_work-set :
    (t : ℕ) (ws : List Worker) (i : ℕ) (w v : Worker)
    → get_elem? ws i ≡ some w
    → in_work t (set ws i v) + held t w ≡ in_work t ws + held t v
unfolding in_work held_of
in_work-set t [] i w v h = ground (arith, h)
in_work-set t (x ∷ ws) zero w v h =
    let e : held t x ≡ held t w = ap (held_of t) h in omega (arith, e)
in_work-set t (x ∷ ws) (suc i) w v h = omega (arith, in_work-set t ws i w v h)

-- Every task that came is waiting, in the work of a thread or done, as often as it came.
abbrev pub Conserves : Pump → Type 0
Conserves s =
    (t : ℕ) → count t s.queue + in_work t s.workers + count t s.finished ≡ count t s.submitted

check_queue-Conserves :
    (i : ℕ) (queue : List ℕ) (s : Pump)
    → s.queue ≡ queue
    → get_elem? s.workers i ≡ some checking
    → Conserves s
    → Conserves (check_queue i queue s)
unfolding check_queue put count
check_queue-Conserves i [] s q e h = elim (Bool-cases s.is_running) [
  | inl b ↦ rw b (λ t. omega (arith, h t, in_work-set t s.workers i checking parking e))
  | inr b ↦ rw b (λ t. omega (arith, h t, in_work-set t s.workers i checking ended e))
]
check_queue-Conserves i (u ∷ rest) s q e h =
    λ t. omega (arith, h t, ap (count t) q, in_work-set t s.workers i checking (running u) e)

work-Conserves :
    (move : Step) (i : ℕ) (w : Worker) (s : Pump)
    → get_elem? s.workers i ≡ some w
    → Conserves s
    → Conserves (work move i w s)
unfolding work put count
work-Conserves (check j) i checking s e h = elim (Bool-cases (is_locked s.workers)) [
  | inl l ↦ rw l h
  | inr l ↦ rw l (check_queue-Conserves i s.queue s refl e h)
]
work-Conserves (park j) i parking s e h =
    λ t. omega (arith, h t, in_work-set t s.workers i parking blocked e)
work-Conserves (finish j) i (running u) s e h = λ t. omega (
  arith,
  h t,
  in_work-set t s.workers i (running u) checking e,
  count-append t s.finished (u ∷ []),
)
work-Conserves (doze j) i (running u) s e h =
    elim (Bool-cases (is_locked s.workers || not s.is_running)) [
      | inl l ↦ rw l h
      | inr l ↦ rw l (λ t. omega (arith, h t, in_work-set t s.workers i (running u) (sleeping u) e))
    ]
work-Conserves (wake j) i (sleeping u) s e h = elim (Bool-cases (is_locked s.workers)) [
  | inl l ↦ rw l h
  | inr l ↦ rw l (λ t. omega (arith, h t, in_work-set t s.workers i (sleeping u) (running u) e))
]
work-Conserves (wake j) i blocked s e h = elim (Bool-cases (is_locked s.workers)) [
  | inl l ↦ rw l h
  | inr l ↦ rw l (λ t. omega (arith, h t, in_work-set t s.workers i blocked checking e))
]
work-Conserves move i w s e h = h

work_at-Conserves :
    (move : Step) (i : ℕ) (o : Option Worker) (s : Pump)
    → get_elem? s.workers i ≡ o
    → Conserves s
    → Conserves (work_at move i o s)
unfolding work_at
work_at-Conserves move i none s e h = h
work_at-Conserves move i (some w) s e h = work-Conserves move i w s e h

submit-Conserves :
    (task : Option ℕ) (i : ℕ) (o : Option Worker) (s : Pump)
    → get_elem? s.workers i ≡ o
    → Conserves s
    → Conserves (submit task (picked i o) s)
unfolding submit picked put
submit-Conserves none i o s e h = h
submit-Conserves (some u) i none s e h =
    λ t. omega (arith, h t, count-append t s.queue (u ∷ []), count-append t s.submitted (u ∷ []))
submit-Conserves (some u) i (some w) s e h = λ t. omega (
  arith,
  h t,
  count-append t s.queue (u ∷ []),
  count-append t s.submitted (u ∷ []),
  in_work-set t s.workers i w (notified s.is_running w) e,
  held-notified t s.is_running w,
)

step-Conserves : (move : Step) (s : Pump) → Conserves s → Conserves (step move s)
unfolding step start_workers stop_workers join_workers
step-Conserves (start n) s h = elim (Bool-cases s.is_running) [
  | inl b ↦ rw b h
  | inr b ↦ rw b (λ t.
      omega (arith, h t, in_work-append t s.workers (replicate n checking), in_work-fresh t n))
]
step-Conserves stop s h = elim (Bool-cases (not s.is_running)) [
  | inl b ↦ rw b h
  | inr b ↦ rw b (λ t. omega (arith, h t, in_work-notified t s.workers))
]
step-Conserves join s h = elim (Bool-cases (s.is_running || not (every has_ended s.workers))) [
  | inl b ↦ rw b h
  | inr b ↦
      rw b
        (λ t. unfold in_work in omega (arith, h t, in_work-ended t s.workers (ground (arith, b))))
]
step-Conserves (submit_to task i) s h = elim (Bool-cases (is_locked s.workers)) [
  | inl b ↦ rw b h
  | inr b ↦ rw b (submit-Conserves task i (get_elem? s.workers i) s refl h)
]
step-Conserves (check i) s h = work_at-Conserves (check i) i (get_elem? s.workers i) s refl h
step-Conserves (park i) s h = work_at-Conserves (park i) i (get_elem? s.workers i) s refl h
step-Conserves (finish i) s h = work_at-Conserves (finish i) i (get_elem? s.workers i) s refl h
step-Conserves (doze i) s h = work_at-Conserves (doze i) i (get_elem? s.workers i) s refl h
step-Conserves (wake i) s h = work_at-Conserves (wake i) i (get_elem? s.workers i) s refl h

-- In every interleaving of the steps of the job pump, from a state where it is so, each task
-- that was submitted waits in the queue, is in the work of one thread or has been done, as often
-- as it was submitted: none is lost and none is taken twice.
pub run-Conserves : (moves : List Step) (s : Pump) → Conserves s → Conserves (run moves s)
unfolding run
run-Conserves [] s h = h
run-Conserves (move ∷ moves) s h = run-Conserves moves (step move s) (step-Conserves move s h)
