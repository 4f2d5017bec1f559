-- ===== src/App/JobPump.antt =====
-- app/job_pump.{hpp,cpp}: tasks run by threads of their own. A task is a number, `none` an empty
-- function. A step is what one thread does at a time; the mutex is held between a worker's test and its
-- wait, which `park` ends, so that steps that lock it do nothing meanwhile.
pub mod Conserved
use steam_account_manager.Common.{
  ℕ, List, [], ◌∷◌, ◌++◌, Bool, true, false, not, ◌||◌, Option, none, some, if◌then◌else◌, map,
  get_elem?, set, replicate,
}
use steam_account_manager.Common.Every.{every}

-- Where `worker_loop` stands: at the test of its wait, between the test and the wait, in the wait, in a
-- task, in `interruptible_sleep` of a task, behind the loop.
pub data Worker : Type 0 where
  checking parking blocked ended : Worker
  running sleeping : ℕ → Worker

-- `g_queue`, `g_running` and `g_workers`, and logs of the tasks that came and that were done.
pub record Pump : Type 0 where
  pub queue : List ℕ
  pub is_running : Bool
  pub workers : List Worker
  pub submitted : List ℕ
  pub finished : List ℕ

abbrev pub is_parking : Worker → Bool
is_parking parking = true
is_parking w = false

abbrev pub has_ended : Worker → Bool
has_ended ended = true
has_ended w = false

unfoldable pub is_locked : List Worker → Bool
is_locked [] = false
is_locked (w ∷ ws) = is_parking w || is_locked ws

-- What a notification does: a worker tests again, a sleeper sleeps on unless the pump was stopped.
unfoldable pub notified : Bool → Worker → Worker
notified is_running blocked = checking
notified is_running (sleeping task) = if is_running then sleeping task else running task
notified is_running w = w

unfoldable pub put : ℕ → Worker → Pump → Pump
put i w s = record s { workers = set s.workers i w }

-- The test of the wait, with the mutex free, and what follows it.
unfoldable pub check_queue : ℕ → List ℕ → Pump → Pump
check_queue i [] s = put i (if s.is_running then parking else ended) s
check_queue i (task ∷ rest) s = put i (running task) (record s { queue = rest })

-- `submit`, and then `notify_one` at the thread that it picks.
unfoldable pub submit : Option ℕ → Option (ℕ × Worker) → Pump → Pump
submit none picked s = s
submit (some task) none s = record s {
  queue = s.queue ++ (task ∷ []);
  submitted = s.submitted ++ (task ∷ []);
}
submit (some task) (some (i, w)) s =
    put i (notified s.is_running w)
      (record s { queue = s.queue ++ (task ∷ []); submitted = s.submitted ++ (task ∷ []) })

unfoldable pub start_workers : ℕ → Pump → Pump
start_workers n s =
    if s.is_running
    then s
    else record s { is_running = true; workers = s.workers ++ replicate n checking }

-- Up to `notify_all`, which does not take the mutex, and the rest.
unfoldable pub stop_workers : Pump → Pump
stop_workers s =
    if not s.is_running
    then s
    else record s { is_running = false; workers = map (notified false) s.workers }

unfoldable pub join_workers : Pump → Pump
join_workers s =
    if s.is_running || not (every has_ended s.workers) then s else record s { workers = [] }

pub data Step : Type 0 where
  start : ℕ → Step
  stop join : Step
  submit_to : Option ℕ → ℕ → Step
  check park finish doze wake : ℕ → Step

-- The step of a worker, which stands where it does.
unfoldable pub work : Step → ℕ → Worker → Pump → Pump
work (check j) i checking s = if is_locked s.workers then s else check_queue i s.queue s
work (park j) i parking s = put i blocked s
work (finish j) i (running task) s =
    put i checking (record s { finished = s.finished ++ (task ∷ []) })
work (doze j) i (running task) s =
    if is_locked s.workers || not s.is_running then s else put i (sleeping task) s
work (wake j) i (sleeping task) s = if is_locked s.workers then s else put i (running task) s
work (wake j) i blocked s = if is_locked s.workers then s else put i checking s
work move i w s = s

unfoldable pub work_at : Step → ℕ → Option Worker → Pump → Pump
work_at move i none s = s
work_at move i (some w) s = work move i w s

unfoldable pub picked : ℕ → Option Worker → Option (ℕ × Worker)
picked i none = none
picked i (some w) = some (i, w)

unfoldable pub step : Step → Pump → Pump
step (start n) s = start_workers n s
step stop s = stop_workers s
step join s = join_workers s
step (submit_to task i) s =
    if is_locked s.workers then s else submit task (picked i (get_elem? s.workers i)) s
step (check i) s = work_at (check i) i (get_elem? s.workers i) s
step (park i) s = work_at (park i) i (get_elem? s.workers i) s
step (finish i) s = work_at (finish i) i (get_elem? s.workers i) s
step (doze i) s = work_at (doze i) i (get_elem? s.workers i) s
step (wake i) s = work_at (wake i) i (get_elem? s.workers i) s

unfoldable pub run : List Step → Pump → Pump
run [] s = s
run (t ∷ ts) s = run ts (step t s)
