-- ===== src/Tests/Pumping.antt =====
-- Runs of app/job_pump.cpp.
use steam_account_manager.Common.{List, [], ◌∷◌, ◌≡◌, refl, false, some}
use steam_account_manager.Common.Every.{every}
use steam_account_manager.App.JobPump.{
  blocked, Pump, Step, start, stop, join, submit_to, check, park, finish, doze, run, step,
  start_workers, stop_workers, join_workers, work, work_at, check_queue, is_locked, notified, put,
}
use steam_account_manager.App.JobPump.Conserved.{Conserves, run-Conserves, count, in_work}

abbrev no_workers : Pump
no_workers = record { queue = []; is_running = false; workers = []; submitted = []; finished = [] }

-- A stop between a worker's test and its wait: the worker waits for a notification that has passed.
stop_workers_run :
    run (start 1 ∷ check 0 ∷ stop ∷ park 0 ∷ check 0 ∷ finish 0 ∷ join ∷ []) no_workers
    ≡ record no_workers { workers = blocked ∷ [] }
unfolding run step start_workers stop_workers join_workers work work_at check_queue is_locked
    notified put every
stop_workers_run = refl

abbrev moves : List Step
moves =
    start 2
    ∷ submit_to (some 7) 0
    ∷ check 1
    ∷ submit_to (some 8) 0
    ∷ doze 1
    ∷ stop
    ∷ check 0
    ∷ finish 1
    ∷ []

run-Conserves_example : Conserves (run moves no_workers)
unfolding count in_work
run-Conserves_example = run-Conserves moves no_workers (λ t. refl)
