-- ===== src/Tests/Saving.antt =====
-- Runs of app/vault_saver.cpp, with numbers for vaults.
use steam_account_manager.Common.{ℕ, List, [], ◌∷◌, ◌≡◌, refl, true}
use steam_account_manager.App.VaultSaver.{
  Action, starts, schedules, ticks, works, stops, ended, run, new, flush, step, work, is_settled,
  start, schedule, take_work, work_at,
}
use steam_account_manager.App.VaultSaver.Order.{Coalesces, line, run-Coalesces}
use steam_account_manager.App.VaultSaver.Flush.{work_times, flush-settles, stop-ends}

-- Two changes in a burst, a third while they are written.
abbrev actions : List (Action ℕ)
actions =
    starts
    ∷ schedules 1
    ∷ ticks 100
    ∷ works
    ∷ schedules 2
    ∷ ticks 250
    ∷ works
    ∷ schedules 3
    ∷ works
    ∷ []

attempted_so_far : (run new actions).attempted ≡ 2 ∷ []
unfolding run step new start schedule work work_at take_work
attempted_so_far = refl

run-Coalesces_example : Coalesces (line (run new actions)) (run new actions).scheduled
run-Coalesces_example = run-Coalesces actions

flush-settles_example :
    let s = work_times 5 (flush (run new actions)) in
    (is_settled s ≡ true)
    × (s.scheduled ≡ (run new actions).scheduled)
    × Coalesces s.attempted s.scheduled
unfolding run step new start schedule work work_at take_work
flush-settles_example = flush-settles actions refl refl

stop-ends_example :
    let s = work_times 7 (step (run new actions) stops) in
    (s.worker ≡ ended)
    × (s.scheduled ≡ (run new actions).scheduled)
    × Coalesces s.attempted s.scheduled
unfolding run step new start schedule work work_at take_work
stop-ends_example = stop-ends actions refl refl
