-- ===== src/Cleaner/Executed.antt =====
-- core/cleaner/execute.cpp: what a run does, in which order, and what its result counts.
use steam_account_manager.Common.{
  ℕ, ◌+◌, ◌%◌, ◌^◌, ◌<◌, List, [], ◌∷◌, ◌++◌, Option, none, some, ◌≡◌, refl, arith, length,
  append_assoc, append-nil, sym, ◌∙◌, Option-cases, inl, inr,
}
use steam_account_manager.Cleaner.{PlanStep, Plan}
use steam_account_manager.Cleaner.Execute.{
  Platform, CleanResult, Event, ran, progress, log_event, add_outcome, execute_one, execute_steps,
  execute,
}

-- Each step run once, in order, on what the one before it left: what is left, and each step's
-- message, `none` where it succeeded.
unfoldable pub run_all :
    {W : Type 0} → Platform W → W → List PlanStep → W × List (PlanStep × Option (List ℕ))
run_all p w [] = (w, [])
run_all p w (s ∷ ss) =
    let (w', outcome) = execute_one p w s in
    let (w'', outcomes) = run_all p w' ss in (w'', (s, outcome) ∷ outcomes)

abbrev pub successes : List (PlanStep × Option (List ℕ)) → ℕ
successes [] = 0
successes ((s, none) ∷ os) = 1 + successes os
successes ((s, some message) ∷ os) = successes os

abbrev pub sizes : List (PlanStep × Option (List ℕ)) → ℕ
sizes [] = 0
sizes ((s, none) ∷ os) = s.op.size_bytes + sizes os
sizes ((s, some message) ∷ os) = sizes os

abbrev pub messages : List (PlanStep × Option (List ℕ)) → List (List ℕ)
messages [] = []
messages ((s, none) ∷ os) = messages os
messages ((s, some message) ∷ os) = message ∷ messages os

-- Each step is run and then reported, as number `n` and following.
unfoldable pub reported : ℕ → ℕ → List PlanStep → List Event
reported total n [] = []
reported total n (s ∷ ss) = ran s ∷ progress (n + 1) total ∷ reported total (n + 1) ss

module _ {W : Type 0} (p : Platform W) where
  execute_steps-counts :
      (total : ℕ) (w : W) (n : ℕ) (r : CleanResult) (ss : List PlanStep)
      → n + length ss < 2 ^ 31
      → r.succeeded + r.failed ≡ n
      → r.bytes_freed < 2 ^ 64
      → let (w', r') = execute_steps p total w n r ss in
        let (left, outcomes) = run_all p w ss in
        (w' ≡ left)
        × (r'.succeeded ≡ r.succeeded + successes outcomes)
        × (r'.succeeded + r'.failed ≡ n + length ss)
        × (r'.bytes_freed ≡ (r.bytes_freed + sizes outcomes) % 2 ^ 64)
        × (r'.failure_messages ≡ r.failure_messages ++ messages outcomes)
        × (r'.trace ≡ r.trace ++ reported total n ss)
  unfolding execute_steps run_all reported add_outcome log_event
  execute_steps-counts total w n r [] h k l = (
    refl,
    omega arith,
    omega arith,
    omega arith,
    sym (append-nil r.failure_messages),
    sym (append-nil r.trace),
  )
  execute_steps-counts total w n r (s ∷ ss) h k l =
      let e : (n + 1) % 2 ^ 31 ≡ n + 1 = omega arith in
      let logged = λ (trace : List Event).
        append_assoc (r.trace ++ ran s ∷ []) (progress (n + 1) total ∷ []) trace
        ∙ append_assoc r.trace (ran s ∷ []) (progress (n + 1) total ∷ trace) in
      elim (Option-cases (execute_one p w s).1) [
        | inl ok ↦
            let r₁ =
              log_event (add_outcome (log_event r (ran s)) s.op none) (progress (n + 1) total) in
            let (final, good, both, bytes, failures, trace) =
              execute_steps-counts total (execute_one p w s).0 (n + 1) r₁ ss (omega arith)
                (omega arith) (omega arith) in
            rw (ok, execute_steps, run_all, e)
              (
                final,
                omega (arith, good),
                omega (arith, both),
                omega (arith, bytes),
                failures,
                trace ∙ logged (reported total (n + 1) ss),
              )
        | inr (message, bad) ↦
            let r₁ =
              log_event (add_outcome (log_event r (ran s)) s.op (some message))
                (progress (n + 1) total) in
            let (final, good, both, bytes, failures, trace) =
              execute_steps-counts total (execute_one p w s).0 (n + 1) r₁ ss (omega arith)
                (omega arith) (omega arith) in
            rw (bad, execute_steps, run_all, e)
              (
                final,
                omega (arith, good),
                omega (arith, both),
                bytes,
                failures ∙ append_assoc r.failure_messages (message ∷ []) _,
                trace ∙ logged (reported total (n + 1) ss),
              )
      ]

  -- A run of a plan of fewer than 2 ^ 31 steps runs each step once, in order, on what the one
  -- before it left, and calls on_progress after each step and before the next, with its number
  -- and the number of steps. The result counts the steps that succeeded, and with those that
  -- failed all of them; its messages are those of the steps that failed, in order, and
  -- bytes_freed is the sum of the sizes of those that succeeded, modulo 2 ^ 64.
  pub execute_lem :
      (w : W) (plan : Plan)
      → length plan.steps < 2 ^ 31
      → let (w', r) = execute p w plan in
        let (left, outcomes) = run_all p w plan.steps in
        (w' ≡ left)
        × (r.succeeded ≡ successes outcomes)
        × (r.succeeded + r.failed ≡ length plan.steps)
        × (r.bytes_freed ≡ sizes outcomes % 2 ^ 64)
        × (r.failure_messages ≡ messages outcomes)
        × (r.trace ≡ reported (length plan.steps) 0 plan.steps)
  unfolding execute
  execute_lem w plan h =
      let r : CleanResult = record {
        succeeded = 0;
        failed = 0;
        bytes_freed = 0;
        failure_messages = [];
        trace = [];
      } in
      let total : length plan.steps % 2 ^ 31 ≡ length plan.steps = omega arith in
      let (final, good, both, bytes, failures, trace) =
        execute_steps-counts (length plan.steps) w 0 r plan.steps (omega arith) refl
          (omega arith) in
      rw total
        (final, omega (arith, good), omega (arith, both), omega (arith, bytes), failures, trace)
