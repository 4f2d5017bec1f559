-- ===== src/Cleaner/Measured.antt =====
-- core/cleaner/plan.cpp: what measuring adds to a plan, and that it changes nothing else.
use steam_account_manager.Common.{
  ℕ, ◌+◌, ◌%◌, ◌^◌, List, [], ◌∷◌, ◌++◌, map, Bool, true, false, ◌≡◌, refl, sym, ◌∙◌, ap, arith,
  append-nil, append_assoc,
}
use steam_account_manager.Cleaner.{PlanStep, Plan, Target, ResolveContext, Machine, PreserveList}
use steam_account_manager.Common.{Option}
use steam_account_manager.Cleaner.Planner.{
  compute_size, target_steps, add_step, add_steps, add_targets, build_plan, measured, files_of,
}

unfoldable pub sum_of : (PlanStep → ℕ) → List PlanStep → ℕ
sum_of f [] = 0
sum_of f (s ∷ ss) = f s + sum_of f ss

sum_of-append :
    (f : PlanStep → ℕ) (xs ys : List PlanStep) → sum_of f (xs ++ ys) ≡ sum_of f xs + sum_of f ys
unfolding sum_of
sum_of-append f [] ys = omega arith
sum_of-append f (x ∷ xs) ys = omega (arith, sum_of-append f xs ys)

wrap_add : (a b : ℕ) → (a % 2 ^ 64 + b) % 2 ^ 64 ≡ (a + b) % 2 ^ 64
wrap_add a b = omega arith

abbrev pub size_of : PlanStep → ℕ
size_of s = s.op.size_bytes

abbrev pub file_count_of : Machine → PlanStep → ℕ
file_count_of m s = files_of m s.op

-- The totals are those of the steps, modulo the width of the counters.
pub HasTotals : Machine → Plan → Type 0
HasTotals m plan =
    (plan.total_bytes ≡ sum_of size_of plan.steps % 2 ^ 64)
    × (plan.total_file_count ≡ sum_of (file_count_of m) plan.steps % 2 ^ 64)

sum_of-snoc :
    (f : PlanStep → ℕ) (xs : List PlanStep) (x : PlanStep)
    → (sum_of f xs % 2 ^ 64 + f x) % 2 ^ 64 ≡ sum_of f (xs ++ x ∷ []) % 2 ^ 64
sum_of-snoc f xs x =
    let one : sum_of f (x ∷ []) ≡ f x = unfold sum_of in omega arith in
    rw (sum_of-append f xs (x ∷ []), one) (wrap_add (sum_of f xs) (f x))

add_step-HasTotals :
    (m : Machine) (plan : Plan) (s : PlanStep)
    → HasTotals m plan
    → HasTotals m (add_step m true plan s)
unfolding HasTotals add_step
add_step-HasTotals m plan s (b, c) =
    rw (b, c)
      (
        sum_of-snoc size_of plan.steps (measured m s),
        sum_of-snoc (file_count_of m) plan.steps (measured m s),
      )

add_steps-HasTotals :
    (m : Machine) (plan : Plan) (ss : List PlanStep)
    → HasTotals m plan
    → HasTotals m (add_steps m true plan ss)
unfolding add_steps
add_steps-HasTotals m plan [] h = h
add_steps-HasTotals m plan (s ∷ ss) h =
    add_steps-HasTotals m (add_step m true plan s) ss (add_step-HasTotals m plan s h)

module _ (m : Machine) (ctx : ResolveContext) (preserve : Option PreserveList) where
  add_targets-HasTotals :
      (plan : Plan) (ts : List Target)
      → HasTotals m plan
      → HasTotals m (add_targets m ctx (record { preserve = preserve; measure = true }) plan ts)
  unfolding add_targets
  add_targets-HasTotals plan [] h = h
  add_targets-HasTotals plan (t ∷ ts) h =
      let steps = target_steps m ctx preserve t in
      add_targets-HasTotals (add_steps m true plan steps) ts (add_steps-HasTotals m plan steps h)

-- A plan that is measured counts the bytes and the files of its steps, modulo 2 ^ 64.
pub build_plan-HasTotals :
    (targets : List Target) (m : Machine) (ctx : ResolveContext) (preserve : Option PreserveList)
    → HasTotals m (build_plan targets m ctx (record { preserve = preserve; measure = true }))
unfolding build_plan
build_plan-HasTotals targets m ctx preserve =
    add_targets-HasTotals m ctx preserve
      (record { steps = []; total_bytes = 0; total_file_count = 0 }) targets
      (unfold HasTotals in unfold sum_of in (refl, refl))

-- A step without its size.
abbrev pub unsized : PlanStep → PlanStep
unsized s = record s { op = record s.op { size_bytes = 0 } }

compute_size-unsized : (m : Machine) (s : PlanStep) → unsized (measured m s) ≡ unsized s
unfolding compute_size
compute_size-unsized m s = ground arith

map-append {ℓ κ} :
    {A : Type ℓ} {B : Type κ} (f : A → B) (xs ys : List A) → map f (xs ++ ys) ≡ map f xs ++ map f ys
map-append f [] ys = refl
map-append f (x ∷ xs) ys = ap (f x ∷◌) (map-append f xs ys)

add_step-unsized :
    (m : Machine) (measure : Bool) (plan : Plan) (s : PlanStep)
    → map unsized (add_step m measure plan s).steps ≡ map unsized plan.steps ++ unsized s ∷ []
unfolding add_step
add_step-unsized m true plan s =
    map-append unsized plan.steps (measured m s ∷ []) ∙ rw (compute_size-unsized m s) refl
add_step-unsized m false plan s = map-append unsized plan.steps (s ∷ [])

add_steps-unsized :
    (m : Machine) (measure : Bool) (plan : Plan) (ss : List PlanStep)
    → map unsized (add_steps m measure plan ss).steps ≡ map unsized plan.steps ++ map unsized ss
unfolding add_steps
add_steps-unsized m measure plan [] = sym (append-nil (map unsized plan.steps))
add_steps-unsized m measure plan (s ∷ ss) =
    rw
      (
        add_steps-unsized m measure (add_step m measure plan s) ss,
        add_step-unsized m measure plan s,
      )
      (append_assoc (map unsized plan.steps) (unsized s ∷ []) (map unsized ss))

module _ (m : Machine) (ctx : ResolveContext) (preserve : Option PreserveList) where
  add_targets-unsized :
      (b c : Bool) (plan plan' : Plan) (ts : List Target)
      → map unsized plan.steps ≡ map unsized plan'.steps
      → map unsized (add_targets m ctx (record { preserve = preserve; measure = b }) plan ts).steps
        ≡ map unsized
            (add_targets m ctx (record { preserve = preserve; measure = c }) plan' ts).steps
  unfolding add_targets
  add_targets-unsized b c plan plan' [] h = h
  add_targets-unsized b c plan plan' (t ∷ ts) h =
      let steps = target_steps m ctx preserve t in
      add_targets-unsized b c (add_steps m b plan steps) (add_steps m c plan' steps) ts (
        add_steps-unsized m b plan steps
        ∙ ap (λ xs. xs ++ map unsized steps) h
        ∙ sym (add_steps-unsized m c plan' steps))

-- With and without measuring, build_plan plans the same steps but for their sizes.
pub build_plan-unsized :
    (targets : List Target) (m : Machine) (ctx : ResolveContext) (preserve : Option PreserveList)
    → map unsized (build_plan targets m ctx (record { preserve = preserve; measure = true })).steps
      ≡ map unsized
          (build_plan targets m ctx (record { preserve = preserve; measure = false })).steps
unfolding build_plan
build_plan-unsized targets m ctx preserve =
    let plan : Plan = record { steps = []; total_bytes = 0; total_file_count = 0 } in
    add_targets-unsized m ctx preserve true false plan plan targets refl
