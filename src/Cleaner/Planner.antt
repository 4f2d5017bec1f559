-- ===== src/Cleaner/Planner.antt =====
-- core/cleaner/plan.cpp: `build_plan`, which resolves the targets, filters by the keep list and
-- measures. A target that is null or cannot resolve is left out of the list.
use steam_account_manager.Common.{
  ℕ, ◌%◌, ◌^◌, ◌+◌, List, [], ◌∷◌, ◌++◌, map, Bool, true, false, not, ◌&&◌, Option, none, some,
  if◌then◌else◌, text_eq,
}
use steam_account_manager.Codec.Base64.{codes}
use steam_account_manager.Cleaner.{
  Operation, PreserveList, preserves, is_empty, PlanStep, Plan, PlanOptions, Target, ResolveContext,
  Machine, erase_if, is_remove_file, is_remove_tree,
}
use steam_account_manager.Cleaner.Rewrites.{
  plan_step, rewrite_loginusers, rewrite_autologin, rewrite_remote_clients,
}
use steam_account_manager.Cleaner.ConfigRewrites.{rewrite_config_vdf, rewrite_local_vdf}

unfoldable pub compute_size : Machine → Operation → Operation
compute_size m op =
    if is_remove_file op.kind
    then record op { size_bytes = m.size_recursive op.target }
    else if is_remove_tree op.kind
    then record op { size_bytes = m.size_recursive op.target }
    else op

unfoldable pub preserve_filters_op : Option PreserveList → Operation → Bool
preserve_filters_op none op = false
preserve_filters_op (some keep) op =
    not (is_empty op.account_steamid64) && preserves keep op.account_steamid64

-- One line of `build_plan`'s rewrites: the rewrite if the target is the one it is for.
abbrev pub rewrite_if : Bool → (List PlanStep → List PlanStep) → List PlanStep → List PlanStep
rewrite_if true rewrite steps = rewrite steps
rewrite_if false rewrite steps = steps

unfoldable pub rewrite_target :
    List ℕ → Machine → ResolveContext → Option PreserveList → List PlanStep → List PlanStep
rewrite_target id m ctx preserve steps =
    rewrite_if (text_eq id (codes "steam.local_vdf")) (rewrite_local_vdf id m ctx preserve) (
      rewrite_if (text_eq id (codes "steam.config_vdf")) (rewrite_config_vdf id m ctx preserve) (
        rewrite_if (text_eq id (codes "steam.remoteclients")) (rewrite_remote_clients id preserve) (
          rewrite_if (text_eq id (codes "steam.reg.autologin"))
            (rewrite_autologin id m ctx preserve)
            (rewrite_if (text_eq id (codes "steam.loginusers")) (rewrite_loginusers id ctx preserve)
              steps))))

-- `local` before the loop that measures.
unfoldable pub target_steps :
    Machine → ResolveContext → Option PreserveList → Target → List PlanStep
target_steps m ctx preserve t =
    rewrite_target t.id m ctx preserve
      (map (plan_step t.id) (erase_if (preserve_filters_op preserve) (t.resolve ctx)))

abbrev pub measured : Machine → PlanStep → PlanStep
measured m s = record s { op = compute_size m s.op }

abbrev pub files_of : Machine → Operation → ℕ
files_of m op =
    if is_remove_file op.kind
    then 1
    else if is_remove_tree op.kind
    then m.file_count_recursive op.target
    else 0

unfoldable pub add_step : Machine → Bool → Plan → PlanStep → Plan
add_step m true plan s =
    let s' = measured m s in
    record {
      steps = plan.steps ++ s' ∷ [];
      total_bytes = (plan.total_bytes + s'.op.size_bytes) % 2 ^ 64;
      total_file_count = (plan.total_file_count + files_of m s'.op) % 2 ^ 64;
    }
add_step m false plan s = record plan { steps = plan.steps ++ s ∷ [] }

unfoldable pub add_steps : Machine → Bool → Plan → List PlanStep → Plan
add_steps m measure plan [] = plan
add_steps m measure plan (s ∷ ss) = add_steps m measure (add_step m measure plan s) ss

unfoldable pub add_targets : Machine → ResolveContext → PlanOptions → Plan → List Target → Plan
add_targets m ctx opts plan [] = plan
add_targets m ctx opts plan (t ∷ ts) =
    add_targets m ctx opts (add_steps m opts.measure plan (target_steps m ctx opts.preserve t)) ts

unfoldable pub build_plan : List Target → Machine → ResolveContext → PlanOptions → Plan
build_plan targets m ctx opts =
    add_targets m ctx opts (record { steps = []; total_bytes = 0; total_file_count = 0 }) targets

-- `find_target` (targets.cpp) in a catalog.
unfoldable pub find_target : List Target → List ℕ → Option Target
find_target [] id = none
find_target (t ∷ ts) id = if text_eq t.id id then some t else find_target ts id

unfoldable pub found_targets : List Target → List (List ℕ) → List Target
found_targets catalog [] = []
found_targets catalog (id ∷ ids) =
    let rest = found_targets catalog ids in
    elim (find_target catalog id) [ none ↦ rest | some t ↦ t ∷ rest ]

unfoldable pub build_plan_by_ids :
    List Target → List (List ℕ) → Machine → ResolveContext → PlanOptions → Plan
build_plan_by_ids catalog ids m ctx opts = build_plan (found_targets catalog ids) m ctx opts
