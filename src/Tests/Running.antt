-- ===== src/Tests/Running.antt =====
-- Runs of core/cleaner/plan.cpp on the catalog, and of core/cleaner/execute.cpp on a machine that
-- removes files and fails at folders.
use steam_account_manager.Common.{
  ℕ, ◌+◌, ◌%◌, ◌^◌, arith, [], ◌∷◌, ◌++◌, map, ◌≡◌, true, false, refl, some, none, length, inl,
  text_eq,
}
use steam_account_manager.Codec.Base64.{codes}
use steam_account_manager.VdfTree.{
  Node, object, leaf, nil, entry, find, find_child, remove, set, set_child, erase_child, has_child,
}
use steam_account_manager.Cleaner.{OpKind, Plan}
use steam_account_manager.Cleaner.Rewrites.{operation, plan_step}
use steam_account_manager.Cleaner.Planner.{build_plan_by_ids}
use steam_account_manager.Cleaner.Catalog.{catalog}
use steam_account_manager.Cleaner.{AccountInfo, ResolveContext}
use steam_account_manager.Cleaner.SparedFolders.{
  AccountTarget, id_of, without_kept, build_plan_by_ids-spares,
}
use steam_account_manager.Cleaner.Execute.{Platform, execute, edit_at, remove_key, path_keys}
use steam_account_manager.Cleaner.Executed.{
  execute_lem, run_all, successes, sizes, messages, reported,
}
use steam_account_manager.Cleaner.Surgical.{edit_at-surgical, find_path, diverges}
use steam_account_manager.Tests.Cleaning.{pc, install, keep_ann, file_op}

-- Two accounts with userdata folders.
abbrev busy_install : ResolveContext
busy_install = record install {
  accounts =
      map (λ (acc : AccountInfo). record acc { userdata_path = codes "u\\" ++ acc.steamid64 })
        install.accounts;
}

build_plan_by_ids-spares_example :
    build_plan_by_ids
      (catalog pc)
      (map id_of (AccountTarget.userdata ∷ AccountTarget.controller_configs ∷ []))
      pc
      busy_install
      (record { preserve = some keep_ann; measure = true })
    ≡ build_plan_by_ids
        (catalog pc)
        (map id_of (AccountTarget.userdata ∷ AccountTarget.controller_configs ∷ []))
        pc
        (without_kept keep_ann busy_install)
        (record { preserve = none; measure = true })
build_plan_by_ids-spares_example =
    build_plan_by_ids-spares pc busy_install keep_ann true
      (AccountTarget.userdata ∷ AccountTarget.controller_configs ∷ [])

-- A machine whose state is the number of its changes.
abbrev counter : Platform ℕ
counter = record {
  delete_file_forced = λ w path. (w + 1, true);
  delete_directory_recursive = λ w path. (w, false);
  delete_value = λ w hive subkey name. (w + 1, true);
  delete_key_recursive = λ w hive subkey. (w + 1, true);
  write_string = λ w hive subkey name payload. (w + 1, true);
  load = λ w path. none;
  save = λ w doc path. (w, true);
}

abbrev plan : Plan
plan = record {
  steps =
      plan_step (codes "a") (file_op (codes "x"))
      ∷ plan_step (codes "b") (operation OpKind.remove_tree (codes "y") [] [] [])
      ∷ [];
  total_bytes = 0;
  total_file_count = 0;
}

execute_lem_example :
    let (w', r) = execute counter 0 plan in
    let (left, outcomes) = run_all counter 0 plan.steps in
    (w' ≡ left)
    × (r.succeeded ≡ successes outcomes)
    × (r.succeeded + r.failed ≡ length plan.steps)
    × (r.bytes_freed ≡ sizes outcomes % 2 ^ 64)
    × (r.failure_messages ≡ messages outcomes)
    × (r.trace ≡ reported (length plan.steps) 0 plan.steps)
execute_lem_example = execute_lem counter 0 plan (omega arith)

abbrev users : Node
users = object (
    entry (codes "1") (object (entry (codes "MostRecent") (leaf (codes "1")) nil))
      (entry (codes "2") (object (entry (codes "MostRecent") (leaf (codes "0")) nil)) nil))

abbrev users' : Node
users' = object (
    entry (codes "1") (object nil)
      (entry (codes "2") (object (entry (codes "MostRecent") (leaf (codes "0")) nil)) nil))

edit_at-surgical_example :
    find_path users' (codes "2" ∷ codes "MostRecent" ∷ [])
    ≡ find_path users (codes "2" ∷ codes "MostRecent" ∷ [])
unfolding edit_at remove_key remove set find find_child set_child erase_child has_child text_eq
    diverges
edit_at-surgical_example =
    edit_at-surgical (codes "MostRecent") [] users users' (codes "1" ∷ [])
      (codes "2" ∷ codes "MostRecent" ∷ []) (inl refl) refl

-- A path of keys is split at its backslashes.
path_keys-nested :
    path_keys (codes "Software\\Valve\\Steam")
    ≡ (codes "Software" ∷ codes "Valve" ∷ [], codes "Steam")
unfolding path_keys
path_keys-nested = refl
