-- ===== src/Cleaner/SparedFolders.antt =====
-- core/cleaner/plan.cpp and targets.cpp: the keep list against the targets that visit each account's
-- userdata folder or its key below Users in the registry.
use steam_account_manager.Common.{
  ℕ, List, [], ◌∷◌, ◌++◌, map, Bool, not, ◌&&◌, if◌then◌else◌, text_eq, Option, none, some, ◌≡◌,
  refl, ◌∙◌, ap, arith,
}
use steam_account_manager.Codec.Base64.{codes}
use steam_account_manager.Cleaner.{
  OpKind, Operation, AccountInfo, PreserveList, preserves, is_empty, PlanStep, Plan, Target,
  ResolveContext, Machine, erase_if,
}
use steam_account_manager.Cleaner.Targets.{push_dir, users_of, per_account, path_of}
use steam_account_manager.Cleaner.PathTargets.{
  per_account_tree, resolve_users_subtree, resolve_userdata_full, resolve_controller_configs,
  resolve_userdata_screenshots, resolve_userdata_shortcuts, resolve_userdata_librarycache,
  resolve_userdata_sharedconfig, resolve_userdata_gamerecordings, resolve_userdata_ugcmsgcache,
  resolve_userdata_inventory_cache,
}
use steam_account_manager.Cleaner.Catalog.{target, catalog}
use steam_account_manager.Cleaner.Planner.{
  preserve_filters_op, rewrite_target, target_steps, add_steps, add_targets, build_plan,
  find_target, found_targets, build_plan_by_ids,
}

-- The targets that resolve to a removal for each account.
pub data AccountTarget : Type 0 where
  reg_users : AccountTarget
  userdata : AccountTarget
  controller_configs : AccountTarget
  shortcuts : AccountTarget
  screenshots : AccountTarget
  inventory_cache : AccountTarget
  librarycache : AccountTarget
  sharedconfig : AccountTarget
  gamerecordings : AccountTarget
  ugcmsgcache : AccountTarget

unfoldable pub id_of : AccountTarget → List ℕ
id_of AccountTarget.reg_users = codes "steam.reg.users"
id_of AccountTarget.userdata = codes "steam.userdata"
id_of AccountTarget.controller_configs = codes "steam.controller_configs"
id_of AccountTarget.shortcuts = codes "steam.userdata_shortcuts"
id_of AccountTarget.screenshots = codes "steam.userdata_screenshots"
id_of AccountTarget.inventory_cache = codes "steam.userdata_inventory_cache"
id_of AccountTarget.librarycache = codes "steam.userdata_librarycache"
id_of AccountTarget.sharedconfig = codes "steam.userdata_sharedconfig"
id_of AccountTarget.gamerecordings = codes "steam.userdata_gamerecordings"
id_of AccountTarget.ugcmsgcache = codes "steam.userdata_ugcmsgcache"

-- The accounts that are not to keep.
unfoldable pub others : PreserveList → List AccountInfo → List AccountInfo
others keep [] = []
others keep (acc ∷ accs) =
    let rest = others keep accs in if preserves keep acc.steamid64 then rest else acc ∷ rest

abbrev pub without_kept : PreserveList → ResolveContext → ResolveContext
without_kept keep ctx = record ctx { accounts = others keep ctx.accounts }

resolver : Machine → AccountTarget → ResolveContext → List Operation
resolver m AccountTarget.reg_users = resolve_users_subtree
resolver m AccountTarget.userdata = resolve_userdata_full
resolver m AccountTarget.controller_configs = resolve_controller_configs
resolver m AccountTarget.shortcuts = resolve_userdata_shortcuts
resolver m AccountTarget.screenshots = resolve_userdata_screenshots
resolver m AccountTarget.inventory_cache = resolve_userdata_inventory_cache
resolver m AccountTarget.librarycache = resolve_userdata_librarycache m
resolver m AccountTarget.sharedconfig = resolve_userdata_sharedconfig
resolver m AccountTarget.gamerecordings = resolve_userdata_gamerecordings
resolver m AccountTarget.ugcmsgcache = resolve_userdata_ugcmsgcache

abbrev account_target : Machine → AccountTarget → Target
account_target m t = target (id_of t) (resolver m t)

found :
    (m : Machine) (t : AccountTarget)
    → find_target (catalog m) (id_of t) ≡ some (account_target m t)
unfolding find_target catalog id_of resolver text_eq
found m AccountTarget.reg_users = refl
found m AccountTarget.userdata = refl
found m AccountTarget.controller_configs = refl
found m AccountTarget.shortcuts = refl
found m AccountTarget.screenshots = refl
found m AccountTarget.inventory_cache = refl
found m AccountTarget.librarycache = refl
found m AccountTarget.sharedconfig = refl
found m AccountTarget.gamerecordings = refl
found m AccountTarget.ugcmsgcache = refl

found_targets-ids :
    (m : Machine) (ts : List AccountTarget)
    → found_targets (catalog m) (map id_of ts) ≡ map (account_target m) ts
unfolding found_targets
found_targets-ids m [] = refl
found_targets-ids m (t ∷ ts) =
    rw (found m t, found_targets) (ap (account_target m t ∷◌) (found_targets-ids m ts))

not_rewritten :
    (t : AccountTarget) (m : Machine) (ctx : ResolveContext) (preserve : Option PreserveList)
    (steps : List PlanStep)
    → rewrite_target (id_of t) m ctx preserve steps ≡ steps
unfolding rewrite_target id_of text_eq
not_rewritten AccountTarget.reg_users m ctx preserve steps = refl
not_rewritten AccountTarget.userdata m ctx preserve steps = refl
not_rewritten AccountTarget.controller_configs m ctx preserve steps = refl
not_rewritten AccountTarget.shortcuts m ctx preserve steps = refl
not_rewritten AccountTarget.screenshots m ctx preserve steps = refl
not_rewritten AccountTarget.inventory_cache m ctx preserve steps = refl
not_rewritten AccountTarget.librarycache m ctx preserve steps = refl
not_rewritten AccountTarget.sharedconfig m ctx preserve steps = refl
not_rewritten AccountTarget.gamerecordings m ctx preserve steps = refl
not_rewritten AccountTarget.ugcmsgcache m ctx preserve steps = refl

erase_if-none : (ops : List Operation) → erase_if (preserve_filters_op none) ops ≡ ops
unfolding erase_if preserve_filters_op
erase_if-none [] = refl
erase_if-none (op ∷ ops) = ap (op ∷◌) (erase_if-none ops)

module _ (keep : PreserveList) where
  -- An account without an id is never to keep.
  kept_has_id : (sid : List ℕ) → (not (is_empty sid) && preserves keep sid) ≡ preserves keep sid
  unfolding preserves
  kept_has_id [] = refl
  kept_has_id (c ∷ cs) = refl

  erase_if-per_account :
      (kind : OpKind) (passes : List ℕ → Bool) (relative : List (List ℕ)) (accs : List AccountInfo)
      → erase_if (preserve_filters_op (some keep)) (per_account kind passes relative accs)
        ≡ per_account kind passes relative (others keep accs)
  unfolding erase_if preserve_filters_op per_account others
  erase_if-per_account kind passes relative [] = refl
  erase_if-per_account kind passes relative (acc ∷ accs) =
      ground (arith, erase_if-per_account kind passes relative accs, kept_has_id acc.steamid64)

  erase_if-users_of :
      (accs : List AccountInfo)
      → erase_if (preserve_filters_op (some keep)) (users_of accs) ≡ users_of (others keep accs)
  unfolding erase_if preserve_filters_op users_of others
  erase_if-users_of [] = refl
  erase_if-users_of (acc ∷ accs) = ground (arith, erase_if-users_of accs, kept_has_id acc.steamid64)

  -- What is of no account is never left out.
  erase_if-of_all :
      (ops : List Operation) (op : Operation)
      → op.account_steamid64 ≡ []
      → erase_if (preserve_filters_op (some keep)) (ops ++ op ∷ [])
        ≡ erase_if (preserve_filters_op (some keep)) ops ++ op ∷ []
  unfolding erase_if preserve_filters_op
  erase_if-of_all [] op h = rw h refl
  erase_if-of_all (o ∷ ops) op h = ground (arith, erase_if-of_all ops op h)

  module _ (m : Machine) (ctx : ResolveContext) where
    resolver-spares :
        (t : AccountTarget)
        → erase_if (preserve_filters_op (some keep)) (resolver m t ctx)
          ≡ resolver m t (without_kept keep ctx)
    unfolding resolver per_account_tree resolve_users_subtree resolve_userdata_full
        resolve_controller_configs resolve_userdata_screenshots resolve_userdata_shortcuts
        resolve_userdata_librarycache resolve_userdata_sharedconfig resolve_userdata_gamerecordings
        resolve_userdata_ugcmsgcache resolve_userdata_inventory_cache
    resolver-spares AccountTarget.reg_users = erase_if-users_of ctx.accounts
    resolver-spares AccountTarget.userdata = erase_if-per_account _ _ _ ctx.accounts
    resolver-spares AccountTarget.controller_configs =
        let last = push_dir (
          path_of ctx.install_path
            (codes "steamapps" ∷ codes "common" ∷ codes "Steam Controller Configs" ∷ [])) in
        erase_if-of_all _ last refl
        ∙ ap (λ (ops : List Operation). ops ++ last ∷ []) (erase_if-per_account _ _ _ ctx.accounts)
    resolver-spares AccountTarget.shortcuts = erase_if-per_account _ _ _ ctx.accounts
    resolver-spares AccountTarget.screenshots = erase_if-per_account _ _ _ ctx.accounts
    resolver-spares AccountTarget.inventory_cache = erase_if-per_account _ _ _ ctx.accounts
    resolver-spares AccountTarget.librarycache = erase_if-per_account _ _ _ ctx.accounts
    resolver-spares AccountTarget.sharedconfig = erase_if-per_account _ _ _ ctx.accounts
    resolver-spares AccountTarget.gamerecordings = erase_if-per_account _ _ _ ctx.accounts
    resolver-spares AccountTarget.ugcmsgcache = erase_if-per_account _ _ _ ctx.accounts

    target_steps-spares :
        (t : AccountTarget)
        → target_steps m ctx (some keep) (account_target m t)
          ≡ target_steps m (without_kept keep ctx) none (account_target m t)
    unfolding target_steps
    target_steps-spares t =
        rw
          (
            not_rewritten t m ctx (some keep),
            not_rewritten t m (without_kept keep ctx) none,
            resolver-spares t,
            erase_if-none (resolver m t (without_kept keep ctx)),
          )
          refl

    add_targets-spares :
        (measure : Bool) (plan : Plan) (ts : List AccountTarget)
        → add_targets m ctx
            (record { preserve = some keep; measure = measure })
            plan
            (map (account_target m) ts)
          ≡ add_targets m
              (without_kept keep ctx)
              (record { preserve = none; measure = measure })
              plan
              (map (account_target m) ts)
    unfolding add_targets
    add_targets-spares measure plan [] = refl
    add_targets-spares measure plan (t ∷ ts) =
        ap
          (λ (steps : List PlanStep).
            add_targets m ctx (record { preserve = some keep; measure = measure })
              (add_steps m measure plan steps) (map (account_target m) ts))
          (target_steps-spares t)
        ∙ add_targets-spares measure
            (add_steps m measure plan
              (target_steps m (without_kept keep ctx) none (account_target m t)))
            ts

-- With a keep list, the plan that build_plan_by_ids makes of any of the targets that remove
-- something of each account (the userdata folder or a part of it, and the key below Users in the
-- registry) is, in its steps and totals, the plan without a keep list for a machine that has
-- only the accounts that are not on the list.
pub build_plan_by_ids-spares :
    (m : Machine) (ctx : ResolveContext) (keep : PreserveList) (measure : Bool)
    (ts : List AccountTarget)
    → build_plan_by_ids
        (catalog m)
        (map id_of ts)
        m
        ctx
        (record { preserve = some keep; measure = measure })
      ≡ build_plan_by_ids
          (catalog m)
          (map id_of ts)
          m
          (without_kept keep ctx)
          (record { preserve = none; measure = measure })
unfolding build_plan_by_ids build_plan
build_plan_by_ids-spares m ctx keep measure ts = rw (found_targets-ids m ts) (
    add_targets-spares keep m ctx measure
      (record { steps = []; total_bytes = 0; total_file_count = 0 }) ts)
