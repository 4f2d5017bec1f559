-- ===== src/Cleaner/PathTargets.antt =====
-- core/cleaner/targets.cpp: the resolvers of a single path or key, and those of a folder of each
-- account.
use steam_account_manager.Common.{ℕ, List, [], ◌∷◌, ◌++◌, Bool, true}
use steam_account_manager.Codec.Base64.{codes}
use steam_account_manager.Cleaner.{OpKind, Operation, ResolveContext, Machine, path_join}
use steam_account_manager.Cleaner.Targets.{
  push_dir, push_file, push_reg_key, push_glob_files, path_of, users_of, per_account,
}

abbrev pub always : List ℕ → Bool
always target = true

unfoldable pub resolve_controller_configs : ResolveContext → List Operation
resolve_controller_configs ctx =
    per_account OpKind.remove_tree always (codes "config" ∷ codes "controller_configs" ∷ [])
      ctx.accounts
    ++ push_dir (
        path_of ctx.install_path
          (codes "steamapps" ∷ codes "common" ∷ codes "Steam Controller Configs" ∷ []))
      ∷ []

unfoldable pub per_account_tree : ResolveContext → List ℕ → List Operation
per_account_tree ctx relative = per_account OpKind.remove_tree always (relative ∷ []) ctx.accounts

unfoldable pub resolve_loginusers_vdf : ResolveContext → List Operation
resolve_loginusers_vdf ctx = push_file (path_join ctx.config_dir (codes "loginusers.vdf")) ∷ []

unfoldable pub resolve_active_process : ResolveContext → List Operation
resolve_active_process ctx =
    push_reg_key (codes "HKCU\\Software\\Valve\\Steam\\ActiveProcess") [] ∷ []

unfoldable pub resolve_config_vdf : ResolveContext → List Operation
resolve_config_vdf ctx = push_file (path_join ctx.config_dir (codes "config.vdf")) ∷ []

unfoldable pub resolve_local_vdf : ResolveContext → List Operation
resolve_local_vdf ctx = push_file ctx.local_vdf_path ∷ []

unfoldable pub resolve_appcache_stats : ResolveContext → List Operation
resolve_appcache_stats ctx = push_dir (path_join ctx.appcache_dir (codes "stats")) ∷ []

unfoldable pub resolve_tenfoot_httpcache : ResolveContext → List Operation
resolve_tenfoot_httpcache ctx =
    push_dir (path_of ctx.install_path (codes "tenfoot" ∷ codes "config" ∷ codes "httpcache" ∷ []))
    ∷ []

unfoldable pub resolve_overlayhtmlcache : ResolveContext → List Operation
resolve_overlayhtmlcache ctx = push_dir (path_join ctx.config_dir (codes "overlayhtmlcache")) ∷ []

unfoldable pub resolve_reg_apps : ResolveContext → List Operation
resolve_reg_apps ctx = push_reg_key (codes "HKCU\\Software\\Valve\\Steam\\Apps") [] ∷ []

unfoldable pub resolve_reg_url_handler : ResolveContext → List Operation
resolve_reg_url_handler ctx = push_reg_key (codes "HKCU\\Software\\Classes\\steam") [] ∷ []

unfoldable pub resolve_ssfn_files : Machine → ResolveContext → List Operation
resolve_ssfn_files m ctx = push_glob_files m ctx.install_path (codes "ssfn") []

unfoldable pub resolve_users_subtree : ResolveContext → List Operation
resolve_users_subtree ctx = users_of ctx.accounts

unfoldable pub resolve_userdata_full : ResolveContext → List Operation
resolve_userdata_full ctx = per_account OpKind.remove_tree always [] ctx.accounts

unfoldable pub resolve_userdata_screenshots : ResolveContext → List Operation
resolve_userdata_screenshots ctx =
    per_account OpKind.remove_tree always (codes "760" ∷ codes "remote" ∷ []) ctx.accounts

unfoldable pub resolve_userdata_shortcuts : ResolveContext → List Operation
resolve_userdata_shortcuts ctx =
    per_account OpKind.remove_file always (codes "config" ∷ codes "shortcuts.vdf" ∷ []) ctx.accounts

unfoldable pub resolve_userdata_librarycache : Machine → ResolveContext → List Operation
resolve_userdata_librarycache m ctx =
    per_account OpKind.remove_tree m.is_directory (codes "config" ∷ codes "librarycache" ∷ [])
      ctx.accounts

unfoldable pub resolve_userdata_sharedconfig : ResolveContext → List Operation
resolve_userdata_sharedconfig ctx =
    per_account OpKind.remove_file always
      (codes "7" ∷ codes "remote" ∷ codes "sharedconfig.vdf" ∷ []) ctx.accounts

unfoldable pub resolve_userdata_gamerecordings : ResolveContext → List Operation
resolve_userdata_gamerecordings ctx = per_account_tree ctx (codes "gamerecordings")

unfoldable pub resolve_userdata_ugcmsgcache : ResolveContext → List Operation
resolve_userdata_ugcmsgcache ctx = per_account_tree ctx (codes "ugcmsgcache")

unfoldable pub resolve_userdata_inventory_cache : ResolveContext → List Operation
resolve_userdata_inventory_cache ctx = per_account_tree ctx (codes "inventorymsgcache")
