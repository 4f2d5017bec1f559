-- ===== src/Cleaner/Catalog.antt =====
-- core/cleaner/targets.cpp: the catalog of targets, and the resolvers of single paths and of the
-- folders of an account; core/cleaner/crash_dumps.cpp; `steamid64_to_account_id` of steam_scan.cpp.
use steam_account_manager.Common.{
  ℕ, ◌+◌, ◌*◌, ◌-◌, ◌%◌, ◌^◌, List, [], ◌∷◌, map, Bool, true, false, not, ◌&&◌, ◌||◌, ◌==◌, leb,
  ltb, if◌then◌else◌, text_eq, length, drop,
}
use steam_account_manager.Codec.Base64.{codes}
use steam_account_manager.Cleaner.{
  OpKind, Operation, is_empty, ResolveContext, Machine, Target, path_join,
}
use steam_account_manager.Cleaner.Rewrites.{operation}
use steam_account_manager.Cleaner.Targets.{
  starts_with, remove_files, stem, resolve_dumps, resolve_logs, resolve_appcache,
  resolve_depotcache, resolve_shadercache, resolve_workshop_temp, resolve_steamapps_downloading,
  resolve_htmlcache, resolve_auto_login_value, resolve_remote_clients,
}
use steam_account_manager.Cleaner.PathTargets.{
  resolve_loginusers_vdf, resolve_active_process, resolve_config_vdf, resolve_local_vdf,
  resolve_appcache_stats, resolve_tenfoot_httpcache, resolve_overlayhtmlcache, resolve_reg_apps,
  resolve_reg_url_handler, resolve_ssfn_files, resolve_users_subtree, resolve_userdata_full,
  resolve_userdata_screenshots, resolve_userdata_shortcuts, resolve_userdata_librarycache,
  resolve_userdata_sharedconfig, resolve_userdata_gamerecordings, resolve_userdata_ugcmsgcache,
  resolve_userdata_inventory_cache, resolve_controller_configs,
}

unfoldable pub all_digits : List ℕ → Bool
all_digits [] = true
all_digits (c ∷ cs) = leb b'0' c && leb c b'9' && all_digits cs

unfoldable pub decimal : ℕ → List ℕ → ℕ
decimal v [] = v
decimal v (c ∷ cs) = decimal (v * 10 + (c - b'0')) cs

-- `kSteamIdBase`.
abbrev pub steam_id_base : ℕ
steam_id_base = 76561197960265728

unfoldable pub steamid64_to_account_id : List ℕ → ℕ
steamid64_to_account_id steamid64 =
    let v = decimal 0 steamid64 in
    if not (all_digits steamid64) || is_empty steamid64 || leb (2 ^ 64) v || ltb v steam_id_base
    then 0
    else (v - steam_id_base) % 2 ^ 32

unfoldable pub avatar_account : List ℕ → List ℕ
avatar_account stem =
    if not (is_empty stem) && all_digits stem && not (steamid64_to_account_id stem == 0)
    then stem
    else []

unfoldable pub avatars : List ℕ → List (List ℕ) → List Operation
avatars root [] = []
avatars root (name ∷ names) =
    operation OpKind.remove_file (path_join root name) [] [] (avatar_account (stem name))
    ∷ avatars root names

unfoldable pub resolve_avatarcache : Machine → ResolveContext → List Operation
resolve_avatarcache m ctx =
    let root = path_join ctx.config_dir (codes "avatarcache") in
    if not (m.is_directory root) then [] else avatars root (m.regular_files root)

-- `kPrefixes` (crash_dumps.cpp).
abbrev pub prefixes : List (List ℕ)
prefixes =
    codes "steam"
    ∷ codes "cs2"
    ∷ codes "csgo"
    ∷ codes "gmod"
    ∷ codes "hl2"
    ∷ codes "l4d"
    ∷ codes "dota"
    ∷ codes "tf"
    ∷ codes "srcds"
    ∷ codes "vrserver"
    ∷ codes "vrclient"
    ∷ []

unfoldable pub starts_with_any : List ℕ → List (List ℕ) → Bool
starts_with_any name [] = false
starts_with_any name (p ∷ ps) = starts_with name p || starts_with_any name ps

unfoldable pub is_steam_related_filename : Machine → List ℕ → Bool
is_steam_related_filename m filename = starts_with_any (map m.towlower filename) prefixes

unfoldable pub is_dump : Machine → List ℕ → Bool
is_dump m name =
    let extension = drop (length (stem name)) name in
    (text_eq extension (codes ".dmp") || text_eq extension (codes ".mdmp"))
    && is_steam_related_filename m name

-- `find_local_appdata_dumps`, each dump as its removal.
unfoldable pub resolve_crash_local_appdata : Machine → ResolveContext → List Operation
resolve_crash_local_appdata m ctx =
    let root = path_join m.local_appdata_root (codes "CrashDumps") in
    if not (m.is_directory root) then [] else remove_files root (is_dump m) (m.regular_files root)

abbrev pub target : List ℕ → (ResolveContext → List Operation) → Target
target id resolve = record { id = id; resolve = resolve }

unfoldable pub catalog : Machine → List Target
catalog m =
    target (codes "steam.dumps") (resolve_dumps m)
    ∷ target (codes "steam.logs") (resolve_logs m)
    ∷ target (codes "steam.appcache") resolve_appcache
    ∷ target (codes "steam.depotcache") resolve_depotcache
    ∷ target (codes "steam.shadercache") (resolve_shadercache m)
    ∷ target (codes "steam.workshop_temp") resolve_workshop_temp
    ∷ target (codes "steam.htmlcache") resolve_htmlcache
    ∷ target (codes "steam.loginusers") resolve_loginusers_vdf
    ∷ target (codes "steam.ssfn") (resolve_ssfn_files m)
    ∷ target (codes "steam.reg.autologin") resolve_auto_login_value
    ∷ target (codes "steam.reg.users") resolve_users_subtree
    ∷ target (codes "steam.reg.activeprocess") resolve_active_process
    ∷ target (codes "steam.remoteclients") (resolve_remote_clients m)
    ∷ target (codes "steam.avatarcache") (resolve_avatarcache m)
    ∷ target (codes "steam.userdata") resolve_userdata_full
    ∷ target (codes "steam.controller_configs") resolve_controller_configs
    ∷ target (codes "crash.local_appdata") (resolve_crash_local_appdata m)
    ∷ target (codes "steam.config_vdf") resolve_config_vdf
    ∷ target (codes "steam.appcache_stats") resolve_appcache_stats
    ∷ target (codes "steam.tenfoot_httpcache") resolve_tenfoot_httpcache
    ∷ target (codes "steam.overlayhtmlcache") resolve_overlayhtmlcache
    ∷ target (codes "steam.steamapps_downloading") resolve_steamapps_downloading
    ∷ target (codes "steam.reg.apps") resolve_reg_apps
    ∷ target (codes "steam.reg.url_handler") resolve_reg_url_handler
    ∷ target (codes "steam.userdata_shortcuts") resolve_userdata_shortcuts
    ∷ target (codes "steam.userdata_screenshots") resolve_userdata_screenshots
    ∷ target (codes "steam.userdata_inventory_cache") resolve_userdata_inventory_cache
    ∷ target (codes "steam.userdata_librarycache") (resolve_userdata_librarycache m)
    ∷ target (codes "steam.userdata_sharedconfig") resolve_userdata_sharedconfig
    ∷ target (codes "steam.local_vdf") resolve_local_vdf
    ∷ target (codes "steam.userdata_gamerecordings") resolve_userdata_gamerecordings
    ∷ target (codes "steam.userdata_ugcmsgcache") resolve_userdata_ugcmsgcache
    ∷ []
