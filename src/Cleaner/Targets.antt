-- ===== src/Cleaner/Targets.antt =====
-- core/cleaner/targets.cpp: how the targets resolve to operations. The operations that a function
-- appends to its vector are returned. crash_dumps.cpp finds the crash dumps.
use steam_account_manager.Common.{
  ℕ, List, [], ◌∷◌, ◌++◌, Bool, true, false, not, ◌&&◌, ◌||◌, ◌==◌, if◌then◌else◌, text_eq,
}
use steam_account_manager.Codec.Base64.{codes}
use steam_account_manager.Cleaner.{
  OpKind, Operation, is_empty, AccountInfo, ResolveContext, Machine, path_join,
}
use steam_account_manager.Cleaner.Rewrites.{operation}

abbrev pub push_dir : List ℕ → Operation
push_dir p = operation OpKind.remove_tree p [] [] []

abbrev pub push_file : List ℕ → Operation
push_file p = operation OpKind.remove_file p [] [] []

abbrev pub push_reg_value : List ℕ → List ℕ → Operation
push_reg_value full_key value = operation OpKind.remove_registry_value full_key value [] []

abbrev pub push_reg_key : List ℕ → List ℕ → Operation
push_reg_key full_key account = operation OpKind.remove_registry_key full_key [] [] account

unfoldable pub starts_with : List ℕ → List ℕ → Bool
starts_with name [] = true
starts_with [] (p ∷ ps) = false
starts_with (c ∷ cs) (p ∷ ps) = c == p && starts_with cs ps

unfoldable pub ends_with : List ℕ → List ℕ → Bool
ends_with [] suffix = is_empty suffix
ends_with (c ∷ cs) suffix = text_eq (c ∷ cs) suffix || ends_with cs suffix

-- The files of `names` that pass, as removals.
unfoldable pub remove_files : List ℕ → (List ℕ → Bool) → List (List ℕ) → List Operation
remove_files dir passes [] = []
remove_files dir passes (name ∷ names) =
    let rest = remove_files dir passes names in
    if passes name then push_file (path_join dir name) ∷ rest else rest

unfoldable pub push_glob_files : Machine → List ℕ → List ℕ → List ℕ → List Operation
push_glob_files m dir prefix suffix =
    if not (m.is_directory dir)
    then []
    else remove_files dir
        (λ name.
          (is_empty prefix || starts_with name prefix)
          && (is_empty suffix || ends_with name suffix))
        (m.regular_files dir)

unfoldable pub contains_char : ℕ → List ℕ → Bool
contains_char c [] = false
contains_char c (x ∷ xs) = x == c || contains_char c xs

-- What stands before the last `c`.
unfoldable pub before_last : ℕ → List ℕ → List ℕ
before_last c [] = []
before_last c (x ∷ xs) = let rest = before_last c xs in if contains_char c xs then x ∷ rest else []

-- `parent_path` of a path below a directory.
abbrev pub parent_path : List ℕ → List ℕ
parent_path p = before_last b'\\' p

-- `stem` of a file's name: a leading dot starts no extension.
unfoldable pub stem : List ℕ → List ℕ
stem name = let s = before_last b'.' name in if is_empty s then name else s

-- `op / "a" / "b"`.
unfoldable pub path_of : List ℕ → List (List ℕ) → List ℕ
path_of dir [] = dir
path_of dir (name ∷ names) = path_of (path_join dir name) names

unfoldable pub resolve_dumps : Machine → ResolveContext → List Operation
resolve_dumps m ctx =
    push_dir (path_join ctx.install_path (codes "dumps"))
    ∷ (if not (m.is_directory ctx.install_path)
        then []
        else remove_files ctx.install_path (λ name. ends_with name (codes ".dmp"))
            (m.regular_files ctx.install_path))

unfoldable pub resolve_logs : Machine → ResolveContext → List Operation
resolve_logs m ctx =
    push_dir (path_join ctx.install_path (codes "logs"))
      ∷ push_glob_files m ctx.install_path (codes "GameOverlayUI.exe.log") []
    ++ push_glob_files m ctx.install_path (codes "GameOverlayRenderer") (codes ".log")
    ++ push_glob_files m ctx.install_path [] (codes ".last")

unfoldable pub resolve_appcache : ResolveContext → List Operation
resolve_appcache ctx =
    push_dir (path_join ctx.appcache_dir (codes "httpcache"))
    ∷ push_dir (path_join ctx.appcache_dir (codes "librarycache"))
    ∷ push_file (path_join ctx.appcache_dir (codes "appinfo.vdf"))
    ∷ push_file (path_join ctx.appcache_dir (codes "packageinfo.vdf"))
    ∷ []

-- One removal for each library.
unfoldable pub per_library : (List ℕ → List Operation) → List (List ℕ) → List Operation
per_library ops [] = []
per_library ops (lib ∷ libs) = ops lib ++ per_library ops libs

unfoldable pub resolve_depotcache : ResolveContext → List Operation
resolve_depotcache ctx =
    per_library (λ lib. push_dir (path_join (parent_path lib) (codes "depotcache")) ∷ [])
      ctx.libraries

unfoldable pub resolve_shadercache : Machine → ResolveContext → List Operation
resolve_shadercache m ctx =
    per_library
      (λ lib.
        let sc = path_join lib (codes "shadercache") in
        if m.is_directory sc then push_dir sc ∷ [] else [])
      ctx.libraries

unfoldable pub resolve_workshop_temp : ResolveContext → List Operation
resolve_workshop_temp ctx =
    per_library
      (λ lib.
        push_dir (path_of lib (codes "workshop" ∷ codes "temp" ∷ []))
        ∷ push_dir (path_of lib (codes "workshop" ∷ codes "downloads" ∷ []))
        ∷ [])
      ctx.libraries

unfoldable pub resolve_steamapps_downloading : ResolveContext → List Operation
resolve_steamapps_downloading ctx =
    per_library (λ lib. push_dir (path_join lib (codes "downloading")) ∷ []) ctx.libraries

unfoldable pub resolve_htmlcache : ResolveContext → List Operation
resolve_htmlcache ctx =
    let steam_local = parent_path ctx.htmlcache_dir in
    push_dir ctx.htmlcache_dir
    ∷ push_dir (path_join ctx.config_dir (codes "htmlcache"))
    ∷ push_dir (path_join steam_local (codes "GPUCache"))
    ∷ push_dir (path_join steam_local (codes "Code Cache"))
    ∷ push_file (path_join steam_local (codes "Local State"))
    ∷ push_file (path_join steam_local (codes "BrowsingTopicsState"))
    ∷ []

unfoldable pub resolve_auto_login_value : ResolveContext → List Operation
resolve_auto_login_value ctx =
    let key = codes "HKCU\\Software\\Valve\\Steam" in
    push_reg_value key (codes "AutoLoginUser")
    ∷ push_reg_value key (codes "RememberPassword")
    ∷ push_reg_value key (codes "LastGameNameUsed")
    ∷ push_reg_value key (codes "PseudoUUID")
    ∷ []

unfoldable pub users_of : List AccountInfo → List Operation
users_of [] = []
users_of (acc ∷ accs) =
    push_reg_key (codes "HKCU\\Software\\Valve\\Steam\\Users\\" ++ acc.steamid64) acc.steamid64
    ∷ users_of accs

unfoldable pub resolve_remote_clients : Machine → ResolveContext → List Operation
resolve_remote_clients m ctx =
    push_file (path_join ctx.config_dir (codes "remoteclients.vdf"))
    ∷ push_glob_files m ctx.config_dir (codes "coplay_") []

-- The loop of the resolvers that visit each account with a userdata folder: `passes` is their
-- guard, `relative` the names below that folder.
unfoldable pub per_account :
    OpKind → (List ℕ → Bool) → List (List ℕ) → List AccountInfo → List Operation
per_account kind passes relative [] = []
per_account kind passes relative (acc ∷ accs) =
    let rest = per_account kind passes relative accs in
    let target = path_of acc.userdata_path relative in
    if is_empty acc.userdata_path || not (passes target)
    then rest
    else operation kind target [] [] acc.steamid64 ∷ rest
