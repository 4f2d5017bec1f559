-- ===== src/Cleaner.antt =====
-- The cleaner (core/cleaner/): which files, registry values and VDF entries of a Steam install a
-- clean is to remove, with a keep list of accounts. Operations (operation.hpp), the keep list
-- (preserve.{hpp,cpp}), accounts (steam_scan.hpp) and plans (plan.hpp); the plan is made in
-- ConnectCache, Rewrites, ConfigRewrites and Planner.
pub mod ConnectCache
pub mod Rewrites
pub mod ConfigRewrites
pub mod Planner
pub mod SparedFolders
pub mod SparedTokens
pub mod Measured
pub mod Targets
pub mod PathTargets
pub mod Catalog
pub mod Profiles
pub mod Execute
pub mod Executed
pub mod Surgical
pub mod Redirect
pub mod SparedLogins
use steam_account_manager.Common.{
  ℕ, List, [], ◌∷◌, ◌++◌, Bool, true, false, Option, none, some, if◌then◌else◌, ◌==◌, ◌||◌, text_eq,
}
use steam_account_manager.VdfTree.{Node, Document}

pub data OpKind : Type 0 where
  remove_file remove_tree remove_registry_value remove_registry_key : OpKind
  vdf_remove_child vdf_set_value write_registry_string : OpKind

pub record Operation : Type 0 where
  pub kind : OpKind
  pub target : List ℕ
  pub value_name : List ℕ
  pub account_steamid64 : List ℕ
  pub size_bytes : ℕ
  pub payload : List ℕ

-- `PreserveList`: the SteamID64s of the accounts to keep.
abbrev pub PreserveList : Type 0
PreserveList = List (List ℕ)

-- `any_of`, and the `count` of a `std::set`.
unfoldable pub contains : List (List ℕ) → List ℕ → Bool
contains [] id = false
contains (x ∷ xs) id = if text_eq x id then true else contains xs id

unfoldable pub preserves : PreserveList → List ℕ → Bool
preserves keep [] = false
preserves keep (c ∷ cs) = contains keep (c ∷ cs)

abbrev pub is_empty {ℓ} : {A : Type ℓ} → List A → Bool
is_empty [] = true
is_empty (x ∷ xs) = false

pub record AccountInfo : Type 0 where
  pub steamid64 : List ℕ
  pub account_id : ℕ
  pub account_name : List ℕ
  pub persona_name : List ℕ
  pub most_recent : Bool
  pub remember_password : Bool
  pub userdata_path : List ℕ

pub record PlanStep : Type 0 where
  pub target_id : List ℕ
  pub op : Operation

pub record Plan : Type 0 where
  pub steps : List PlanStep
  pub total_bytes : ℕ
  pub total_file_count : ℕ

-- `ResolveContext` and its `InstallInfo`.
pub record ResolveContext : Type 0 where
  pub install_path : List ℕ
  pub config_dir : List ℕ
  pub userdata_dir : List ℕ
  pub appcache_dir : List ℕ
  pub htmlcache_dir : List ℕ
  pub local_vdf_path : List ℕ
  pub accounts : List AccountInfo
  pub libraries : List (List ℕ)

-- `preserve` is a pointer, `none` the null one.
pub record PlanOptions : Type 0 where
  pub preserve : Option PreserveList
  pub measure : Bool

-- `Target`, without the texts for display.
pub record Target : Type 0 where
  pub id : List ℕ
  pub resolve : ResolveContext → List Operation

-- What the planner reads of the machine: `vdf::load`, the registry's AutoLoginUser, the clock as
-- decimal digits, `towlower`, the sizes of a file or tree, which paths are directories, the names of
-- the regular files in a directory, and %LOCALAPPDATA%.
pub record Machine : Type 0 where
  pub load : List ℕ → Option Document
  pub auto_login_user : Option (List ℕ)
  pub now_digits : List ℕ
  pub towlower : ℕ → ℕ
  pub size_recursive : List ℕ → ℕ
  pub file_count_recursive : List ℕ → ℕ
  pub is_directory : List ℕ → Bool
  pub regular_files : List ℕ → List (List ℕ)
  pub local_appdata_root : List ℕ

unfoldable pub erase_if {ℓ} : {A : Type ℓ} → (A → Bool) → List A → List A
erase_if test [] = []
erase_if test (x ∷ xs) = let rest = erase_if test xs in if test x then rest else x ∷ rest

-- Two `OpKind`s compared.
abbrev pub is_remove_file : OpKind → Bool
is_remove_file OpKind.remove_file = true
is_remove_file _ = false

abbrev pub is_remove_tree : OpKind → Bool
is_remove_tree OpKind.remove_tree = true
is_remove_tree _ = false

abbrev pub is_remove_registry_value : OpKind → Bool
is_remove_registry_value OpKind.remove_registry_value = true
is_remove_registry_value _ = false

-- `dir / name` of `std::filesystem::path`, for a directory that is not a bare drive.
unfoldable pub path_join : List ℕ → List ℕ → List ℕ
path_join [] name = name
path_join (c ∷ []) name = if c == b'\\' || c == b'/' then c ∷ name else c ∷ b'\\' ∷ name
path_join (c ∷ d ∷ dir) name = c ∷ path_join (d ∷ dir) name
