-- ===== src/Cleaner/ConfigRewrites.antt =====
-- core/cleaner/plan.cpp: the rewrites of the targets config.vdf and local.vdf, which hold the login
-- tokens of every account.
use steam_account_manager.Common.{
  ℕ, List, [], ◌∷◌, ◌++◌, ◌||◌, Option, none, some, if◌then◌else◌, ◌>>=◌,
}
use steam_account_manager.Codec.Base64.{codes}
use steam_account_manager.VdfTree.{Node, object, leaf, Children, nil, entry, Document, find}
use steam_account_manager.Cleaner.{
  OpKind, PreserveList, contains, preserves, is_empty, PlanStep, ResolveContext, Machine, erase_if,
  path_join,
}
use steam_account_manager.Cleaner.ConnectCache.{preserved_connect_cache_keys}
use steam_account_manager.Cleaner.Rewrites.{operation, plan_step, is_file_removal}

-- `children()` where `is_object()` holds.
unfoldable pub block : Option Node → Option Children
block none = none
block (some (leaf v)) = none
block (some (object cs)) = some cs

-- The chain of `find`s for `Software`, `Valve`, `Steam`, and its guards: the block it leads to.
unfoldable pub steam_block : Option Document → Option Node
steam_block none = none
steam_block (some doc) = do
  top ← block (some doc.root)
  software ← find (object top) (codes "Software")
  valve ← find software (codes "Valve")
  steam ← find valve (codes "Steam")
  entries ← block (some steam)
  some (object entries)

abbrev pub accounts_prefix : List ℕ
accounts_prefix = codes "Software\\Valve\\Steam\\Accounts\\"

abbrev pub connect_cache_prefix : List ℕ
connect_cache_prefix = codes "Software\\Valve\\Steam\\ConnectCache\\"

-- The loop over `Accounts`.
unfoldable pub account_removals : List ℕ → List ℕ → PreserveList → Children → List PlanStep
account_removals id vdf_path keep nil = []
account_removals id vdf_path keep (entry name child cs) =
    let rest = account_removals id vdf_path keep cs in
    elim (find child (codes "SteamID")) [
      | none ↦ rest
      | some (object ds) ↦ rest
      | some (leaf sid64) ↦
          if preserves keep sid64
          then rest
          else plan_step id
              (operation OpKind.vdf_remove_child vdf_path (accounts_prefix ++ name) [] sid64)
            ∷ rest
    ]

-- The loop over `ConnectCache`, in both files.
unfoldable pub token_removals : List ℕ → List ℕ → List (List ℕ) → Children → List PlanStep
token_removals id vdf_path keys nil = []
token_removals id vdf_path keys (entry hex_key child cs) =
    let rest = token_removals id vdf_path keys cs in
    if is_empty hex_key || contains keys hex_key
    then rest
    else plan_step id
        (operation OpKind.vdf_remove_child vdf_path (connect_cache_prefix ++ hex_key) [] [])
      ∷ rest

unfoldable pub from_block : Option Children → (Children → List PlanStep) → List PlanStep
from_block none removals = []
from_block (some cs) removals = removals cs

unfoldable pub rewrite_config_vdf :
    List ℕ → Machine → ResolveContext → Option PreserveList → List PlanStep → List PlanStep
rewrite_config_vdf id m ctx none steps = steps
rewrite_config_vdf id m ctx (some keep) steps =
    let vdf_path = path_join ctx.config_dir (codes "config.vdf") in
    if is_empty keep then steps else elim (steam_block (m.load vdf_path)) [
      | none ↦ steps
      | some steam_node ↦
          erase_if (is_file_removal id) steps
          ++ from_block (block (find steam_node (codes "Accounts")))
              (account_removals id vdf_path keep)
          ++ from_block (block (find steam_node (codes "ConnectCache")))
              (token_removals id vdf_path (preserved_connect_cache_keys m ctx keep))
    ]

unfoldable pub rewrite_local_vdf :
    List ℕ → Machine → ResolveContext → Option PreserveList → List PlanStep → List PlanStep
rewrite_local_vdf id m ctx none steps = steps
rewrite_local_vdf id m ctx (some keep) steps =
    let vdf_path = ctx.local_vdf_path in
    if is_empty keep then steps else elim (steam_block (m.load vdf_path)) [
      | none ↦ steps
      | some steam_node ↦ elim (block (find steam_node (codes "ConnectCache"))) [
        | none ↦ steps
        | some cache ↦
            erase_if (is_file_removal id) steps
            ++ token_removals id vdf_path (preserved_connect_cache_keys m ctx keep) cache
      ]
    ]
