-- ===== src/Tests/Cleaning.antt =====
-- Runs of core/cleaner/plan.cpp: a PC with two accounts, of which one is kept.
use steam_account_manager.Common.{
  not, ◌&&◌, text_eq, ℕ, List, [], ◌∷◌, ◌≡◌, true, false, refl, some,
}
use steam_account_manager.Common.Every.{every}
use steam_account_manager.Codec.Base64.{codes}
use steam_account_manager.VdfTree.{object, leaf, Children, nil, entry, Document, find, find_child}
use steam_account_manager.Cleaner.{
  is_remove_file, OpKind, Operation, PreserveList, preserves, contains, AccountInfo, PlanStep,
  ResolveContext, Target, Machine,
}
use steam_account_manager.Cleaner.ConnectCache.{
  connect_cache_key, hex_digits, crc32_ieee, crc_bytes, crc_table, crc_rounds, crc_round, hex_digit,
}
use steam_account_manager.Cleaner.Rewrites.{operation, plan_step}
use steam_account_manager.Cleaner.ConfigRewrites.{rewrite_config_vdf, steam_block, block}
use steam_account_manager.Cleaner.SparedLogins.{
  rewrite_loginusers-entries, removed_entries, steamids,
}
use steam_account_manager.Cleaner.Rewrites.{rewrite_loginusers}
use steam_account_manager.Cleaner.SparedTokens.{rewrite_config_vdf-spares_token, spares_entry}

abbrev ann : AccountInfo
ann = record {
  steamid64 = codes "1";
  account_id = 1;
  account_name = codes "ann";
  persona_name = [];
  most_recent = false;
  remember_password = true;
  userdata_path = [];
}

abbrev bob : AccountInfo
bob = record ann { steamid64 = codes "2"; account_name = codes "bob"; most_recent = true }

abbrev cache : Children
cache = entry (codes "9f2c1") (leaf []) (entry (codes "1a1") (leaf []) nil)

abbrev steam : Children
steam =
    entry (codes "Accounts")
      (object (entry (codes "bob") (object (entry (codes "SteamID") (leaf (codes "2")) nil)) nil))
      (entry (codes "ConnectCache") (object cache) nil)

abbrev config : Document
config = record {
  root_key = codes "InstallConfigStore";
  root = object (
      entry (codes "Software")
        (object (entry (codes "Valve") (object (entry (codes "Steam") (object steam) nil)) nil))
        nil);
}

abbrev pub pc : Machine
pc = record {
  load = λ path. some config;
  auto_login_user = some (codes "bob");
  now_digits = codes "1700000000";
  towlower = λ c. c;
  size_recursive = λ path. 10;
  file_count_recursive = λ path. 3;
  is_directory = λ path. true;
  regular_files = λ path. codes "1.png" ∷ codes "ssfn1" ∷ [];
  local_appdata_root = codes "C:\\Local";
}

abbrev pub install : ResolveContext
install = record {
  install_path = codes "C:\\Steam";
  userdata_dir = codes "C:\\Steam\\userdata";
  appcache_dir = codes "C:\\Steam\\appcache";
  htmlcache_dir = codes "C:\\Local\\Steam\\htmlcache";
  libraries = codes "C:\\Steam\\steamapps" ∷ [];
  config_dir = codes "C:\\Steam\\config";
  local_vdf_path = codes "C:\\local.vdf";
  accounts = bob ∷ ann ∷ [];
}

abbrev pub keep_ann : PreserveList
keep_ann = codes "1" ∷ []

abbrev pub file_op : List ℕ → Operation
file_op path = operation OpKind.remove_file path [] [] []

abbrev targets : List Target
targets =
    record { id = codes "steam.loginusers"; resolve = λ ctx. file_op (codes "loginusers.vdf") ∷ [] }
    ∷ record {
      id = codes "steam.reg.autologin";
      resolve = λ ctx.
          operation OpKind.remove_registry_value (codes "HKCU") (codes "AutoLoginUser") [] [] ∷ [];
    }
    ∷ record {
      id = codes "steam.userdata";
      resolve = λ ctx. operation OpKind.remove_tree (codes "userdata\\1") [] [] (codes "1") ∷ [];
    }
    ∷ record { id = codes "steam.config_vdf"; resolve = λ ctx. file_op (codes "config.vdf") ∷ [] }
    ∷ []

abbrev config_steps : List PlanStep
config_steps = plan_step (codes "steam.config_vdf") (file_op (codes "config.vdf")) ∷ []

rewrite_config_vdf-spares_token_example :
    every
      (spares_entry (connect_cache_key (λ c. c) (codes "ann")))
      (rewrite_config_vdf (codes "steam.config_vdf") pc install (some keep_ann) config_steps)
    ≡ true
unfolding every steam_block block find find_child preserves contains text_eq
rewrite_config_vdf-spares_token_example =
    rewrite_config_vdf-spares_token (codes "steam.config_vdf") pc install keep_ann config_steps
      {steam = object steam} 1 {acc = ann} refl refl refl refl refl refl

abbrev login_steps : List PlanStep
login_steps = plan_step (codes "steam.loginusers") (file_op (codes "loginusers.vdf")) ∷ []

rewrite_loginusers-entries_example :
    let steps = rewrite_loginusers (codes "steam.loginusers") install (some keep_ann) login_steps in
    (every (λ s. not (is_remove_file s.op.kind)) steps ≡ true)
    × (contains (removed_entries steps) (codes "2") ≡ (
        contains (steamids install.accounts) (codes "2") && not (preserves keep_ann (codes "2"))))
unfolding every text_eq
rewrite_loginusers-entries_example =
    rewrite_loginusers-entries (codes "steam.loginusers") install keep_ann login_steps (codes "2")
      refl refl

-- The token of "ann" is named by the CRC-32 of her login name.
connect_cache_key-ann : connect_cache_key (λ c. c) (codes "ann") ≡ codes "e72072731"
unfolding connect_cache_key hex_digits crc32_ieee crc_bytes crc_table crc_rounds crc_round hex_digit
connect_cache_key-ann = refl
