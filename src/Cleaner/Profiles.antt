-- ===== src/Cleaner/Profiles.antt =====
-- core/cleaner/profiles.cpp: the built-in profiles, each the ids of the targets it cleans.
use steam_account_manager.Common.{List, [], ◌∷◌, ◌++◌, Bool, true, false, ℕ}
use steam_account_manager.Codec.Base64.{codes}

-- `Profile`, without its description.
pub record Profile : Type 0 where
  pub name : List ℕ
  pub target_ids : List (List ℕ)
  pub requires_confirmation : Bool

unfoldable pub caches_and_logs : List (List ℕ)
caches_and_logs =
    codes "steam.dumps"
    ∷ codes "steam.logs"
    ∷ codes "steam.appcache"
    ∷ codes "steam.appcache_stats"
    ∷ codes "steam.depotcache"
    ∷ codes "steam.shadercache"
    ∷ codes "steam.workshop_temp"
    ∷ codes "steam.steamapps_downloading"
    ∷ codes "steam.avatarcache"
    ∷ codes "steam.tenfoot_httpcache"
    ∷ codes "steam.overlayhtmlcache"
    ∷ codes "crash.local_appdata"
    ∷ []

unfoldable pub account_residue : List (List ℕ)
account_residue =
    caches_and_logs
    ++ codes "steam.htmlcache"
      ∷ codes "steam.config_vdf"
      ∷ codes "steam.local_vdf"
      ∷ codes "steam.loginusers"
      ∷ codes "steam.ssfn"
      ∷ codes "steam.reg.autologin"
      ∷ codes "steam.reg.users"
      ∷ codes "steam.reg.activeprocess"
      ∷ codes "steam.reg.apps"
      ∷ codes "steam.reg.url_handler"
      ∷ codes "steam.remoteclients"
      ∷ codes "steam.userdata_inventory_cache"
      ∷ codes "steam.userdata_librarycache"
      ∷ codes "steam.userdata_sharedconfig"
      ∷ codes "steam.userdata_ugcmsgcache"
      ∷ []

unfoldable pub full_wipe : List (List ℕ)
full_wipe =
    account_residue
    ++ codes "steam.userdata"
      ∷ codes "steam.userdata_shortcuts"
      ∷ codes "steam.userdata_screenshots"
      ∷ codes "steam.controller_configs"
      ∷ codes "steam.userdata_gamerecordings"
      ∷ []

unfoldable pub built_in_profiles : List Profile
built_in_profiles =
    record {
      name = codes "Quick Clean";
      target_ids = caches_and_logs;
      requires_confirmation = false;
    }
    ∷ record {
      name = codes "Account Reset";
      target_ids = account_residue;
      requires_confirmation = false;
    }
    ∷ record { name = codes "Full Wipe"; target_ids = full_wipe; requires_confirmation = true }
    ∷ []
