-- ===== src/Tests/Registered.antt =====
-- Runs of app/vault_registry.cpp.
use steam_account_manager.Common.{ℕ, List, [], ◌∷◌, true, false, ◌≡◌, refl, some, text_eq}
use steam_account_manager.Common.Int.{pos}
use steam_account_manager.Codec.Base64.{codes}
use steam_account_manager.App.VaultRegistry.{
  VaultInfo, VaultRegistry, Vaults, find, init_vaults, choose_vault, load_registry, first_start,
  has_id, auto_unlock,
}
use steam_account_manager.App.VaultRegistry.Kept.{Command, adds, renames, removes, sets_auto}

abbrev vault : List ℕ → VaultInfo
vault id = record { id = id; name = id; icon_file = []; color_rgba = 0; order = pos 0 }

abbrev registry : VaultRegistry
registry = record { auto_open_id = codes "b"; vaults = vault (codes "a") ∷ vault (codes "b") ∷ [] }

abbrev vaults : Vaults
vaults = record {
  reg = registry;
  file = some registry;
  writable = true;
  folders = codes "a" ∷ codes "b" ∷ [];
  active = codes "a";
  pending = [];
  counter = 0;
}

abbrev commands : List Command
commands =
    adds (codes "c") (codes "Third") 5
    ∷ removes (codes "a")
    ∷ removes (codes "b")
    ∷ renames (codes "c") (codes "Other")
    ∷ sets_auto (codes "c")
    ∷ []

unlocks : (init_vaults vaults true false (pos 1000) (λ id. true) true).1 ≡ auto_unlock
unfolding init_vaults choose_vault load_registry first_start has_id find text_eq
unlocks = refl
