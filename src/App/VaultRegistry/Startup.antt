-- ===== src/App/VaultRegistry/Startup.antt =====
-- app/vault_registry.cpp: what `init_vaults` decides at startup.
use steam_account_manager.Common.{ℕ, ◌≤◌, List, [], ◌∷◌, Bool, true, ◌&&◌, ◌≡◌, length}
use steam_account_manager.App.VaultRegistry.{
  VaultResolution, open_direct, auto_unlock, show_picker, create_first, Vaults, is_found,
}

-- What each answer promises of the state `t` that startup leaves, `active` having been open before.
abbrev pub Resolved : List ℕ → Vaults → (List ℕ → Bool) → Bool → VaultResolution → Type 0
Resolved active t cached remember open_direct = is_found t.reg.vaults t.active ≡ true
Resolved active t cached remember auto_unlock =
    (is_found t.reg.vaults t.active ≡ true)
    × (t.active ≡ t.reg.auto_open_id)
    × (cached t.active && remember ≡ true)
Resolved active t cached remember show_picker = (t.active ≡ active) × (2 ≤ length t.reg.vaults)
Resolved active t cached remember create_first =
    (t.reg.vaults ≡ []) × ((others : List (List ℕ)) × (t.folders ≡ t.active ∷ others))
