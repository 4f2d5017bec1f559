-- ===== src/App/VaultRegistry/Kept.antt =====
-- app/vault_registry.cpp: its operations in any sequence.
use steam_account_manager.Common.{
  ℕ, List, [], ◌∷◌, Bool, true, false, not, ◌||◌, ◌≡◌, Option, some, text_eq,
}
use steam_account_manager.App.VaultRegistry.{
  VaultRegistry, Vaults, is_found, add_vault_entry, rename_vault, set_vault_icon, clear_vault_icon,
  remove_vault, set_auto_open,
}

pub data Command : Type 0 where
  adds : List ℕ → List ℕ → ℕ → Command
  renames : List ℕ → List ℕ → Command
  sets_icon : List ℕ → Option (List ℕ) → Command
  clears_icon : List ℕ → Command
  removes : List ℕ → Command
  sets_auto : List ℕ → Command

unfoldable pub apply : Vaults → Command → Vaults
apply s (adds id name color) = add_vault_entry s id name color
apply s (renames id name) = rename_vault s id name
apply s (sets_icon id copied) = (set_vault_icon s id copied).0
apply s (clears_icon id) = clear_vault_icon s id
apply s (removes id) = (remove_vault s id).0
apply s (sets_auto id) = set_auto_open s id

unfoldable pub apply_all : Vaults → List Command → Vaults
apply_all s [] = s
apply_all s (c ∷ cs) = apply_all (apply s c) cs

-- Is the vault `x` named to be removed?
abbrev pub is_removal_of : List ℕ → Command → Bool
is_removal_of x (removes id) = text_eq x id
is_removal_of x _ = false

unfoldable pub is_removed : List ℕ → List Command → Bool
is_removed x [] = false
is_removed x (c ∷ cs) = is_removal_of x c || is_removed x cs

-- What a command leaves: a registry on file, and each vault that it does not remove.
record Keeps (s t : Vaults) (c : Command) : Type 0 where
  filed : (s.writable ≡ true → s.file ≡ some s.reg) → t.writable ≡ true → t.file ≡ some t.reg
  active : t.active ≡ s.active
  found :
      (x : List ℕ)
      → is_found s.reg.vaults x ≡ true
      → text_eq x s.active || not (is_removal_of x c) ≡ true
      → is_found t.reg.vaults x ≡ true
