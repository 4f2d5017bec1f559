-- ===== src/App/VaultRegistry.antt =====
-- app/vault_registry.{hpp,cpp}: the list of vaults. The registry in memory, registry.json, the folders
-- under vaults/ and the ids that platform/paths.cpp keeps are one state; `file` is what registry.json
-- holds, and none where it does not exist; where it cannot be written it stays as it is.
pub mod Kept
pub mod Startup
use steam_account_manager.Common.{
  ℕ, ◌+◌, ◌%◌, ◌^◌, List, [], ◌∷◌, ◌++◌, Bool, true, false, not, ◌&&◌, ◌||◌, Option, none, some,
  if◌then◌else◌, ltb, leb, ◌==◌, length, text_eq,
}
use steam_account_manager.Common.Int.{ℤ, pos, negsuc, ◌+ℤ◌, ltb_ℤ}
use steam_account_manager.Codec.Base64.{codes}
use steam_account_manager.Alerts.Diff.{hex_padded, unsigned64}

-- `last_opened_unix` is left out: nothing here sets it.
pub record VaultInfo : Type 0 where
  pub id : List ℕ
  pub name : List ℕ
  pub icon_file : List ℕ
  pub color_rgba : ℕ
  pub order : ℤ

pub record VaultRegistry : Type 0 where
  pub auto_open_id : List ℕ
  pub vaults : List VaultInfo

pub data VaultResolution : Type 0 where
  open_direct auto_unlock show_picker create_first : VaultResolution

pub record Vaults : Type 0 where
  pub reg : VaultRegistry
  pub file : Option VaultRegistry
  pub writable : Bool
  pub folders : List (List ℕ)
  pub active : List ℕ
  pub pending : List ℕ
  pub counter : ℕ

abbrev pub is_empty : List ℕ → Bool
is_empty [] = true
is_empty (c ∷ cs) = false

-- `VaultRegistry::find`.
unfoldable pub find : List VaultInfo → List ℕ → Option VaultInfo
find [] id = none
find (v ∷ vs) id = let rest = find vs id in if text_eq v.id id then some v else rest

-- A change through the pointer that `find` returns.
unfoldable pub update_found : List ℕ → (VaultInfo → VaultInfo) → List VaultInfo → List VaultInfo
update_found id f [] = []
update_found id f (v ∷ vs) =
    let rest = update_found id f vs in if text_eq v.id id then f v ∷ vs else v ∷ rest

-- `find_if` and `erase`.
unfoldable pub erase_found : List ℕ → List VaultInfo → List VaultInfo
erase_found id [] = []
erase_found id (v ∷ vs) = let rest = erase_found id vs in if text_eq v.id id then vs else v ∷ rest

unfoldable pub new_vault_id : ℤ → ℕ → List ℕ
new_vault_id now n = hex_padded 16 16 (unsigned64 now) [] ++ hex_padded 16 8 n []

unfoldable pub has_id : List VaultInfo → List VaultInfo
has_id [] = []
has_id (v ∷ vs) = let rest = has_id vs in if is_empty v.id then rest else v ∷ rest

-- The entries without an id are passed over.
unfoldable pub load_registry : Option VaultRegistry → VaultRegistry
load_registry none = record { auto_open_id = []; vaults = [] }
load_registry (some r) = record { auto_open_id = r.auto_open_id; vaults = has_id r.vaults }

-- `writable` is whether `std::ofstream` opens the file; otherwise nothing is written.
unfoldable pub save_registry : Vaults → Vaults
save_registry s = record s { file = if s.writable then some s.reg else s.file }

-- The list changed, and saved.
unfoldable pub with_vaults : Vaults → List VaultInfo → Vaults
with_vaults s vs =
    save_registry (record s { reg = record { auto_open_id = s.reg.auto_open_id; vaults = vs } })

unfoldable pub max_order : ℤ → List VaultInfo → ℤ
max_order m [] = m
max_order m (v ∷ vs) = max_order (if ltb_ℤ m v.order then v.order else m) vs

unfoldable pub add_vault_entry : Vaults → List ℕ → List ℕ → ℕ → Vaults
add_vault_entry s id name color = with_vaults s (
    s.reg.vaults
    ++ (record {
      id = id;
      name = name;
      icon_file = [];
      color_rgba = color;
      order = max_order (negsuc 0) s.reg.vaults +ℤ pos 1;
    }
        ∷ []))

unfoldable pub rename_vault : Vaults → List ℕ → List ℕ → Vaults
rename_vault s id name = elim (find s.reg.vaults id) [
  | none ↦ s
  | some v ↦ with_vaults s (update_found id (λ w. record w { name = name }) s.reg.vaults)
]

-- `copied` is what `copy_file` reports: nothing, or a message. The result is the message for `err`.
unfoldable pub set_vault_icon : Vaults → List ℕ → Option (List ℕ) → Vaults × Option (List ℕ)
set_vault_icon s id copied = elim (find s.reg.vaults id) [
  | none ↦ (s, some (codes "Unknown vault."))
  | some v ↦
      let s = record s { folders = id ∷ s.folders } in
      elim copied [
        | some message ↦ (s, some (codes "Couldn't copy the image: " ++ message))
        | none ↦ (
          with_vaults s
              (update_found id (λ w. record w { icon_file = codes "icon.png" }) s.reg.vaults),
          none,
        )
      ]
]

unfoldable pub clear_vault_icon : Vaults → List ℕ → Vaults
clear_vault_icon s id = elim (find s.reg.vaults id) [
  | none ↦ s
  | some v ↦
      if is_empty v.icon_file
      then s
      else with_vaults s (update_found id (λ w. record w { icon_file = [] }) s.reg.vaults)
]

unfoldable pub remove_folder : List ℕ → List (List ℕ) → List (List ℕ)
remove_folder id [] = []
remove_folder id (f ∷ fs) =
    let rest = remove_folder id fs in if text_eq f id then rest else f ∷ rest

unfoldable pub remove_vault : Vaults → List ℕ → Vaults × Option (List ℕ)
remove_vault s id =
    if leb (length s.reg.vaults) 1
    then (s, some (codes "You must keep at least one vault."))
    else if text_eq id s.active
    then (s, some (codes "Switch to another vault before deleting this one."))
    else elim (find s.reg.vaults id) [
      | none ↦ (s, some (codes "Unknown vault."))
      | some v ↦ (
        save_registry (record s {
          folders = remove_folder id s.folders;
          reg = record {
            vaults = erase_found id s.reg.vaults;
            auto_open_id = if text_eq s.reg.auto_open_id id then [] else s.reg.auto_open_id;
          };
        }),
        none,
      )
    ]

unfoldable pub set_auto_open : Vaults → List ℕ → Vaults
set_auto_open s id =
    save_registry (record s { reg = record { auto_open_id = id; vaults = s.reg.vaults } })

abbrev pub migrated_vault : List ℕ → VaultInfo
migrated_vault id = record {
  id = id;
  name = codes "My Vault";
  icon_file = [];
  color_rgba = 1334769663;
  order = pos 0;
}

-- Startup where there is no registry yet: the vault of an older version is moved into a folder.
unfoldable pub first_start : Vaults → Bool → ℤ → Vaults
first_start s legacy now = elim s.file [
  | some r ↦ s
  | none ↦
      let id = new_vault_id now s.counter in
      if legacy
      then record s {
        counter = s.counter + 1;
        folders = id ∷ s.folders;
        file = some (record { auto_open_id = []; vaults = migrated_vault id ∷ [] });
      }
      else record s { file = some (record { auto_open_id = []; vaults = [] }) }
]

abbrev pub is_found : List VaultInfo → List ℕ → Bool
is_found vs id = elim (find vs id) [ none ↦ false | some v ↦ true ]

-- The rest of `init_vaults`: `cached` is whether a vault's folder has master_pw.bin.
unfoldable pub choose_vault :
    Vaults → List VaultInfo → ℤ → (List ℕ → Bool) → Bool → Vaults × VaultResolution
choose_vault s [] now cached remember =
    let id = new_vault_id now s.counter in
    (record s { counter = s.counter + 1; active = id; folders = id ∷ s.folders }, create_first)
choose_vault s (v ∷ []) now cached remember = (record s { active = v.id }, open_direct)
choose_vault s (v ∷ w ∷ vs) now cached remember =
    let auto = s.reg.auto_open_id in
    if not (is_empty auto) && is_found (v ∷ w ∷ vs) auto && (cached auto && remember)
    then (record s { active = auto }, auto_unlock)
    else (s, show_picker)

unfoldable pub init_vaults :
    Vaults → Bool → Bool → ℤ → (List ℕ → Bool) → Bool → Vaults × VaultResolution
init_vaults s gui legacy now cached remember =
    let s = first_start s legacy now in
    let s = record s { reg = load_registry s.file } in
    let vs = s.reg.vaults in
    if not gui
    then choose_vault s vs now cached remember
    else let pending = s.pending in
      let s = record s { pending = [] } in
      if not (is_empty pending) && is_found vs pending
      then (record s { active = pending }, open_direct)
      else choose_vault s vs now cached remember
