-- ===== src/SteamLocal.antt =====
-- core/steam_local/loginusers.{hpp,cpp}: the edits of Steam's loginusers.vdf and config.vdf, from the
-- tree that a file is parsed to, to the tree that is written. Opening and writing the files is left
-- out, and with it the failures for want of a file.
pub mod Remembered
pub mod Ensured
pub mod Text
pub mod Decimal
pub mod RoundTrip
pub mod Total
use steam_account_manager.Common.{
  ℕ, zero, suc, ◌+◌, ◌/◌, ◌%◌, List, [], ◌∷◌, Bool, true, false, not, ◌&&◌, ◌||◌, Option, none,
  some, if◌then◌else◌, ltb, ◌==◌, text_eq, ◌>>=◌,
}
use steam_account_manager.Codec.Base64.{codes}
use steam_account_manager.Codec.Hex.{to_lower}

-- `VdfNode`: the key, the value, whether it is a block, and the children.
mutual
  pub data VdfNode : Type 0 where
    node : List ℕ → List ℕ → Bool → VdfNodes → VdfNode

  pub data VdfNodes : Type 0 where
    nil : VdfNodes
    next : VdfNode → VdfNodes → VdfNodes

-- `std::to_string`, for a number of at most `fuel` digits.
unfoldable pub decimal_from : ℕ → ℕ → List ℕ → List ℕ
decimal_from zero n out = out
decimal_from (suc fuel) n out =
    let out = (b'0' + n % 10) ∷ out in
    let rest = decimal_from fuel (n / 10) out in if ltb n 10 then out else rest

unfoldable pub to_string : ℕ → List ℕ
to_string n = decimal_from 20 n []

unfoldable pub find_child : VdfNodes → List ℕ → Option VdfNode
find_child nil key = none
find_child (next (node k v b cs) rest) key =
    let found = find_child rest key in if text_eq k key then some (node k v b cs) else found

-- The child that `find_child` finds is overwritten, or one is appended.
unfoldable pub upsert_scalar : VdfNodes → List ℕ → List ℕ → VdfNodes
upsert_scalar nil key value = next (node key value false nil) nil
upsert_scalar (next (node k v b cs) rest) key value =
    let behind = upsert_scalar rest key value in
    if text_eq k key then next (node k value false nil) rest else next (node k v b cs) behind

-- A child that is found or appended, made a block, and its children changed by `f`.
unfoldable pub within_block : List ℕ → (VdfNodes → VdfNodes) → VdfNodes → VdfNodes
within_block key f nil = next (node key [] true (f nil)) nil
within_block key f (next (node k v b cs) rest) =
    let behind = within_block key f rest in
    if text_eq k key then next (node k v true (f cs)) rest else next (node k v b cs) behind

-- `ensure_block_path`, with what is then done to the children of the block it returns.
unfoldable pub ensure_block_path : List (List ℕ) → (VdfNodes → VdfNodes) → VdfNodes → VdfNodes
ensure_block_path [] f cs = f cs
ensure_block_path (key ∷ path) f cs = within_block key (ensure_block_path path f) cs

unfoldable pub remember : VdfNodes → VdfNodes
remember cs =
    upsert_scalar
      (upsert_scalar (upsert_scalar cs (codes "RememberPassword") (codes "1"))
        (codes "AllowAutoLogin") (codes "1"))
      (codes "MostRecent") (codes "1")

-- The loop of `set_remembered_account`.
unfoldable pub flag_entries : List ℕ → VdfNodes → VdfNodes
flag_entries target nil = nil
flag_entries target (next (node k v b cs) rest) =
    let behind = flag_entries target rest in
    if not b
    then next (node k v b cs) behind
    else if text_eq k target
    then next (node k v b (remember cs)) behind
    else next (node k v b (upsert_scalar cs (codes "MostRecent") (codes "0"))) behind

-- `matched`.
unfoldable pub has_entry : List ℕ → VdfNodes → Bool
has_entry target nil = false
has_entry target (next (node k v b cs) rest) = b && text_eq k target || has_entry target rest

-- The children of the child that `find_child` finds, replaced.
unfoldable pub set_children : List ℕ → VdfNodes → VdfNodes → VdfNodes
set_children key new nil = nil
set_children key new (next (node k v b cs) rest) =
    let behind = set_children key new rest in
    if text_eq k key then next (node k v b new) rest else next (node k v b cs) behind

-- `none` where `set_remembered_account` returns false and leaves the file.
unfoldable pub set_remembered_account : ℕ → VdfNodes → Option VdfNodes
set_remembered_account steam_id_64 root =
    let target = to_string steam_id_64 in
    if steam_id_64 == 0 then none else elim (find_child root (codes "users")) [
      | none ↦ none
      | some (node k v b users) ↦
          if not b || not (has_entry target users)
          then none
          else some (set_children (codes "users") (flag_entries target users) root)
    ]

-- The last loop of `ensure_loginusers_entry`.
unfoldable pub clear_others : List ℕ → VdfNodes → VdfNodes
clear_others target nil = nil
clear_others target (next (node k v b cs) rest) =
    let behind = clear_others target rest in
    if not b || text_eq k target
    then next (node k v b cs) behind
    else next (node k v b (upsert_scalar cs (codes "MostRecent") (codes "0"))) behind

unfoldable pub fill_entry : List ℕ → List ℕ → ℕ → VdfNodes → VdfNodes
fill_entry account_name persona_name now cs =
    let cs = upsert_scalar cs (codes "AccountName") account_name in
    let named = upsert_scalar cs (codes "PersonaName") persona_name in
    let cs = if text_eq persona_name [] then cs else named in
    upsert_scalar (remember cs) (codes "Timestamp") (to_string now)

unfoldable pub ensure_loginusers_entry : ℕ → List ℕ → List ℕ → ℕ → VdfNodes → Option VdfNodes
ensure_loginusers_entry steam_id_64 account_name persona_name now root =
    let target = to_string steam_id_64 in
    if steam_id_64 == 0 || text_eq account_name []
    then none
    else some (
        within_block (codes "users")
          (λ users.
            clear_others target
              (within_block target (fill_entry account_name persona_name now) users))
          root)

abbrev pub steam_path : List (List ℕ)
steam_path = codes "InstallConfigStore" ∷ codes "Software" ∷ codes "Valve" ∷ codes "Steam" ∷ []

abbrev pub accounts_path : List (List ℕ)
accounts_path =
    codes "InstallConfigStore"
    ∷ codes "Software"
    ∷ codes "Valve"
    ∷ codes "Steam"
    ∷ codes "Accounts"
    ∷ []

abbrev pub auth_path : List (List ℕ)
auth_path = codes "InstallConfigStore" ∷ codes "Software" ∷ codes "WebStorage" ∷ codes "Auth" ∷ []

-- `fresh` is whether there was no file, `mtbf` nine random digits.
unfoldable pub ensure_config_vdf_account : ℕ → List ℕ → Bool → List ℕ → VdfNodes → Option VdfNodes
ensure_config_vdf_account steam_id_64 account_name fresh mtbf root =
    if steam_id_64 == 0 || text_eq account_name []
    then none
    else let root =
        ensure_block_path accounts_path
          (within_block (to_lower account_name)
            λ cs. upsert_scalar cs (codes "SteamID") (to_string steam_id_64))
          root in
      let counted =
        ensure_block_path steam_path
          (λ cs. elim (find_child cs (codes "MTBF")) [
            | none ↦ upsert_scalar cs (codes "MTBF") mtbf
            | some n ↦ cs
          ])
          root in
      some (if fresh then counted else root)

unfoldable pub disable_account_chooser : VdfNodes → VdfNodes
disable_account_chooser root =
    ensure_block_path auth_path (λ cs. upsert_scalar cs (codes "AlwaysShowUserChooser") (codes "0"))
      root
