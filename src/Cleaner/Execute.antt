-- ===== src/Cleaner/Execute.antt =====
-- core/cleaner/execute.cpp: a plan's steps are run in order, over the state `W` of the machine. The
-- counters are not bounded.
use steam_account_manager.Common.{
  ℕ, ◌+◌, ◌%◌, ◌^◌, List, [], ◌∷◌, ◌++◌, Bool, true, false, not, ◌||◌, ◌==◌, Option, none, some,
  if◌then◌else◌, text_eq, length,
}
use steam_account_manager.Codec.Base64.{codes}
use steam_account_manager.VdfTree.{Node, object, leaf, Document, find, set, remove, is_object}
use steam_account_manager.Cleaner.{OpKind, Operation, PlanStep, Plan}

-- The roots that a registry path can have.
pub data Hive : Type 0 where
  current_user local_machine classes_root users : Hive

-- What the platform does (platform/fs.cpp, platform/registry.cpp, `vdf::load` and `vdf::save`): the
-- state afterwards, and whether it was done.
pub record Platform (W : Type 0) : Type 0 where
  pub delete_file_forced : W → List ℕ → W × Bool
  pub delete_directory_recursive : W → List ℕ → W × Bool
  pub delete_value : W → Hive → List ℕ → List ℕ → W × Bool
  pub delete_key_recursive : W → Hive → List ℕ → W × Bool
  pub write_string : W → Hive → List ℕ → List ℕ → List ℕ → W × Bool
  pub load : W → List ℕ → Option Document
  pub save : W → Document → List ℕ → W × Bool

-- The text before the first backslash and the text behind it.
unfoldable pub split_first : List ℕ → Option (List ℕ × List ℕ)
split_first [] = none
split_first (c ∷ cs) =
    let rest = split_first cs in
    if c == b'\\'
    then some ([], cs)
    else elim rest [ none ↦ none | some (before, after) ↦ some (c ∷ before, after) ]

unfoldable pub hive_of : List ℕ → Option Hive
hive_of name =
    if text_eq name (codes "HKCU") || text_eq name (codes "HKEY_CURRENT_USER")
    then some Hive.current_user
    else if text_eq name (codes "HKLM") || text_eq name (codes "HKEY_LOCAL_MACHINE")
    then some Hive.local_machine
    else if text_eq name (codes "HKCR") || text_eq name (codes "HKEY_CLASSES_ROOT")
    then some Hive.classes_root
    else if text_eq name (codes "HKU") || text_eq name (codes "HKEY_USERS")
    then some Hive.users
    else none

unfoldable pub parse_reg_path : List ℕ → Option (Hive × List ℕ)
parse_reg_path full = elim (split_first full) [
  | none ↦ none
  | some (name, rest) ↦ elim (hive_of name) [ none ↦ none | some hive ↦ some (hive, rest) ]
]

-- A path split at its backslashes: the keys of `walk_to_parent`, and `leaf`.
unfoldable pub path_keys : List ℕ → List (List ℕ) × List ℕ
path_keys [] = ([], [])
path_keys (c ∷ cs) =
    let (parents, last) = path_keys cs in
    if c == b'\\'
    then ([] ∷ parents, last)
    else elim parents [ [] ↦ ([], c ∷ last) | k ∷ ks ↦ ((c ∷ k) ∷ ks, last) ]

-- The tree after `edit` of the node that `walk_to_parent` reaches; `none` where a key is missing or
-- leads to a value.
unfoldable pub edit_at : (Node → Option Node) → Node → List (List ℕ) → Option Node
edit_at edit node [] = edit node
edit_at edit node (k ∷ ks) = elim (find node k) [
  | none ↦ none
  | some (leaf v) ↦ none
  | some (object cs) ↦ elim (edit_at edit (object cs) ks) [
    | none ↦ none
    | some child ↦ set node k child
  ]
]

unfoldable pub remove_key : List ℕ → Node → Option Node
remove_key key node = let (node', removed) = remove node key in some node'

unfoldable pub set_key : List ℕ → List ℕ → Node → Option Node
set_key key payload node = set node key (leaf payload)

-- The state afterwards, and the error if there is one.
abbrev pub done_or : {W : Type 0} → W × Bool → List ℕ → W × Option (List ℕ)
done_or (w, true) message = (w, none)
done_or (w, false) message = (w, some message)

module _ {W : Type 0} (p : Platform W) where
  unfoldable pub with_registry :
      W → Operation → (Hive → List ℕ → W × Option (List ℕ)) → W × Option (List ℕ)
  with_registry w op act = elim (parse_reg_path op.target) [
    | none ↦ (w, some (codes "Invalid registry path: " ++ op.target))
    | some (hive, subkey) ↦ act hive subkey
  ]

  unfoldable pub edit_vdf : W → List ℕ → (Node → Option Node) → List (List ℕ) → W × Option (List ℕ)
  edit_vdf w path edit parents = elim (p.load w path) [
    | none ↦ (w, some (codes "VDF parse failed: " ++ path))
    | some doc ↦
        if not (is_object doc.root)
        then (w, some (codes "VDF root is not an object: " ++ path))
        else elim (edit_at edit doc.root parents) [
          | none ↦ (w, none)
          | some root' ↦
              done_or (p.save w (record doc { root = root' }) path)
                (codes "VDF save failed: " ++ path)
        ]
  ]

  unfoldable pub execute_kind : OpKind → W → Operation → W × Option (List ℕ)
  execute_kind OpKind.remove_file w op =
      done_or (p.delete_file_forced w op.target) (codes "DeleteFile failed: " ++ op.target)
  execute_kind OpKind.remove_tree w op =
      done_or (p.delete_directory_recursive w op.target)
        (codes "DeleteDirectory failed: " ++ op.target)
  execute_kind OpKind.remove_registry_value w op = with_registry w op (λ hive subkey.
      done_or (p.delete_value w hive subkey op.value_name)
        (codes "DeleteRegistryValue failed: " ++ op.target ++ codes " :: " ++ op.value_name))
  execute_kind OpKind.remove_registry_key w op = with_registry w op (λ hive subkey.
      done_or (p.delete_key_recursive w hive subkey)
        (codes "DeleteRegistryKey failed: " ++ op.target))
  execute_kind OpKind.write_registry_string w op = with_registry w op (λ hive subkey.
      done_or (p.write_string w hive subkey op.value_name op.payload)
        (codes "WriteRegistryString failed: " ++ op.target ++ codes " :: " ++ op.value_name))
  execute_kind OpKind.vdf_remove_child w op =
      let (parents, key) = path_keys op.value_name in edit_vdf w op.target (remove_key key) parents
  execute_kind OpKind.vdf_set_value w op =
      let (parents, key) = path_keys op.value_name in
      edit_vdf w op.target (set_key key op.payload) parents

  unfoldable pub execute_one : W → PlanStep → W × Option (List ℕ)
  execute_one w step = execute_kind step.op.kind w step.op

-- What a run does, as seen from outside: a step is run, or `on_progress` is called with `done` and
-- `total`.
pub data Event : Type 0 where
  ran : PlanStep → Event
  progress : ℕ → ℕ → Event

-- `CleanResult`, and what the run has done so far. A count that an int does not hold is undefined in
-- the source, and taken modulo 2^31 here.
pub record CleanResult : Type 0 where
  pub succeeded : ℕ
  pub failed : ℕ
  pub bytes_freed : ℕ
  pub failure_messages : List (List ℕ)
  pub trace : List Event

unfoldable pub log_event : CleanResult → Event → CleanResult
log_event r event = record r { trace = r.trace ++ event ∷ [] }

unfoldable pub add_outcome : CleanResult → Operation → Option (List ℕ) → CleanResult
add_outcome r op none = record r {
  succeeded = (r.succeeded + 1) % 2 ^ 31;
  bytes_freed = (r.bytes_freed + op.size_bytes) % 2 ^ 64;
}
add_outcome r op (some message) = record r {
  failed = (r.failed + 1) % 2 ^ 31;
  failure_messages = r.failure_messages ++ message ∷ [];
}

module _ {W : Type 0} (p : Platform W) where
  -- The loop, with `n` steps done.
  unfoldable pub execute_steps : ℕ → W → ℕ → CleanResult → List PlanStep → W × CleanResult
  execute_steps total w n r [] = (w, r)
  execute_steps total w n r (s ∷ ss) =
      let (w', outcome) = execute_one p w s in
      let n' = (n + 1) % 2 ^ 31 in
      let r' = add_outcome (log_event r (ran s)) s.op outcome in
      execute_steps total w' n' (log_event r' (progress n' total)) ss

  unfoldable pub execute : W → Plan → W × CleanResult
  execute w plan =
      execute_steps (length plan.steps % 2 ^ 31) w 0
        (record { succeeded = 0; failed = 0; bytes_freed = 0; failure_messages = []; trace = [] })
        plan.steps
