-- ===== src/VdfTree.antt =====
-- core/cleaner/vdf_tree.{hpp,cpp}: the text VDF documents that the cleaner edits.
-- A document is an ordered tree; duplicate keys are allowed. A `wchar_t` is its code unit, a
-- `std::wstring` a list of them.
pub mod Parser
pub mod Writer
pub mod Lookup
pub mod Quoted
pub mod Progress
pub mod ErrorPosition
pub mod Fuel
pub mod RoundTrip
use steam_account_manager.Common.{
  ℕ, List, Bool, true, false, Option, none, some, if◌then◌else◌, text_eq,
}

-- `Node` holds a `std::variant<Children, std::wstring>`; `Children` is a vector of pairs.
mutual
  pub data Node : Type 0 where
    object : Children → Node
    leaf : List ℕ → Node

  pub data Children : Type 0 where
    nil : Children
    entry : List ℕ → Node → Children → Children

pub record Document : Type 0 where
  pub root_key : List ℕ
  pub root : Node

unfoldable pub is_object : Node → Bool
is_object (object cs) = true
is_object (leaf v) = false

-- The loop of `find`: the first child of that key.
unfoldable pub find_child : List ℕ → Children → Option Node
find_child key nil = none
find_child key (entry k v cs) = if text_eq k key then some v else find_child key cs

unfoldable pub find : Node → List ℕ → Option Node
unfolding find_child
find (object cs) key = find_child key cs
find (leaf v) key = none

-- The loop of `set`: overwrite the first child of that key, else append one.
unfoldable pub set_child : List ℕ → Node → Children → Children
set_child key child nil = entry key child nil
set_child key child (entry k v cs) =
    if text_eq k key then entry k child cs else entry k v (set_child key child cs)

-- `none` is the `std::bad_variant_access` that `children()` throws on a leaf.
unfoldable pub set : Node → List ℕ → Node → Option Node
unfolding set_child
set (object cs) key child = some (object (set_child key child cs))
set (leaf v) key child = none

-- `find_if` and `erase`: the children without the first of that key, if there is one.
unfoldable pub erase_child : List ℕ → Children → Children
erase_child key nil = nil
erase_child key (entry k v cs) = if text_eq k key then cs else entry k v (erase_child key cs)

unfoldable pub has_child : List ℕ → Children → Bool
has_child key nil = false
has_child key (entry k v cs) = if text_eq k key then true else has_child key cs

-- The node afterwards, and whether a child was removed.
unfoldable pub remove : Node → List ℕ → Node × Bool
unfolding erase_child has_child
remove (leaf v) key = (leaf v, false)
remove (object cs) key =
    if has_child key cs then (object (erase_child key cs), true) else (object cs, false)
