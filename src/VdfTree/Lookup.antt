-- ===== src/VdfTree/Lookup.antt =====
-- core/cleaner/vdf_tree.cpp: `Node::find`, `Node::set` and `Node::remove` against one another.
use steam_account_manager.Common.{
  ℕ, ◌+◌, List, ◌≡◌, ◌≢◌, ◌↔◌, refl, true, false, some, none, arith, if◌then◌else◌, text_eq,
  text_eq_iff, text_eq_self, Bool-cases, inl, inr,
}
use steam_account_manager.VdfTree.{
  Node, object, leaf, Children, nil, entry, find_child, find, set_child, set, erase_child,
  has_child, remove,
}

set_child-find :
    (key j : List ℕ) (child : Node) (cs : Children)
    → find_child j (set_child key child cs)
      ≡ (if text_eq key j then some child else find_child j cs)
unfolding find_child set_child
set_child-find key j child nil = refl
set_child-find key j child (entry k v cs) =
    ground
      (arith, text_eq_iff k key, text_eq_iff k j, text_eq_iff key j, set_child-find key j child cs)

-- How many children have the key.
unfoldable pub count : List ℕ → Children → ℕ
count key nil = 0
count key (entry k v cs) = (if text_eq k key then 1 else 0) + count key cs

erase_child-find :
    (key j : List ℕ) (cs : Children) → key ≢ j → find_child j (erase_child key cs) ≡ find_child j cs
unfolding find_child erase_child
erase_child-find key j nil h = refl
erase_child-find key j (entry k v cs) h =
    ground (arith, text_eq_iff k key, text_eq_iff k j, erase_child-find key j cs h)

erase_child-count :
    (key j : List ℕ) (cs : Children)
    → count j (erase_child key cs)
        + (if has_child key cs then (if text_eq key j then 1 else 0) else 0)
      ≡ count j cs
unfolding count erase_child has_child
erase_child-count key j nil = refl
erase_child-count key j (entry k v cs) =
    ground
      (arith, text_eq_iff k key, text_eq_iff k j, text_eq_iff key j, erase_child-count key j cs)

has_child-find : (key : List ℕ) (cs : Children) → has_child key cs ≡ true → find_child key cs ≢ none
unfolding has_child find_child
has_child-find key nil h = cc
has_child-find key (entry k v cs) h = ground (arith, has_child-find key cs)

find-has_child :
    (key : List ℕ) (cs : Children) → has_child key cs ≡ false → find_child key cs ≡ none
unfolding has_child find_child
find-has_child key nil h = refl
find-has_child key (entry k v cs) h = ground (arith, find-has_child key cs)

-- Where Node::set succeeds, its key leads to the new child, and every other key to what it led
-- to before.
pub find-set :
    (node : Node) (key j : List ℕ) (child : Node) {node' : Node}
    → set node key child ≡ some node'
    → find node' j ≡ (if text_eq key j then some child else find node j)
unfolding set find
find-set (object cs) key j child e = ground (arith, set_child-find key j child cs)
find-set (leaf v) key j child e = cc

-- Node::remove on a block answers whether the key was there; if so it takes away one child of
-- that key, and the children of every other key are found, and are as many, as before.
pub remove_lem :
    (cs : Children) (key : List ℕ)
    → let r = remove (object cs) key in
      (cs' : Children) × (r.0 ≡ object cs')
      × ((r.1 ≡ true) ↔ (find (object cs) key ≢ none))
      × (count key cs' + (if r.1 then 1 else 0) ≡ count key cs)
      × ((j : List ℕ) → key ≢ j → (find r.0 j ≡ find (object cs) j) × (count j cs' ≡ count j cs))
unfolding remove find
remove_lem cs key = elim (Bool-cases (has_child key cs)) [
  | inl h ↦ rw h (
    erase_child key cs,
    refl,
    (λ _. has_child-find key cs h, λ _. refl),
    ground (arith, erase_child-count key key cs, text_eq_self key),
    λ j ne. (
      erase_child-find key j cs ne,
      ground (arith, erase_child-count key j cs, text_eq_iff key j),
    ),
  )
  | inr h ↦ rw h (
    cs,
    refl,
    (λ e. cc, λ ne. absurd (ne (find-has_child key cs h))),
    ground arith,
    λ j ne. (refl, refl),
  )
]
