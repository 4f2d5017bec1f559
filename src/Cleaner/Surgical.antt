-- ===== src/Cleaner/Surgical.antt =====
-- core/cleaner/execute.cpp: the edits of VDF documents leave every other path as it was.
use steam_account_manager.Common.{
  ℕ, List, [], ◌∷◌, ◌++◌, Bool, true, false, Option, none, some, if◌then◌else◌, text_eq,
  text_eq_iff, ap, sym, ◌∙◌, ◌⊎◌, ◌≡◌, ◌≢◌, Bool-cases, Option-cases, inl, inr,
}
use steam_account_manager.VdfTree.{Node, object, leaf, find, set, remove}
use steam_account_manager.VdfTree.Lookup.{find-set, remove_lem}
use steam_account_manager.Cleaner.Execute.{edit_at, remove_key, set_key}

-- The node that a path of keys leads to.
unfoldable pub find_path : Node → List (List ℕ) → Option Node
find_path node [] = some node
find_path node (k ∷ ks) = elim (find node k) [ none ↦ none | some child ↦ find_path child ks ]

-- Two paths that part at some key.
unfoldable pub diverges : List (List ℕ) → List (List ℕ) → Bool
diverges [] q = false
diverges (a ∷ p) [] = false
diverges (a ∷ p) (b ∷ q) = let rest = diverges p q in if text_eq a b then rest else true

-- An edit that changes at most where one key leads.
pub ChangesOnly : List ℕ → (Node → Option Node) → Type 0
ChangesOnly key edit =
    (node node' : Node) (j : List ℕ)
    → edit node ≡ some node'
    → text_eq key j ≡ false
    → find node' j ≡ find node j

remove_key-ChangesOnly : (key : List ℕ) → ChangesOnly key (remove_key key)
unfolding ChangesOnly remove_key
remove_key-ChangesOnly key (leaf v) node' j e h =
    let c : some (leaf v) ≡ some node' = (unfold remove in e) in
    let same : leaf v ≡ node' = cc in unfold find in rw (sym same)
remove_key-ChangesOnly key (object cs) node' j e h =
    let (cs', r, answer, counted, others) = remove_lem cs key in
    let same : (remove (object cs) key).0 ≡ node' = cc in
    let apart : key ≢ j = λ k. let t = (text_eq_iff key j).1 k in cc in
    rw (sym same) (others j apart).0

set_key-ChangesOnly : (key payload : List ℕ) → ChangesOnly key (set_key key payload)
unfolding ChangesOnly set_key
set_key-ChangesOnly key payload node node' j e h = rw (find-set node key j (leaf payload) e, h)

find_path-first :
    (node node' : Node) (b : List ℕ) (q : List (List ℕ))
    → find node' b ≡ find node b
    → find_path node' (b ∷ q) ≡ find_path node (b ∷ q)
unfolding find_path
find_path-first node node' b q h = rw (h, find_path)

find_path-some :
    (node child : Node) (b : List ℕ) (q : List (List ℕ))
    → find node b ≡ some child
    → find_path node (b ∷ q) ≡ find_path child q
unfolding find_path
find_path-some node child b q h = rw (h, find_path)

parted :
    (a b : List ℕ) (p q : List (List ℕ))
    → diverges (a ∷ p) (b ∷ q) ≡ true
    → (text_eq a b ≡ false) ⊎ ((a ≡ b) × (diverges p q ≡ true))
unfolding diverges
parted a b p q h = elim (Bool-cases (text_eq a b)) [
  | inl e ↦ inr ((text_eq_iff a b).0 e, rw e at h)
  | inr e ↦ inl e
]

-- What `edit_at` did at its first key, where it gave a tree.
edit_at-inv :
    (edit : Node → Option Node) (node node' : Node) (k : List ℕ) (ks : List (List ℕ))
    → edit_at edit node (k ∷ ks) ≡ some node'
    → (child : Node) × (child' : Node) × (find node k ≡ some child)
      × (edit_at edit child ks ≡ some child')
      × (set node k child' ≡ some node')
unfolding edit_at
edit_at-inv edit node node' k ks e = elim (Option-cases (find node k)) [
  | inl n ↦ let c : none ≡ some node' = (rw (n, edit_at) at e) in cc
  | inr (leaf v, f) ↦ let c : none ≡ some node' = (rw (f, edit_at) at e) in cc
  | inr (object cs, f) ↦ elim (Option-cases (edit_at edit (object cs) ks)) [
    | inl n ↦ let c : none ≡ some node' = (rw (f, n, edit_at) at e) in cc
    | inr (child', g) ↦ (object cs, child', f, g, (rw (f, g, edit_at) at e))
  ]
]

edit_at-find_path :
    (key : List ℕ) (edit : Node → Option Node) (node node' : Node) (parents q : List (List ℕ))
    → ChangesOnly key edit
    → edit_at edit node parents ≡ some node'
    → diverges (parents ++ key ∷ []) q ≡ true
    → find_path node' q ≡ find_path node q
edit_at-find_path key edit node node' [] [] c e d =
    let f : false ≡ true = (unfold diverges in d) in cc
edit_at-find_path key edit node node' [] (b ∷ q) c e d = elim (parted key b [] q d) [
  | inl ne ↦
      find_path-first node node' b q (unfold ChangesOnly in c node node' b (unfold edit_at in e) ne)
  | inr (same, rest) ↦ let f : false ≡ true = (unfold diverges in rest) in cc
]
edit_at-find_path key edit node node' (k ∷ ks) [] c e d =
    let f : false ≡ true = (unfold diverges in d) in cc
edit_at-find_path key edit node node' (k ∷ ks) (b ∷ q) c e d =
    let (child, child', f, g, s) = edit_at-inv edit node node' k ks e in
    let found = find-set node k b child' s in
    elim (parted k b (ks ++ key ∷ []) q d) [
      | inl ne ↦ find_path-first node node' b q (rw ne at found)
      | inr (same, rest) ↦
          let here : find node' b ≡ some child' = (rw ((text_eq_iff k b).1 same) at found) in
          find_path-some node' child' b q here
          ∙ edit_at-find_path key edit child child' ks q c g rest
          ∙ sym (find_path-some node child b q (ap (find node) (sym same) ∙ f))
    ]

-- The edit of a VdfRemoveChild or VdfSetValue step, at a path `parents` and then `key`, changes
-- nothing at a path that parts from it.
pub edit_at-surgical :
    (key payload : List ℕ) (node node' : Node) (parents q : List (List ℕ))
    → (edit_at (remove_key key) node parents ≡ some node')
      ⊎ (edit_at (set_key key payload) node parents ≡ some node')
    → diverges (parents ++ key ∷ []) q ≡ true
    → find_path node' q ≡ find_path node q
edit_at-surgical key payload node node' parents q (inl e) d =
    edit_at-find_path key (remove_key key) node node' parents q (remove_key-ChangesOnly key) e d
edit_at-surgical key payload node node' parents q (inr e) d =
    edit_at-find_path key (set_key key payload) node node' parents q
      (set_key-ChangesOnly key payload) e d
