-- ===== src/SteamLocal/Remembered.antt =====
-- core/steam_local/loginusers.cpp: which account Steam signs in to after an edit of loginusers.vdf.
use steam_account_manager.Common.{
  ℕ, List, Bool, true, false, not, ◌&&◌, ◌||◌, ◌≡◌, ◌≢◌, refl, ◌∙◌, ap, Option, none, some, arith,
  text_eq, text_eq_iff, text_eq_self, Bool-cases, inl, inr, ◌==◌,
}
use steam_account_manager.Codec.Base64.{codes}
use steam_account_manager.SteamLocal.{
  VdfNode, node, VdfNodes, nil, next, to_string, find_child, upsert_scalar, remember, flag_entries,
  has_entry, set_children, set_remembered_account,
}

-- Is the child `key` a scalar of this value?
abbrev pub is_scalar : List ℕ → Option VdfNode → Bool
is_scalar value none = false
is_scalar value (some (node k v b cs)) = not b && text_eq v value

unfoldable pub has_value : VdfNodes → List ℕ → List ℕ → Bool
has_value cs key value = is_scalar value (find_child cs key)

-- The three marks of the account that Steam signs in to.
unfoldable pub is_flagged : VdfNodes → Bool
is_flagged cs =
    has_value cs (codes "RememberPassword") (codes "1")
    && has_value cs (codes "AllowAutoLogin") (codes "1")
    && has_value cs (codes "MostRecent") (codes "1")

-- Is the entry of every other account cleared?
unfoldable pub others_cleared : List ℕ → VdfNodes → Bool
others_cleared target nil = true
others_cleared target (next (node k v b cs) rest) =
    (not b || text_eq k target || has_value cs (codes "MostRecent") (codes "0"))
    && others_cleared target rest

unfoldable pub all_flagged : List ℕ → VdfNodes → Bool
all_flagged target nil = true
all_flagged target (next (node k v b cs) rest) =
    (not b || not (text_eq k target) || is_flagged cs) && all_flagged target rest

pub has_value-upsert :
    (cs : VdfNodes) (key value : List ℕ) → has_value (upsert_scalar cs key value) key value ≡ true
unfolding has_value find_child upsert_scalar
has_value-upsert nil key value = ground (arith, text_eq_self key, text_eq_self value)
has_value-upsert (next (node k v b cs) rest) key value =
    ground (arith, text_eq_self value, has_value-upsert rest key value)

-- A key that is the one named is another's only if that is it too.
pub same_key : (k key x : List ℕ) → text_eq k key ≡ true → text_eq k x ≡ text_eq key x
same_key k key x h = ap (λ t. text_eq t x) ((text_eq_iff k key).0 h)

pub has_value-upsert_other :
    (cs : VdfNodes) (key value x w : List ℕ)
    → text_eq key x ≡ false
    → has_value (upsert_scalar cs key value) x w ≡ has_value cs x w
unfolding has_value find_child upsert_scalar
has_value-upsert_other nil key value x w h = ground (arith, h)
has_value-upsert_other (next (node k v b cs) rest) key value x w h =
    ground (arith, has_value-upsert_other rest key value x w, same_key k key x, h)

pub is_flagged-remember : (cs : VdfNodes) → is_flagged (remember cs) ≡ true
unfolding is_flagged remember text_eq
is_flagged-remember cs =
    let one = codes "1" in
    let r = codes "RememberPassword" in
    let a = codes "AllowAutoLogin" in
    let m = codes "MostRecent" in
    let cs₁ = upsert_scalar cs r one in
    let cs₂ = upsert_scalar cs₁ a one in
    let remembered =
      has_value-upsert_other cs₂ m one r one refl
      ∙ has_value-upsert_other cs₁ a one r one refl
      ∙ has_value-upsert cs r one in
    let allowed = has_value-upsert_other cs₂ m one a one refl ∙ has_value-upsert cs₁ a one in
    let recent = has_value-upsert cs₂ m one in rw (remembered, allowed, recent)

module _ (target : List ℕ) where
  others_cleared-flag : (us : VdfNodes) → others_cleared target (flag_entries target us) ≡ true
  unfolding others_cleared flag_entries
  others_cleared-flag nil = refl
  others_cleared-flag (next (node k v b cs) rest) =
      ground (arith, others_cleared-flag rest, has_value-upsert cs (codes "MostRecent") (codes "0"))

  all_flagged-flag : (us : VdfNodes) → all_flagged target (flag_entries target us) ≡ true
  unfolding all_flagged flag_entries
  all_flagged-flag nil = refl
  all_flagged-flag (next (node k v b cs) rest) =
      ground (arith, all_flagged-flag rest, is_flagged-remember cs)

  has_entry-flag : (us : VdfNodes) → has_entry target (flag_entries target us) ≡ has_entry target us
  unfolding has_entry flag_entries
  has_entry-flag nil = refl
  has_entry-flag (next (node k v b cs) rest) = ground (arith, has_entry-flag rest)

with_children : VdfNodes → Option VdfNode → Option VdfNode
with_children us none = none
with_children us (some (node k v b cs)) = some (node k v b us)

find_child-set :
    (key : List ℕ) (us root : VdfNodes)
    → find_child (set_children key us root) key ≡ with_children us (find_child root key)
unfolding find_child set_children with_children
find_child-set key us nil = refl
find_child-set key us (next (node k v b cs) rest) = elim (Bool-cases (text_eq k key)) [
  | inl e ↦ rw (e, set_children, find_child) (ground (arith, e))
  | inr e ↦ rw (e, set_children, find_child) (ground (arith, e, find_child-set key us rest))
]

find_child-set_other :
    (key x : List ℕ) (us root : VdfNodes)
    → text_eq key x ≡ false
    → find_child (set_children key us root) x ≡ find_child root x
unfolding find_child set_children
find_child-set_other key x us nil h = refl
find_child-set_other key x us (next (node k v b cs) rest) h =
    ground (arith, find_child-set_other key x us rest, same_key k key x, h)

-- What a successful edit of the tree `root` for the account `target` leaves.
pub record Remembers (target : List ℕ) (root root' : VdfNodes) : Type 0 where
  pub users : VdfNodes
  pub key : List ℕ
  pub value : List ℕ
  pub found : find_child root' (codes "users") ≡ some (node key value true users)
  pub present : has_entry target users ≡ true
  pub flagged : all_flagged target users ≡ true
  pub cleared : others_cleared target users ≡ true
  pub rest :
      (x : List ℕ) → text_eq (codes "users") x ≡ false → find_child root' x ≡ find_child root x

remembered :
    (target : List ℕ) (root users : VdfNodes) (key value : List ℕ)
    → find_child root (codes "users") ≡ some (node key value true users)
    → has_entry target users ≡ true
    → Remembers target root (set_children (codes "users") (flag_entries target users) root)
unfolding with_children
remembered target root users key value e h = record {
  users = flag_entries target users;
  key = key;
  value = value;
  found =
      find_child-set (codes "users") (flag_entries target users) root
      ∙ ap (with_children (flag_entries target users)) e;
  present = has_entry-flag target users ∙ h;
  flagged = all_flagged-flag target users;
  cleared = others_cleared-flag target users;
  rest = λ x a. find_child-set_other (codes "users") x (flag_entries target users) root a;
}

-- Where the tree of loginusers.vdf has a block `users` with a block for an account whose id is
-- not 0, set_remembered_account succeeds: every entry of the account is remembered, allowed to
-- sign in and most recent, no other entry is most recent, and nothing beside `users` changes.
pub set_remembered_account-Remembers :
    (steam_id_64 : ℕ) (root : VdfNodes)
    → steam_id_64 ≢ 0
    → (users : VdfNodes) (key value : List ℕ)
    → find_child root (codes "users") ≡ some (node key value true users)
    → has_entry (to_string steam_id_64) users ≡ true
    → (root' : VdfNodes) × (set_remembered_account steam_id_64 root ≡ some root')
      × Remembers (to_string steam_id_64) root root'
unfolding set_remembered_account
set_remembered_account-Remembers steam_id_64 root nonzero users key value e h =
    let z : (steam_id_64 == 0) ≡ false = ground (arith, nonzero) in
    (
      set_children (codes "users") (flag_entries (to_string steam_id_64) users) root,
      rw (z, set_remembered_account, e, h),
      remembered (to_string steam_id_64) root users key value e h,
    )
