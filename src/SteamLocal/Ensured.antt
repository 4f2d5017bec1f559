-- ===== src/SteamLocal/Ensured.antt =====
-- core/steam_local/loginusers.cpp: the entry that the sign-in by token makes sure of.
use steam_account_manager.Common.{
  ℕ, List, [], ◌∷◌, Bool, true, false, ◌≡◌, ◌≢◌, refl, ◌∙◌, some, arith, text_eq, text_eq_self,
  if◌then◌else◌, Bool-cases, inl, inr, ◌==◌,
}
use steam_account_manager.Codec.Base64.{codes}
use steam_account_manager.SteamLocal.{
  node, VdfNodes, nil, next, to_string, find_child, upsert_scalar, within_block, remember,
  clear_others, fill_entry, ensure_loginusers_entry,
}
use steam_account_manager.SteamLocal.Remembered.{
  has_value, is_flagged, others_cleared, has_value-upsert, has_value-upsert_other, same_key,
  is_flagged-remember,
}

-- The block `key` of a tree, whose children are what `f` made of some.
record IsMade (root : VdfNodes) (key : List ℕ) (f : VdfNodes → VdfNodes) : Type 0 where
  name : List ℕ
  value : List ℕ
  before : VdfNodes
  found : find_child root key ≡ some (node name value true (f before))

module _ (key : List ℕ) (f : VdfNodes → VdfNodes) where
  within_block-IsMade : (root : VdfNodes) → IsMade (within_block key f root) key f
  unfolding find_child within_block
  within_block-IsMade nil = record {
    name = key;
    value = [];
    before = nil;
    found = ground (arith, text_eq_self key);
  }
  within_block-IsMade (next (node k v b cs) rest) = elim (Bool-cases (text_eq k key)) [
    | inl e ↦
        rw (e, within_block)
          (record { name = k; value = v; before = cs; found = ground (arith, e) })
    | inr e ↦
        let r = within_block-IsMade rest in
        rw (e, within_block)
          (record {
            name = r.name;
            value = r.value;
            before = r.before;
            found = ground (arith, e, r.found);
          })
  ]

  find_child-within_other :
      (x : List ℕ) (root : VdfNodes)
      → text_eq key x ≡ false
      → find_child (within_block key f root) x ≡ find_child root x
  unfolding find_child within_block
  find_child-within_other x nil h = ground (arith, h)
  find_child-within_other x (next (node k v b cs) rest) h =
      ground (arith, find_child-within_other x rest, same_key k key x, h)

module _ (target : List ℕ) where
  others_cleared-clear : (us : VdfNodes) → others_cleared target (clear_others target us) ≡ true
  unfolding others_cleared clear_others
  others_cleared-clear nil = refl
  others_cleared-clear (next (node k v b cs) rest) =
      ground
        (arith, others_cleared-clear rest, has_value-upsert cs (codes "MostRecent") (codes "0"))

  find_child-clear :
      (us : VdfNodes) → find_child (clear_others target us) target ≡ find_child us target
  unfolding find_child clear_others
  find_child-clear nil = refl
  find_child-clear (next (node k v b cs) rest) = ground (arith, find_child-clear rest)

is_flagged-upsert :
    (cs : VdfNodes) (key value : List ℕ)
    → text_eq key (codes "RememberPassword") ≡ false
    → text_eq key (codes "AllowAutoLogin") ≡ false
    → text_eq key (codes "MostRecent") ≡ false
    → is_flagged (upsert_scalar cs key value) ≡ is_flagged cs
unfolding is_flagged
is_flagged-upsert cs key value r a m = rw (
  has_value-upsert_other cs key value (codes "RememberPassword") (codes "1") r,
  has_value-upsert_other cs key value (codes "AllowAutoLogin") (codes "1") a,
  has_value-upsert_other cs key value (codes "MostRecent") (codes "1") m,
)

has_value-remember :
    (cs : VdfNodes) (w : List ℕ)
    → has_value (remember cs) (codes "AccountName") w ≡ has_value cs (codes "AccountName") w
unfolding remember text_eq
has_value-remember cs w =
    let one = codes "1" in
    let name = codes "AccountName" in
    let cs₁ = upsert_scalar cs (codes "RememberPassword") one in
    let cs₂ = upsert_scalar cs₁ (codes "AllowAutoLogin") one in
    has_value-upsert_other cs₂ (codes "MostRecent") one name w refl
    ∙ has_value-upsert_other cs₁ (codes "AllowAutoLogin") one name w refl
    ∙ has_value-upsert_other cs (codes "RememberPassword") one name w refl

-- The name stays when the persona's is set or not.
has_value-named :
    (b : Bool) (cs : VdfNodes) (persona_name w : List ℕ)
    → has_value cs (codes "AccountName") w ≡ true
    → has_value
        (if b then cs else upsert_scalar cs (codes "PersonaName") persona_name)
        (codes "AccountName")
        w
      ≡ true
unfolding text_eq
has_value-named true cs persona_name w h = h
has_value-named false cs persona_name w h =
    has_value-upsert_other cs (codes "PersonaName") persona_name (codes "AccountName") w refl ∙ h

module _ (account_name persona_name : List ℕ) (now : ℕ) (cs : VdfNodes) where
  is_flagged-fill : is_flagged (fill_entry account_name persona_name now cs) ≡ true
  unfolding fill_entry text_eq
  is_flagged-fill =
      is_flagged-upsert _ (codes "Timestamp") (to_string now) refl refl refl ∙ is_flagged-remember _

  has_value-fill :
      has_value (fill_entry account_name persona_name now cs) (codes "AccountName") account_name
      ≡ true
  unfolding fill_entry text_eq
  has_value-fill =
      has_value-upsert_other _ (codes "Timestamp") (to_string now) (codes "AccountName")
        account_name refl
      ∙ has_value-remember _ account_name
      ∙ has_value-named (text_eq persona_name [])
          (upsert_scalar cs (codes "AccountName") account_name) persona_name account_name
          (has_value-upsert cs (codes "AccountName") account_name)

not_empty : (l : List ℕ) → l ≢ [] → text_eq l [] ≡ false
unfolding text_eq
not_empty [] h = absurd (h refl)
not_empty (c ∷ cs) h = refl

-- What the edit leaves of a tree, whatever it was.
pub record Ensures (target account_name : List ℕ) (root root' : VdfNodes) : Type 0 where
  pub users : VdfNodes
  pub name : List ℕ
  pub value : List ℕ
  pub found : find_child root' (codes "users") ≡ some (node name value true users)
  pub entry : VdfNodes
  pub entry_name : List ℕ
  pub entry_value : List ℕ
  pub entry_found : find_child users target ≡ some (node entry_name entry_value true entry)
  pub named : has_value entry (codes "AccountName") account_name ≡ true
  pub flagged : is_flagged entry ≡ true
  pub cleared : others_cleared target users ≡ true
  pub rest :
      (x : List ℕ) → text_eq (codes "users") x ≡ false → find_child root' x ≡ find_child root x

-- For an id that is not 0 and a name that is not empty, and whatever the tree of loginusers.vdf
-- is, ensure_loginusers_entry leaves a block `users` with a block for the account that has this
-- name and its three marks; no other entry is most recent, and nothing beside `users` changes.
pub ensure_loginusers_entry-Ensures :
    (steam_id_64 : ℕ) (account_name persona_name : List ℕ) (now : ℕ) (root : VdfNodes)
    → steam_id_64 ≢ 0
    → account_name ≢ []
    → (root' : VdfNodes) × (ensure_loginusers_entry steam_id_64 account_name persona_name now root
        ≡ some root')
      × Ensures (to_string steam_id_64) account_name root root'
unfolding ensure_loginusers_entry
ensure_loginusers_entry-Ensures steam_id_64 account_name persona_name now root nonzero nonempty =
    let target = to_string steam_id_64 in
    let fill = fill_entry account_name persona_name now in
    let inner = λ (us : VdfNodes). clear_others target (within_block target fill us) in
    let outer = within_block-IsMade (codes "users") inner root in
    let made = within_block-IsMade target fill outer.before in
    let z : (steam_id_64 == 0) ≡ false = ground (arith, nonzero) in
    let e : text_eq account_name [] ≡ false = not_empty account_name nonempty in
    (
      within_block (codes "users") inner root,
      rw (z, e, ensure_loginusers_entry),
      record {
        users = inner outer.before;
        name = outer.name;
        value = outer.value;
        found = outer.found;
        entry = fill made.before;
        entry_name = made.name;
        entry_value = made.value;
        entry_found = find_child-clear target (within_block target fill outer.before) ∙ made.found;
        named = has_value-fill account_name persona_name now made.before;
        flagged = is_flagged-fill account_name persona_name now made.before;
        cleared = others_cleared-clear target (within_block target fill outer.before);
        rest = λ x a. find_child-within_other (codes "users") inner x root a;
      },
    )
