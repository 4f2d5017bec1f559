-- ===== src/Tests/Signing.antt =====
-- Runs of core/steam_local/loginusers.cpp on trees.
use steam_account_manager.Common.{
  ℕ, List, [], ◌∷◌, true, false, ◌≡◌, ◌≢◌, refl, some, text_eq, arith,
}
use steam_account_manager.Codec.Base64.{codes}
use steam_account_manager.SteamLocal.{
  VdfNode, node, VdfNodes, nil, next, to_string, decimal_from, find_child, upsert_scalar, has_entry,
  set_children, flag_entries, remember, set_remembered_account, ensure_loginusers_entry,
}
use steam_account_manager.SteamLocal.Remembered.{Remembers, set_remembered_account-Remembers}
use steam_account_manager.SteamLocal.Text.{
  parse_vdf, parse_object_body, parse_round, parse_value, next_token, token_at, skip_from,
  read_quoted, read_bare, unescape, serialize,
}
use steam_account_manager.SteamLocal.RoundTrip.{parse_vdf-serialize, are_plain}
use steam_account_manager.SteamLocal.Total.{parse_vdf-again}
use steam_account_manager.SteamLocal.Ensured.{Ensures, ensure_loginusers_entry-Ensures}

abbrev scalar : List ℕ → List ℕ → VdfNode
scalar key value = node key value false nil

abbrev marks : List ℕ → VdfNodes
marks value =
    next (scalar (codes "AccountName") (codes "x"))
      (next (scalar (codes "AllowAutoLogin") value) (next (scalar (codes "MostRecent") value) nil))

abbrev users : VdfNodes
users =
    next (node (codes "17") [] true (marks (codes "0")))
      (next (node (codes "18") [] true (marks (codes "1"))) nil)

abbrev root : VdfNodes
root = next (node (codes "users") [] true users) nil

set_remembered_account-Remembers_example :
    (root' : VdfNodes) × (set_remembered_account 17 root ≡ some root')
    × Remembers (to_string 17) root root'
unfolding find_child has_entry to_string decimal_from text_eq
set_remembered_account-Remembers_example =
    set_remembered_account-Remembers 17 root (omega arith) users (codes "users") [] refl refl

-- Of the other account, only the mark of the most recent one is taken away.
other_kept :
    set_remembered_account 17 root
    ≡ some (
        next
          (node (codes "users") [] true (
            next
              (node (codes "17") [] true (
                next (scalar (codes "AccountName") (codes "x")) (
                  next (scalar (codes "AllowAutoLogin") (codes "1")) (
                    next
                      (scalar (codes "MostRecent") (codes "1"))
                      (next (scalar (codes "RememberPassword") (codes "1")) nil)))))
              (next
                (node (codes "18") [] true (
                  next (scalar (codes "AccountName") (codes "x")) (
                    next
                      (scalar (codes "AllowAutoLogin") (codes "1"))
                      (next (scalar (codes "MostRecent") (codes "0")) nil))))
                nil)))
          nil)
unfolding set_remembered_account find_child has_entry set_children flag_entries remember
    upsert_scalar to_string decimal_from text_eq
other_kept = refl

ne_nil : (c : ℕ) (cs : List ℕ) → c ∷ cs ≢ []
ne_nil c cs = cc

ensure_loginusers_entry-Ensures_example :
    (root' : VdfNodes) × (ensure_loginusers_entry 19 (codes "ann") [] 1700000000 root ≡ some root')
    × Ensures (to_string 19) (codes "ann") root root'
ensure_loginusers_entry-Ensures_example =
    ensure_loginusers_entry-Ensures 19 (codes "ann") [] 1700000000 root (omega arith) (ne_nil _ _)

parse_vdf-serialize_example : parse_vdf (serialize root) ≡ some root
unfolding are_plain text_eq
parse_vdf-serialize_example = parse_vdf-serialize root refl

parse_vdf-again_example :
    (tree : VdfNodes) × (parse_vdf (codes "a b // c\n\"d\" { e }") ≡ some tree)
    × (parse_vdf (serialize tree) ≡ some tree)
parse_vdf-again_example = parse_vdf-again (codes "a b // c\n\"d\" { e }")

-- A bare word, a comment, a block without an end, and a key without a value.
read_loosely :
    parse_vdf (codes "a b // c\n\"d\" { e }")
    ≡ some (
        next
          (scalar (codes "a") (codes "b"))
          (next (node (codes "d") [] true (next (scalar (codes "e") []) nil)) nil))
unfolding parse_vdf parse_object_body parse_round parse_value next_token token_at skip_from
    read_quoted read_bare unescape
read_loosely = refl
