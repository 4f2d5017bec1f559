-- ===== src/Cleaner/SparedTokens.antt =====
-- core/cleaner/plan.cpp: the login tokens of the accounts to keep, in config.vdf and local.vdf.
use steam_account_manager.Common.{
  ℕ, zero, suc, List, [], ◌∷◌, ◌++◌, Bool, true, false, not, ◌&&◌, ◌||◌, Option, none, some,
  text_eq, text_eq_self, text_eq_iff, Bool-cases, inl, inr, ◌≡◌, refl, arith, get_elem?,
}
use steam_account_manager.Common.Every.{every, every-append}
use steam_account_manager.Codec.Base64.{codes}
use steam_account_manager.VdfTree.{Node, Children, nil, entry, find}
use steam_account_manager.Cleaner.{
  PreserveList, preserves, contains, is_empty, PlanStep, ResolveContext, Machine, erase_if,
  AccountInfo, path_join,
}
use steam_account_manager.Cleaner.ConnectCache.{
  preserved_connect_cache_keys, preserved_keys_of, connect_cache_key,
}
use steam_account_manager.Cleaner.Rewrites.{is_file_removal}
use steam_account_manager.Cleaner.Targets.{starts_with}
use steam_account_manager.Cleaner.{OpKind}
use steam_account_manager.Cleaner.ConfigRewrites.{
  rewrite_config_vdf, rewrite_local_vdf, account_removals, token_removals, from_block, block,
  steam_block, connect_cache_prefix, accounts_prefix,
}

abbrev pub is_entry_removal : OpKind → Bool
is_entry_removal OpKind.vdf_remove_child = true
is_entry_removal _ = false

-- A step that removes an entry below the block Accounts, or one below the block ConnectCache that has
-- another key than `key`: no file, no tree, and no block that the entry of `key` stands in.
abbrev pub spares_entry : List ℕ → PlanStep → Bool
spares_entry key s =
    is_entry_removal s.op.kind
    && (starts_with s.op.value_name accounts_prefix
        || (starts_with s.op.value_name connect_cache_prefix
            && not (text_eq s.op.value_name connect_cache_prefix)
            && not (text_eq s.op.value_name (connect_cache_prefix ++ key))))

starts_with-append : (p a : List ℕ) → starts_with (p ++ a) p ≡ true
unfolding starts_with
starts_with-append [] a = refl
starts_with-append (c ∷ p) a = ground (arith, starts_with-append p a)

not_block : (p name : List ℕ) → is_empty name ≡ false → text_eq (p ++ name) p ≡ false
unfolding text_eq
not_block [] [] h = cc
not_block [] (c ∷ name) h = refl
not_block (c ∷ p) name h = ground (arith, not_block p name h)

text_eq-append : (p a b : List ℕ) → text_eq (p ++ a) (p ++ b) ≡ text_eq a b
unfolding text_eq
text_eq-append [] a b = refl
text_eq-append (c ∷ p) a b = ground (arith, text_eq-append p a b)

contains-not_eq :
    (keys : List (List ℕ)) (a k : List ℕ)
    → contains keys k ≡ true
    → contains keys a ≡ false
    → text_eq a k ≡ false
contains-not_eq keys a k h n = elim (Bool-cases (text_eq a k)) [
  | inl e ↦
      let q : a ≡ k = (text_eq_iff a k).0 e in let c : contains keys k ≡ false = (rw q at n) in cc
  | inr e ↦ e
]

preserved_keys_of-contains :
    (towlower : ℕ → ℕ) (keep : PreserveList) (accs : List AccountInfo) (i : ℕ) (acc : AccountInfo)
    → get_elem? accs i ≡ some acc
    → is_empty acc.account_name ≡ false
    → preserves keep acc.steamid64 ≡ true
    → contains (preserved_keys_of towlower accs keep) (connect_cache_key towlower acc.account_name)
      ≡ true
unfolding preserved_keys_of contains
preserved_keys_of-contains towlower keep [] i acc e n p = cc
preserved_keys_of-contains towlower keep (a ∷ accs) zero acc e n p =
    let q : a ≡ acc = cc in rw (q, n, p, text_eq_self (connect_cache_key towlower acc.account_name))
preserved_keys_of-contains towlower keep (a ∷ accs) (suc i) acc e n p =
    ground (arith, preserved_keys_of-contains towlower keep accs i acc e n p)

module _ (id path : List ℕ) (k : List ℕ) where
  token_removals-spares :
      (keys : List (List ℕ)) (cs : Children)
      → contains keys k ≡ true
      → every (spares_entry k) (token_removals id path keys cs) ≡ true
  unfolding token_removals every starts_with
  token_removals-spares keys nil h = refl
  token_removals-spares keys (entry name child cs) h =
      elim (Bool-cases (is_empty name || contains keys name)) [
        | inl e ↦ rw e (token_removals-spares keys cs h)
        | inr e ↦
            rw
              (
                e,
                starts_with-append connect_cache_prefix name,
                not_block connect_cache_prefix name (ground arith),
                text_eq-append connect_cache_prefix name k,
                contains-not_eq keys name k h (ground arith),
              )
              (token_removals-spares keys cs h)
      ]

  account_removals-spares :
      (keep : PreserveList) (cs : Children)
      → every (spares_entry k) (account_removals id path keep cs) ≡ true
  unfolding account_removals every
  account_removals-spares keep nil = refl
  account_removals-spares keep (entry name child cs) =
      ground (arith, account_removals-spares keep cs, starts_with-append accounts_prefix name)

from_block-every :
    (test : PlanStep → Bool) (cs : Option Children) (removals : Children → List PlanStep)
    → ((ds : Children) → every test (removals ds) ≡ true)
    → every test (from_block cs removals) ≡ true
unfolding from_block every
from_block-every test none removals h = refl
from_block-every test (some ds) removals h = h ds

module _ (id : List ℕ) where
  pub file_removals-erased :
      (steps : List PlanStep)
      → every (is_file_removal id) steps ≡ true
      → erase_if (is_file_removal id) steps ≡ []
  unfolding every erase_if
  file_removals-erased [] h = refl
  file_removals-erased (s ∷ ss) h = ground (arith, file_removals-erased ss)

module _ (id : List ℕ) (m : Machine) (ctx : ResolveContext) (keep : PreserveList) where
  -- Where config.vdf has the block Software, Valve, Steam and the keep list is not empty, the
  -- file removals of its target give way to removals of single entries below the blocks Accounts
  -- and ConnectCache, of which none is the login token of an account that is kept and has a
  -- login name.
  pub rewrite_config_vdf-spares_token :
      (steps : List PlanStep) {steam : Node} (i : ℕ) {acc : AccountInfo}
      → every (is_file_removal id) steps ≡ true
      → is_empty keep ≡ false
      → steam_block (m.load (path_join ctx.config_dir (codes "config.vdf"))) ≡ some steam
      → get_elem? ctx.accounts i ≡ some acc
      → is_empty acc.account_name ≡ false
      → preserves keep acc.steamid64 ≡ true
      → every
          (spares_entry (connect_cache_key m.towlower acc.account_name))
          (rewrite_config_vdf id m ctx (some keep) steps)
        ≡ true
  unfolding rewrite_config_vdf preserved_connect_cache_keys
  rewrite_config_vdf-spares_token steps {steam} i {acc} files nonempty p e n k =
      let path = path_join ctx.config_dir (codes "config.vdf") in
      let key = connect_cache_key m.towlower acc.account_name in
      let keys = preserved_keys_of m.towlower ctx.accounts keep in
      let held = preserved_keys_of-contains m.towlower keep ctx.accounts i acc e n k in
      let accounts = block (find steam (codes "Accounts")) in
      let cache = block (find steam (codes "ConnectCache")) in
      let test = spares_entry key in
      rw (nonempty, p, file_removals-erased id steps files)
        (every-append test (from_block accounts (account_removals id path keep))
          (from_block cache (token_removals id path keys))
          (from_block-every test accounts (account_removals id path keep)
            (account_removals-spares id path key keep))
          (from_block-every test cache (token_removals id path keys)
            (λ ds. token_removals-spares id path key keys ds held)))

  -- Where local.vdf has that block with a block ConnectCache and the keep list is not empty, the
  -- file removals of its target give way to steps that remove neither the file nor the login
  -- token of an account that is kept and has a login name.
  pub rewrite_local_vdf-spares_token :
      (steps : List PlanStep) {steam : Node} {cache : Children} (i : ℕ) {acc : AccountInfo}
      → every (is_file_removal id) steps ≡ true
      → is_empty keep ≡ false
      → steam_block (m.load ctx.local_vdf_path) ≡ some steam
      → block (find steam (codes "ConnectCache")) ≡ some cache
      → get_elem? ctx.accounts i ≡ some acc
      → is_empty acc.account_name ≡ false
      → preserves keep acc.steamid64 ≡ true
      → every
          (spares_entry (connect_cache_key m.towlower acc.account_name))
          (rewrite_local_vdf id m ctx (some keep) steps)
        ≡ true
  unfolding rewrite_local_vdf preserved_connect_cache_keys
  rewrite_local_vdf-spares_token steps {steam} {cache} i {acc} files nonempty p q e n k =
      let key = connect_cache_key m.towlower acc.account_name in
      let keys = preserved_keys_of m.towlower ctx.accounts keep in
      rw (nonempty, p, q, file_removals-erased id steps files)
        (token_removals-spares id ctx.local_vdf_path key keys cache
          (preserved_keys_of-contains m.towlower keep ctx.accounts i acc e n k))
