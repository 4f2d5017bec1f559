-- ===== src/Cleaner/SparedLogins.antt =====
-- core/cleaner/plan.cpp, `rewrite_loginusers`: which entries of loginusers.vdf a plan removes.
use steam_account_manager.Common.{
  ℕ, List, [], ◌∷◌, Bool, true, false, not, ◌&&◌, some, if◌then◌else◌, text_eq, text_eq_iff, ◌≡◌,
  refl, ap, arith, Bool-cases, inl, inr,
}
use steam_account_manager.Common.Every.{every}
use steam_account_manager.Cleaner.{
  OpKind, PreserveList, contains, preserves, is_empty, AccountInfo, PlanStep, ResolveContext,
  is_remove_file,
}
use steam_account_manager.Cleaner.Rewrites.{
  is_file_removal, loginusers_removals, loginusers_path, rewrite_loginusers,
}
use steam_account_manager.Cleaner.SparedTokens.{file_removals-erased}

abbrev pub is_vdf_removal : OpKind → Bool
is_vdf_removal OpKind.vdf_remove_child = true
is_vdf_removal _ = false

-- The paths that the VdfRemoveChild steps name.
unfoldable pub removed_entries : List PlanStep → List (List ℕ)
removed_entries [] = []
removed_entries (s ∷ ss) =
    let rest = removed_entries ss in
    if is_vdf_removal s.op.kind then s.op.value_name ∷ rest else rest

unfoldable pub steamids : List AccountInfo → List (List ℕ)
steamids [] = []
steamids (acc ∷ accs) = acc.steamid64 ∷ steamids accs

loginusers_removals-entries :
    (id path : List ℕ) (keep : PreserveList) (accs : List AccountInfo) (sid : List ℕ)
    → contains (removed_entries (loginusers_removals id path keep accs)) sid
      ≡ (contains (steamids accs) sid && not (preserves keep sid))
unfolding loginusers_removals removed_entries contains steamids
loginusers_removals-entries id path keep [] sid = refl
loginusers_removals-entries id path keep (acc ∷ accs) sid =
    elim (Bool-cases (text_eq acc.steamid64 sid)) [
      | inl e ↦
          let same : preserves keep acc.steamid64 ≡ preserves keep sid =
            ap (preserves keep) ((text_eq_iff acc.steamid64 sid).0 e) in
          ground (arith, e, same, loginusers_removals-entries id path keep accs sid)
      | inr e ↦ ground (arith, e, loginusers_removals-entries id path keep accs sid)
    ]

loginusers_removals-keeps_file :
    (id path : List ℕ) (keep : PreserveList) (accs : List AccountInfo)
    → every (λ s. not (is_remove_file s.op.kind)) (loginusers_removals id path keep accs) ≡ true
unfolding loginusers_removals every
loginusers_removals-keeps_file id path keep [] = refl
loginusers_removals-keeps_file id path keep (acc ∷ accs) =
    ground (arith, loginusers_removals-keeps_file id path keep accs)

-- With a keep list that is not empty, rewrite_loginusers turns the file removals of its target
-- into steps that do not remove loginusers.vdf and that remove the entry of an account exactly
-- if it is on this PC and not on the list.
pub rewrite_loginusers-entries :
    (id : List ℕ) (ctx : ResolveContext) (keep : PreserveList) (steps : List PlanStep)
    (sid : List ℕ)
    → every (is_file_removal id) steps ≡ true
    → is_empty keep ≡ false
    → (every (λ s. not (is_remove_file s.op.kind)) (rewrite_loginusers id ctx (some keep) steps)
        ≡ true)
      × (contains (removed_entries (rewrite_loginusers id ctx (some keep) steps)) sid
          ≡ (contains (steamids ctx.accounts) sid && not (preserves keep sid)))
unfolding rewrite_loginusers
rewrite_loginusers-entries id ctx keep steps sid files nonempty =
    rw (nonempty, file_removals-erased id steps files)
      (
        loginusers_removals-keeps_file id (loginusers_path ctx) keep ctx.accounts,
        loginusers_removals-entries id (loginusers_path ctx) keep ctx.accounts sid,
      )
