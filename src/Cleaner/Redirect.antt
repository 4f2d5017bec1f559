-- ===== src/Cleaner/Redirect.antt =====
-- core/cleaner/plan.cpp, `pick_autologin_redirect`: which account takes over the automatic login.
use steam_account_manager.Common.{
  List, [], ◌∷◌, not, ◌&&◌, Option, none, some, if◌then◌else◌, ◌≡◌, refl, arith,
}
use steam_account_manager.Cleaner.{PreserveList, preserves, is_empty, AccountInfo}
use steam_account_manager.Cleaner.Rewrites.{
  AutoLoginRedirect, redirect_to, pick_from, pick_autologin_redirect,
}

-- The accounts to keep that have a login name.
unfoldable pub candidates : PreserveList → List AccountInfo → List AccountInfo
candidates keep [] = []
candidates keep (acc ∷ accs) =
    let rest = candidates keep accs in
    if not (is_empty acc.account_name) && preserves keep acc.steamid64 then acc ∷ rest else rest

unfoldable pub first : List AccountInfo → Option AccountInfo
first [] = none
first (acc ∷ accs) = some acc

unfoldable pub first_most_recent : List AccountInfo → Option AccountInfo
first_most_recent [] = none
first_most_recent (acc ∷ accs) =
    let rest = first_most_recent accs in if acc.most_recent then some acc else rest

unfoldable pub or_else : Option AccountInfo → Option AccountInfo → Option AccountInfo
or_else none b = b
or_else (some a) b = some a

unfoldable pub redirect : Option AccountInfo → Option AutoLoginRedirect
redirect none = none
redirect (some acc) = some (redirect_to acc)

pick_from_lem :
    (keep : PreserveList) (fallback : Option AccountInfo) (accs : List AccountInfo)
    → pick_from keep fallback accs
      ≡ redirect (
          or_else
            (first_most_recent (candidates keep accs))
            (or_else fallback (first (candidates keep accs))))
unfolding pick_from candidates first first_most_recent or_else redirect
pick_from_lem keep none [] = refl
pick_from_lem keep (some f) [] = refl
pick_from_lem keep none (acc ∷ accs) =
    ground (arith, pick_from_lem keep none accs, pick_from_lem keep (some acc) accs)
pick_from_lem keep (some f) (acc ∷ accs) = ground (arith, pick_from_lem keep (some f) accs)

-- Among the accounts to keep that have a login name, pick_autologin_redirect takes the first
-- that is marked most recent, else the first; it gives nothing only if there is none.
pub pick_autologin_redirect_lem :
    (accounts : List AccountInfo) (keep : PreserveList)
    → pick_autologin_redirect accounts keep
      ≡ redirect (
          or_else (first_most_recent (candidates keep accounts)) (first (candidates keep accounts)))
unfolding pick_autologin_redirect or_else
pick_autologin_redirect_lem accounts keep = pick_from_lem keep none accounts
