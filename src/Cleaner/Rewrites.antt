-- ===== src/Cleaner/Rewrites.antt =====
-- core/cleaner/plan.cpp: the `rewrite_*` functions, which adapt the steps of a target to the keep
-- list, and `pick_autologin_redirect`. A vector that is appended to is returned.
use steam_account_manager.Common.{
  ℕ, List, [], ◌∷◌, ◌++◌, Bool, false, not, ◌&&◌, ◌||◌, Option, none, some, if◌then◌else◌, text_eq,
}
use steam_account_manager.Codec.Base64.{codes}
use steam_account_manager.VdfTree.{object, leaf, Children, nil, entry, find}
use steam_account_manager.Cleaner.{
  OpKind, Operation, PreserveList, preserves, is_empty, AccountInfo, PlanStep, ResolveContext,
  Machine, erase_if, is_remove_file, is_remove_registry_value, path_join,
}

-- `Operation op;` and the fields that are then set.
abbrev pub operation : OpKind → List ℕ → List ℕ → List ℕ → List ℕ → Operation
operation kind target value_name payload account = record {
  kind = kind;
  target = target;
  value_name = value_name;
  account_steamid64 = account;
  size_bytes = 0;
  payload = payload;
}

abbrev pub plan_step : List ℕ → Operation → PlanStep
plan_step id op = record { target_id = id; op = op }

abbrev pub is_file_removal : List ℕ → PlanStep → Bool
is_file_removal id s = text_eq s.target_id id && is_remove_file s.op.kind

abbrev pub loginusers_path : ResolveContext → List ℕ
loginusers_path ctx = path_join ctx.config_dir (codes "loginusers.vdf")

unfoldable pub loginusers_removals :
    List ℕ → List ℕ → PreserveList → List AccountInfo → List PlanStep
loginusers_removals id vdf_path keep [] = []
loginusers_removals id vdf_path keep (acc ∷ accs) =
    let rest = loginusers_removals id vdf_path keep accs in
    if preserves keep acc.steamid64
    then rest
    else plan_step id (operation OpKind.vdf_remove_child vdf_path acc.steamid64 [] acc.steamid64)
      ∷ rest

unfoldable pub rewrite_loginusers :
    List ℕ → ResolveContext → Option PreserveList → List PlanStep → List PlanStep
rewrite_loginusers id ctx none steps = steps
rewrite_loginusers id ctx (some keep) steps =
    if is_empty keep
    then steps
    else erase_if (is_file_removal id) steps
      ++ loginusers_removals id (loginusers_path ctx) keep ctx.accounts

unfoldable pub is_autologin_delete : List ℕ → PlanStep → Bool
is_autologin_delete id s =
    if not (text_eq s.target_id id) || not (is_remove_registry_value s.op.kind)
    then false
    else text_eq s.op.value_name (codes "AutoLoginUser")
      || text_eq s.op.value_name (codes "RememberPassword")
      || text_eq s.op.value_name (codes "LastGameNameUsed")

unfoldable pub strip_autologin_coupled_deletes : List ℕ → List PlanStep → List PlanStep
strip_autologin_coupled_deletes id steps = erase_if (is_autologin_delete id) steps

-- The step that `push_vdf_set` appends.
abbrev pub vdf_set : List ℕ → List ℕ → List ℕ → List ℕ → List ℕ → PlanStep
vdf_set id vdf_path subkey_path value account =
    plan_step id (operation OpKind.vdf_set_value vdf_path subkey_path value account)

pub record AutoLoginRedirect : Type 0 where
  pub account_name : List ℕ
  pub steamid64 : List ℕ

abbrev pub redirect_to : AccountInfo → AutoLoginRedirect
redirect_to acc = record { account_name = acc.account_name; steamid64 = acc.steamid64 }

-- The loop of `pick_autologin_redirect`, with `fallback` so far.
unfoldable pub pick_from :
    PreserveList → Option AccountInfo → List AccountInfo → Option AutoLoginRedirect
pick_from keep none [] = none
pick_from keep (some acc) [] = some (redirect_to acc)
pick_from keep fallback (acc ∷ accs) =
    let skipped = pick_from keep fallback accs in
    if is_empty acc.account_name
    then skipped
    else if not (preserves keep acc.steamid64)
    then skipped
    else if acc.most_recent
    then some (redirect_to acc)
    else pick_from keep (elim fallback [ none ↦ some acc | some f ↦ some f ]) accs

unfoldable pub pick_autologin_redirect : List AccountInfo → PreserveList → Option AutoLoginRedirect
pick_autologin_redirect accounts keep = pick_from keep none accounts

-- The loop of `resolve_auto_login` (steam_scan.cpp) over the entries of loginusers.vdf.
unfoldable pub account_of_login : List ℕ → Children → List ℕ
account_of_login name nil = []
account_of_login name (entry steamid64 child cs) = elim (find child (codes "AccountName")) [
  | some (leaf v) ↦ if text_eq v name then steamid64 else account_of_login name cs
  | some (object ds) ↦ account_of_login name cs
  | none ↦ account_of_login name cs
]

unfoldable pub resolve_auto_login : Machine → ResolveContext → List ℕ → List ℕ
resolve_auto_login m ctx [] = []
resolve_auto_login m ctx (c ∷ cs) = elim (m.load (loginusers_path ctx)) [
  | none ↦ []
  | some doc ↦ elim doc.root [ object entries ↦ account_of_login (c ∷ cs) entries | leaf v ↦ [] ]
]

-- The last loop of `rewrite_autologin`: the other preserved accounts are no longer most recent.
unfoldable pub demotions :
    List ℕ → List ℕ → PreserveList → List ℕ → List AccountInfo → List PlanStep
demotions id vdf_path keep winner [] = []
demotions id vdf_path keep winner (acc ∷ accs) =
    let rest = demotions id vdf_path keep winner accs in
    if text_eq acc.steamid64 winner
    then rest
    else if not (preserves keep acc.steamid64)
    then rest
    else vdf_set id vdf_path (acc.steamid64 ++ codes "\\mostrecent") (codes "0") acc.steamid64
      ∷ vdf_set id vdf_path (acc.steamid64 ++ codes "\\MostRecent") (codes "0") acc.steamid64
      ∷ rest

-- The steps that make the picked account the one that Steam logs in.
unfoldable pub promotion :
    List ℕ → Machine → ResolveContext → PreserveList → AutoLoginRedirect → List PlanStep
promotion id m ctx keep redirect =
    let sid = redirect.steamid64 in
    let vdf_path = loginusers_path ctx in
    plan_step id (
      operation OpKind.write_registry_string (codes "HKCU\\Software\\Valve\\Steam")
        (codes "AutoLoginUser") redirect.account_name sid)
    ∷ vdf_set id vdf_path (sid ++ codes "\\mostrecent") (codes "1") sid
    ∷ vdf_set id vdf_path (sid ++ codes "\\MostRecent") (codes "1") sid
    ∷ vdf_set id vdf_path (sid ++ codes "\\Timestamp") m.now_digits sid
    ∷ demotions id vdf_path keep sid ctx.accounts

-- The body of `rewrite_autologin` once AutoLoginUser was read as `current`, not empty.
unfoldable pub redirect_autologin :
    List ℕ → Machine → ResolveContext → PreserveList → List ℕ → List PlanStep → List PlanStep
redirect_autologin id m ctx keep current steps =
    let sid = resolve_auto_login m ctx current in
    let stripped = strip_autologin_coupled_deletes id steps in
    if not (is_empty sid) && preserves keep sid
    then stripped
    else elim (pick_autologin_redirect ctx.accounts keep) [
      | none ↦ stripped
      | some redirect ↦ stripped ++ promotion id m ctx keep redirect
    ]

unfoldable pub rewrite_autologin :
    List ℕ → Machine → ResolveContext → Option PreserveList → List PlanStep → List PlanStep
rewrite_autologin id m ctx none steps = steps
rewrite_autologin id m ctx (some keep) steps =
    if is_empty keep then steps else elim m.auto_login_user [
      | none ↦ steps
      | some current ↦
          if is_empty current then steps else redirect_autologin id m ctx keep current steps
    ]

abbrev pub is_of_target : List ℕ → PlanStep → Bool
is_of_target id s = text_eq s.target_id id

unfoldable pub rewrite_remote_clients : List ℕ → Option PreserveList → List PlanStep → List PlanStep
rewrite_remote_clients id none steps = steps
rewrite_remote_clients id (some keep) steps =
    if is_empty keep then steps else erase_if (is_of_target id) steps
