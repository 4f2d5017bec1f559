-- ===== src/Accounts/Filter.antt =====
-- core/account_store/filter.{hpp,cpp}: which accounts the list shows, and in which order.
use Prim.Native.Nat.{Ordering, lt, eq, gt}
use steam_account_manager.Common.{
  ℕ, ◌+◌, List, [], ◌∷◌, map, Bool, true, false, not, ◌&&◌, ◌||◌, ◌==◌, ltb, if◌then◌else◌, text_eq,
}
use steam_account_manager.Common.Int.{ℤ, pos, ltb_ℤ, eq_ℤ}
use steam_account_manager.Codec.Base64.{codes}
use steam_account_manager.Codec.Hex.{to_lower, to_lower_char}
use steam_account_manager.Accounts.{Account, TrustLabel, NfaTokenStatus}

pub data SortKey : Type 0 where
  persona_asc persona_desc login_asc last_login_desc created_desc premier_desc : SortKey
  steam_level_desc cs2_level_desc no_cooldown_first drop_unclaimed_first cs2_xp_desc : SortKey
  total_spend_desc cooldown_soonest : SortKey

pub record AccountFilter : Type 0 where
  pub query : List ℕ
  pub required_tag_ids : List (List ℕ)
  pub only_with_vac : Bool
  pub only_with_sda : Bool
  pub only_with_cooldown : Bool
  pub only_with_any_ban : Bool
  pub only_with_prime : Bool
  pub exclude_red : Bool
  pub trust_filter : TrustLabel
  pub sort : SortKey
  pub now_unix : ℤ

unfoldable pub wstr_to_utf8_lower : List ℕ → List ℕ
wstr_to_utf8_lower [] = []
wstr_to_utf8_lower (c ∷ cs) =
    let rest = wstr_to_utf8_lower cs in if ltb c 128 then to_lower_char c ∷ rest else rest

unfoldable pub begins : List ℕ → List ℕ → Bool
begins s [] = true
begins [] (c ∷ q) = false
begins (d ∷ s) (c ∷ q) = d == c && begins s q

-- `find(q) != npos`.
unfoldable pub occurs : List ℕ → List ℕ → Bool
occurs q [] = begins [] q
occurs q (c ∷ s) = begins (c ∷ s) q || occurs q s

unfoldable pub matches_query : Account → List ℕ → Bool
matches_query a [] = true
matches_query a (c ∷ cs) =
    let q = c ∷ cs in
    occurs q (to_lower a.login)
    || occurs q (to_lower a.web.persona_name)
    || occurs q (wstr_to_utf8_lower a.display_name)
    || occurs q (wstr_to_utf8_lower a.notes)

unfoldable pub has_tag : List (List ℕ) → List ℕ → Bool
has_tag [] need = false
has_tag (t ∷ ts) need = text_eq t need || has_tag ts need

unfoldable pub has_all_tags : Account → List (List ℕ) → Bool
has_all_tags a [] = true
has_all_tags a (need ∷ required) = has_tag a.tag_ids need && has_all_tags a required

unfoldable pub any_ban : Account → Bool
any_ban a =
    a.bans.vac_banned
    || a.bans.community_banned
    || ltb_ℤ (pos 0) a.bans.game_ban_count
    || (text_eq a.bans.economy_ban (codes "banned")
        || text_eq a.bans.economy_ban (codes "probation"))

abbrev pub trust_number : TrustLabel → ℕ
trust_number TrustLabel.unset = 0
trust_number TrustLabel.green = 1
trust_number TrustLabel.yellow = 2
trust_number TrustLabel.red = 3

abbrev pub is_revoked : Account → Bool
is_revoked a = elim a.nfa_status [ NfaTokenStatus.revoked ↦ true | _ ↦ false ]

unfoldable pub lacks_cooldown : Account → ℤ → Bool
lacks_cooldown a now =
    let c = a.cs2.cooldown_expires_unix in
    if eq_ℤ c (pos 0) then true else ltb_ℤ (pos 0) now && not (ltb_ℤ now c)

-- The early returns, in their order.
unfoldable pub passes : Account → AccountFilter → List ℕ → Bool
passes a f q_lower =
    if not (matches_query a q_lower)
    then false
    else if not (has_all_tags a f.required_tag_ids)
    then false
    else if f.only_with_vac && not a.bans.vac_banned
    then false
    else if f.only_with_any_ban && not (any_ban a)
    then false
    else if f.only_with_sda && not a.has_sda
    then false
    else if f.only_with_cooldown && lacks_cooldown a f.now_unix
    then false
    else if f.only_with_prime && not a.cs2.prime_status
    then false
    else if f.exclude_red && trust_number a.trust == 3
    then false
    else if not (trust_number f.trust_filter == 0)
        && not (trust_number a.trust == trust_number f.trust_filter)
    then false
    else true

-- `INT64_MAX` and `kCooldownNever`.
abbrev pub int64_max : ℤ
int64_max = pos 9223372036854775807

unfoldable pub has_active_cooldown : Account → ℤ → Bool
has_active_cooldown a now =
    let c = a.cs2.cooldown_expires_unix in
    if eq_ℤ c (pos 0)
    then false
    else if eq_ℤ c int64_max
    then true
    else not (ltb_ℤ (pos 0) now) || ltb_ℤ now c

unfoldable pub drop_claimed : Account → ℤ → Bool
drop_claimed a now =
    let r = a.cs2.weekly_drop_reset_unix in
    not (eq_ℤ r (pos 0)) && (not (ltb_ℤ (pos 0) now) || ltb_ℤ now r)

unfoldable pub cooldown_sort_key : Account → ℤ → ℤ
cooldown_sort_key a now =
    let c = a.cs2.cooldown_expires_unix in
    if eq_ℤ c (pos 0) || eq_ℤ c int64_max
    then int64_max
    else if ltb_ℤ (pos 0) now && not (ltb_ℤ now c)
    then int64_max
    else c

-- The sign of `std::string::compare`.
unfoldable pub compare_text : List ℕ → List ℕ → Ordering
compare_text [] [] = eq
compare_text [] (d ∷ t) = lt
compare_text (c ∷ s) [] = gt
compare_text (c ∷ s) (d ∷ t) =
    let rest = compare_text s t in if ltb c d then lt else if ltb d c then gt else rest

-- `if (x == y) return 0; return x > y ? -1 : 1;`
unfoldable pub greater_first : ℤ → ℤ → Ordering
greater_first x y = if eq_ℤ x y then eq else if ltb_ℤ y x then lt else gt

unfoldable pub less_first : ℤ → ℤ → Ordering
less_first x y = if eq_ℤ x y then eq else if ltb_ℤ x y then lt else gt

-- `if (x == y) return 0; return !x ? -1 : 1;`
unfoldable pub false_first : Bool → Bool → Ordering
false_first true true = eq
false_first true false = gt
false_first false true = lt
false_first false false = eq

-- The sign of the result.
unfoldable pub compare_for_sort : SortKey → ℤ → Account → Account → Ordering
compare_for_sort persona_asc now a b = compare_text a.web.persona_name b.web.persona_name
compare_for_sort persona_desc now a b = compare_text b.web.persona_name a.web.persona_name
compare_for_sort login_asc now a b = compare_text a.login b.login
compare_for_sort last_login_desc now a b = greater_first a.last_login_unix b.last_login_unix
compare_for_sort created_desc now a b = greater_first a.created_unix b.created_unix
compare_for_sort premier_desc now a b = greater_first a.cs2.premier_rating b.cs2.premier_rating
compare_for_sort steam_level_desc now a b = greater_first a.web.steam_level b.web.steam_level
compare_for_sort cs2_level_desc now a b =
    greater_first a.cs2.cs2_player_level b.cs2.cs2_player_level
compare_for_sort cs2_xp_desc now a b = greater_first a.cs2.cs2_player_xp b.cs2.cs2_player_xp
compare_for_sort no_cooldown_first now a b =
    false_first (has_active_cooldown a now) (has_active_cooldown b now)
compare_for_sort drop_unclaimed_first now a b =
    false_first (drop_claimed a now) (drop_claimed b now)
compare_for_sort total_spend_desc now a b =
    greater_first a.total_spend_usd_cents b.total_spend_usd_cents
compare_for_sort cooldown_soonest now a b =
    less_first (cooldown_sort_key a now) (cooldown_sort_key b now)

abbrev pub is_lt : Ordering → Bool
is_lt lt = true
is_lt _ = false

abbrev pub differ : Bool → Bool → Bool
differ true b = not b
differ false b = b

-- The comparison that is passed to `std::stable_sort`.
unfoldable pub comes_first : AccountFilter → Account → Account → Bool
comes_first f a b =
    if differ (is_revoked a) (is_revoked b)
    then is_revoked a
    else is_lt (compare_for_sort f.sort f.now_unix a b)

-- An index with the account it stands for.
pub record Entry : Type 0 where
  pub index : ℕ
  pub account : Account

unfoldable pub passing_from : ℕ → List Account → AccountFilter → List ℕ → List Entry
passing_from i [] f q_lower = []
passing_from i (a ∷ as') f q_lower =
    let rest = passing_from (i + 1) as' f q_lower in
    if passes a f q_lower then record { index = i; account = a } ∷ rest else rest

-- `std::stable_sort`, by insertion.
unfoldable pub insert {ℓ} : {A : Type ℓ} → (A → A → Bool) → A → List A → List A
insert less x [] = x ∷ []
insert less x (y ∷ ys) = let rest = insert less x ys in if less y x then y ∷ rest else x ∷ y ∷ ys

unfoldable pub stable_sort {ℓ} : {A : Type ℓ} → (A → A → Bool) → List A → List A
stable_sort less [] = []
stable_sort less (x ∷ xs) = insert less x (stable_sort less xs)

unfoldable pub passing : List Account → AccountFilter → List Entry
passing accounts f = passing_from 0 accounts f (to_lower f.query)

unfoldable pub shown : List Account → AccountFilter → List Entry
shown accounts f = stable_sort (λ x y. comes_first f x.account y.account) (passing accounts f)

unfoldable pub apply_filter : List Account → AccountFilter → List ℕ
apply_filter accounts f = map (λ e. e.index) (shown accounts f)
