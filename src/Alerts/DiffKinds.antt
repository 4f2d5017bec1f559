-- ===== src/Alerts/DiffKinds.antt =====
-- core/account_store/ban_diff.cpp: which kinds of alert are reported.
use steam_account_manager.Common.{
  ℕ, List, [], ◌∷◌, ◌++◌, Bool, true, false, not, ◌&&◌, ◌||◌, ◌==◌, ◌≡◌, refl, arith, Bool-cases,
  inl, inr,
}
use steam_account_manager.Common.Int.{ℤ, ltb_ℤ}
use steam_account_manager.Alerts.{BanEventKind}
use steam_account_manager.Alerts.Diff.{
  BanStatus, Cs2Status, PreviousSnapshot, Change, changes, count_change, flag_change, live_change,
  cooldown_change, is_running, is_unobserved, is_economy_banned,
}

-- The underlying value of the `enum class`.
abbrev pub kind_number : BanEventKind → ℕ
kind_number BanEventKind.new_vac_ban = 0
kind_number BanEventKind.new_game_ban = 1
kind_number BanEventKind.new_community_ban = 2
kind_number BanEventKind.new_trade_ban = 3
kind_number BanEventKind.new_vac_live = 4
kind_number BanEventKind.ban_removed = 5
kind_number BanEventKind.cooldown_started = 6
kind_number BanEventKind.cooldown_ended = 7

unfoldable pub has_kind : BanEventKind → List Change → Bool
has_kind kind [] = false
has_kind kind (c ∷ cs) = kind_number c.kind == kind_number kind || has_kind kind cs

has_kind-append :
    (kind : BanEventKind) (xs ys : List Change)
    → has_kind kind (xs ++ ys) ≡ (has_kind kind xs || has_kind kind ys)
unfolding has_kind
has_kind-append kind [] ys = refl
has_kind-append kind (x ∷ xs) ys = ground (arith, has_kind-append kind xs ys)

-- When each kind of alert is due.
unfoldable pub is_due : PreviousSnapshot → BanStatus → Cs2Status → ℤ → BanEventKind → Bool
is_due prev bans cs2 now BanEventKind.new_vac_ban = ltb_ℤ prev.vac_ban_count bans.vac_ban_count
is_due prev bans cs2 now BanEventKind.new_game_ban = ltb_ℤ prev.game_ban_count bans.game_ban_count
is_due prev bans cs2 now BanEventKind.new_community_ban =
    bans.community_banned && not prev.community_banned
is_due prev bans cs2 now BanEventKind.new_trade_ban =
    is_economy_banned bans.economy_ban && not (is_economy_banned prev.economy_ban)
is_due prev bans cs2 now BanEventKind.new_vac_live =
    cs2.vac_live && not prev.vac_live && not (ltb_ℤ prev.vac_ban_count bans.vac_ban_count)
is_due prev bans cs2 now BanEventKind.ban_removed =
    ltb_ℤ bans.vac_ban_count prev.vac_ban_count
    || ltb_ℤ bans.game_ban_count prev.game_ban_count
    || (prev.community_banned && not bans.community_banned)
    || (is_economy_banned prev.economy_ban && not (is_economy_banned bans.economy_ban))
is_due prev bans cs2 now BanEventKind.cooldown_started =
    is_running cs2.cooldown_expires_unix now
    && not (is_running prev.cooldown_expires_unix prev.snapshot_unix)
is_due prev bans cs2 now BanEventKind.cooldown_ended =
    is_running prev.cooldown_expires_unix prev.snapshot_unix
    && not (is_running cs2.cooldown_expires_unix now)

ltb_ℤ_asymm : (a b : ℤ) → ltb_ℤ a b ≡ true → ltb_ℤ b a ≡ false
ltb_ℤ_asymm a b h = ground arith

-- What a list that reports `kind` where `due` and a removal where `gone` has of a kind.
abbrev pub reported : BanEventKind → Bool → Bool → BanEventKind → Bool
reported kind due gone k =
    (due && kind_number kind == kind_number k) || (gone && 5 == kind_number k)

module _ (k : BanEventKind) where
  count_change-has_kind :
      (kind : BanEventKind) (a b : ℤ)
      → has_kind k (count_change kind a b) ≡ reported kind (ltb_ℤ a b) (ltb_ℤ b a) k
  unfolding count_change has_kind
  count_change-has_kind kind a b = ground (arith, ltb_ℤ_asymm a b)

  flag_change-has_kind :
      (kind : BanEventKind) (a b : Bool)
      → has_kind k (flag_change kind a b) ≡ reported kind (b && not a) (a && not b) k
  unfolding flag_change has_kind
  flag_change-has_kind kind true true = refl
  flag_change-has_kind kind true false = ground arith
  flag_change-has_kind kind false true = ground arith
  flag_change-has_kind kind false false = refl

  live_change-has_kind :
      (prev : PreviousSnapshot) (bans : BanStatus) (cs2 : Cs2Status)
      → has_kind k (live_change prev bans cs2) ≡ (
          cs2.vac_live
          && not prev.vac_live
          && not (ltb_ℤ prev.vac_ban_count bans.vac_ban_count)
          && 4 == kind_number k)
  unfolding live_change has_kind
  live_change-has_kind prev bans cs2 = ground arith

  cooldown_change-has_kind :
      (prev : PreviousSnapshot) (cs2 : Cs2Status) (now : ℤ)
      → let was = is_running prev.cooldown_expires_unix prev.snapshot_unix in
        let runs = is_running cs2.cooldown_expires_unix now in
        has_kind k (cooldown_change prev cs2 now)
        ≡ ((runs && not was && 6 == kind_number k) || (was && not runs && 7 == kind_number k))
  unfolding cooldown_change has_kind
  cooldown_change-has_kind prev cs2 now = ground arith

abbrev of_kind : Bool → Bool → Bool → Bool → Bool → Bool → Bool → Bool → BanEventKind → Bool
of_kind vac game community trade live gone started ended BanEventKind.new_vac_ban = vac
of_kind vac game community trade live gone started ended BanEventKind.new_game_ban = game
of_kind vac game community trade live gone started ended BanEventKind.new_community_ban = community
of_kind vac game community trade live gone started ended BanEventKind.new_trade_ban = trade
of_kind vac game community trade live gone started ended BanEventKind.new_vac_live = live
of_kind vac game community trade live gone started ended BanEventKind.ban_removed = gone
of_kind vac game community trade live gone started ended BanEventKind.cooldown_started = started
of_kind vac game community trade live gone started ended BanEventKind.cooldown_ended = ended

and_false : (b : Bool) → (b && false) ≡ false
and_false true = refl
and_false false = refl

and_true : (b : Bool) → (b && true) ≡ b
and_true true = refl
and_true false = refl

or_false : (b : Bool) → (b || false) ≡ b
or_false true = refl
or_false false = refl

ruleset selection = (and_false, and_true, or_false)

reported_all :
    (a a' b b' c c' d d' l f g : Bool) (k : BanEventKind)
    → (reported BanEventKind.new_vac_ban a a' k
        || reported BanEventKind.new_game_ban b b' k
        || reported BanEventKind.new_community_ban c c' k
        || reported BanEventKind.new_trade_ban d d' k
        || (l && 4 == kind_number k)
        || ((f && 6 == kind_number k) || (g && 7 == kind_number k)))
      ≡ of_kind a b c d l (a' || b' || c' || d') f g k
reported_all a a' b b' c c' d d' l f g BanEventKind.new_vac_ban = simp selection
reported_all a a' b b' c c' d d' l f g BanEventKind.new_game_ban = simp selection
reported_all a a' b b' c c' d d' l f g BanEventKind.new_community_ban = simp selection
reported_all a a' b b' c c' d d' l f g BanEventKind.new_trade_ban = simp selection
reported_all a a' b b' c c' d d' l f g BanEventKind.new_vac_live = simp selection
reported_all a a' b b' c c' d d' l f g BanEventKind.ban_removed = simp selection
reported_all a a' b b' c c' d d' l f g BanEventKind.cooldown_started = simp selection
reported_all a a' b b' c c' d d' l f g BanEventKind.cooldown_ended = simp selection

is_due-of_kind :
    (prev : PreviousSnapshot) (bans : BanStatus) (cs2 : Cs2Status) (now : ℤ) (kind : BanEventKind)
    → is_due prev bans cs2 now kind
      ≡ of_kind
          (ltb_ℤ prev.vac_ban_count bans.vac_ban_count)
          (ltb_ℤ prev.game_ban_count bans.game_ban_count)
          (bans.community_banned && not prev.community_banned)
          (is_economy_banned bans.economy_ban && not (is_economy_banned prev.economy_ban))
          (cs2.vac_live && not prev.vac_live && not (ltb_ℤ prev.vac_ban_count bans.vac_ban_count))
          (ltb_ℤ bans.vac_ban_count prev.vac_ban_count
            || ltb_ℤ bans.game_ban_count prev.game_ban_count
            || (prev.community_banned && not bans.community_banned)
            || (is_economy_banned prev.economy_ban && not (is_economy_banned bans.economy_ban)))
          (is_running cs2.cooldown_expires_unix now
            && not (is_running prev.cooldown_expires_unix prev.snapshot_unix))
          (is_running prev.cooldown_expires_unix prev.snapshot_unix
            && not (is_running cs2.cooldown_expires_unix now))
          kind
unfolding is_due
is_due-of_kind prev bans cs2 now BanEventKind.new_vac_ban = refl
is_due-of_kind prev bans cs2 now BanEventKind.new_game_ban = refl
is_due-of_kind prev bans cs2 now BanEventKind.new_community_ban = refl
is_due-of_kind prev bans cs2 now BanEventKind.new_trade_ban = refl
is_due-of_kind prev bans cs2 now BanEventKind.new_vac_live = refl
is_due-of_kind prev bans cs2 now BanEventKind.ban_removed = refl
is_due-of_kind prev bans cs2 now BanEventKind.cooldown_started = refl
is_due-of_kind prev bans cs2 now BanEventKind.cooldown_ended = refl

-- An account that was never observed has no changes; otherwise a kind is among them exactly if
-- it is due.
pub changes-has_kind :
    (prev : PreviousSnapshot) (bans : BanStatus) (cs2 : Cs2Status) (now : ℤ) (kind : BanEventKind)
    → has_kind kind (changes prev bans cs2 now)
      ≡ (not (is_unobserved prev.snapshot_unix) && is_due prev bans cs2 now kind)
unfolding changes
changes-has_kind prev bans cs2 now kind = elim (Bool-cases (is_unobserved prev.snapshot_unix)) [
  | inl u ↦ rw u (unfold has_kind in refl)
  | inr u ↦
      rw
        (
          u,
          has_kind-append kind,
          has_kind-append kind,
          has_kind-append kind,
          has_kind-append kind,
          has_kind-append kind,
          count_change-has_kind kind,
          count_change-has_kind kind,
          flag_change-has_kind kind,
          flag_change-has_kind kind,
          live_change-has_kind kind prev bans cs2,
          cooldown_change-has_kind kind prev cs2 now,
          is_due-of_kind prev bans cs2 now kind,
        )
        (reported_all (ltb_ℤ prev.vac_ban_count bans.vac_ban_count)
          (ltb_ℤ bans.vac_ban_count prev.vac_ban_count)
          (ltb_ℤ prev.game_ban_count bans.game_ban_count)
          (ltb_ℤ bans.game_ban_count prev.game_ban_count)
          (bans.community_banned && not prev.community_banned)
          (prev.community_banned && not bans.community_banned)
          (is_economy_banned bans.economy_ban && not (is_economy_banned prev.economy_ban))
          (is_economy_banned prev.economy_ban && not (is_economy_banned bans.economy_ban))
          (cs2.vac_live && not prev.vac_live && not (ltb_ℤ prev.vac_ban_count bans.vac_ban_count))
          (is_running cs2.cooldown_expires_unix now
            && not (is_running prev.cooldown_expires_unix prev.snapshot_unix))
          (is_running prev.cooldown_expires_unix prev.snapshot_unix
            && not (is_running cs2.cooldown_expires_unix now))
          kind)
]
