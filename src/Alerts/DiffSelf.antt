-- ===== src/Alerts/DiffSelf.antt =====
-- core/account_store/ban_diff.cpp: what a fresh snapshot leaves to report.
use steam_account_manager.Common.{[], Bool, true, false, not, ◌&&◌, if◌then◌else◌, ◌≡◌, refl, arith}
use steam_account_manager.Common.Int.{ℤ, pos, negsuc, ltb_ℤ, ◌≤ℤ◌}
use steam_account_manager.Alerts.{BanEventKind}
use steam_account_manager.Alerts.Diff.{
  BanStatus, Cs2Status, PreviousSnapshot, changes, count_change, flag_change, live_change,
  cooldown_change, is_running, is_unobserved, is_economy_banned, snapshot_from, change,
}

count_change_self : (kind : BanEventKind) (n : ℤ) → count_change kind n n ≡ []
unfolding count_change
count_change_self kind n = rw (ltb_ℤ_irrefl n)
  where
    ltb_ℤ_irrefl : (n : ℤ) → ltb_ℤ n n ≡ false
    ltb_ℤ_irrefl (pos n) = ground arith
    ltb_ℤ_irrefl (negsuc n) = ground arith

flag_change_self : (kind : BanEventKind) (b : Bool) → flag_change kind b b ≡ []
unfolding flag_change
flag_change_self kind true = refl
flag_change_self kind false = refl

live_change_self :
    (bans : BanStatus) (cs2 : Cs2Status) (s : PreviousSnapshot)
    → s.vac_live ≡ cs2.vac_live
    → live_change s bans cs2 ≡ []
unfolding live_change
live_change_self bans cs2 s h = rw h (ground arith)

running_before :
    (e now later : ℤ) → now ≤ℤ later → is_running e later ≡ true → is_running e now ≡ true
running_before e now later h = ground arith

-- A fresh snapshot of the state itself leaves nothing to report at a time that is not earlier,
-- except that a cooldown that ran at the snapshot has ended.
pub changes-snapshot_from :
    (bans : BanStatus) (cs2 : Cs2Status) (now later : ℤ)
    → now ≤ℤ later
    → changes (record (snapshot_from bans cs2) { snapshot_unix = now }) bans cs2 later ≡ (
        if not (is_unobserved now)
          && is_running cs2.cooldown_expires_unix now
          && not (is_running cs2.cooldown_expires_unix later)
        then change BanEventKind.cooldown_ended cs2.cooldown_expires_unix cs2.cooldown_expires_unix
        else [])
unfolding changes snapshot_from cooldown_change
changes-snapshot_from bans cs2 now later h =
    let s : PreviousSnapshot = record (snapshot_from bans cs2) { snapshot_unix = now } in
    rw
      (
        count_change_self BanEventKind.new_vac_ban bans.vac_ban_count,
        count_change_self BanEventKind.new_game_ban bans.game_ban_count,
        flag_change_self BanEventKind.new_community_ban bans.community_banned,
        flag_change_self BanEventKind.new_trade_ban (is_economy_banned bans.economy_ban),
        live_change_self bans cs2 s refl,
      )
      (ground (arith, running_before cs2.cooldown_expires_unix now later h))
