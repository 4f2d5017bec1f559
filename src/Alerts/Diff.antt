-- ===== src/Alerts/Diff.antt =====
-- core/account_store/ban_diff.cpp: the alerts between the last snapshot of an account and its new
-- state. The counter behind the event ids is an argument and a result.
use steam_account_manager.Common.{
  ℕ, zero, suc, ◌+◌, ◌-◌, ◌/◌, ◌%◌, ◌^◌, List, [], ◌∷◌, ◌++◌, Bool, false, not, ◌&&◌, ◌||◌, ltb,
  ◌==◌, if◌then◌else◌, text_eq,
}
use steam_account_manager.Common.Int.{ℤ, pos, negsuc, ltb_ℤ}
use steam_account_manager.Codec.Base64.{codes}
use steam_account_manager.Alerts.{BanEvent, BanEventKind}

-- The fields of `BanStatus` and `CS2Status` that are compared.
pub record BanStatus : Type 0 where
  pub community_banned : Bool
  pub vac_ban_count : ℤ
  pub game_ban_count : ℤ
  pub economy_ban : List ℕ

pub record Cs2Status : Type 0 where
  pub vac_live : Bool
  pub cooldown_expires_unix : ℤ

pub record PreviousSnapshot : Type 0 where
  pub vac_ban_count : ℤ
  pub game_ban_count : ℤ
  pub community_banned : Bool
  pub economy_ban : List ℕ
  pub vac_live : Bool
  pub cooldown_expires_unix : ℤ
  pub snapshot_unix : ℤ

unfoldable pub is_economy_banned : List ℕ → Bool
is_economy_banned e = text_eq e (codes "banned") || text_eq e (codes "probation")

-- `%0<width>llx`, for a number of at most `fuel` digits.
unfoldable pub hex_padded : ℕ → ℕ → ℕ → List ℕ → List ℕ
hex_padded zero width n out = out
hex_padded (suc fuel) width n out =
    let d = n % 16 in
    let rest =
      hex_padded fuel (width - 1) (n / 16) ((if ltb d 10 then b'0' + d else 87 + d) ∷ out) in
    if width == 0 && n == 0 then out else rest

-- The conversion of a signed 64-bit number to an unsigned one.
unfoldable pub unsigned64 : ℤ → ℕ
unsigned64 (pos n) = n % 2 ^ 64
unsigned64 (negsuc n) = 2 ^ 64 - 1 - n % 2 ^ 64

unfoldable pub make_event_id : ℕ → ℤ → List ℕ
make_event_id n now = codes "evt-" ++ hex_padded 16 16 (unsigned64 now) [] ++ hex_padded 16 8 n []

-- One `push_back` of `diff_account_state`: the kind and the values.
pub record Change : Type 0 where
  pub kind : BanEventKind
  pub before : ℤ
  pub after : ℤ

abbrev pub change : BanEventKind → ℤ → ℤ → List Change
change kind before after = record { kind = kind; before = before; after = after } ∷ []

unfoldable pub make_event : List ℕ → ℤ → ℕ → Change → BanEvent
make_event account_id now n c = record {
  event_id = make_event_id n now;
  account_id = account_id;
  kind = c.kind;
  detected_unix = now;
  ack_unix = pos 0;
  before = c.before;
  after = c.after;
}

unfoldable pub count_change : BanEventKind → ℤ → ℤ → List Change
count_change kind before after =
    if ltb_ℤ before after
    then change kind before after
    else if ltb_ℤ after before
    then change BanEventKind.ban_removed before after
    else []

unfoldable pub flag_change : BanEventKind → Bool → Bool → List Change
flag_change kind before after =
    if after && not before
    then change kind (pos 0) (pos 1)
    else if not after && before
    then change BanEventKind.ban_removed (pos 1) (pos 0)
    else []

unfoldable pub live_change : PreviousSnapshot → BanStatus → Cs2Status → List Change
live_change prev new_bans new_cs2 =
    if new_cs2.vac_live
      && not prev.vac_live
      && not (ltb_ℤ prev.vac_ban_count new_bans.vac_ban_count)
    then change BanEventKind.new_vac_live (pos 0) (pos 1)
    else []

abbrev pub is_running : ℤ → ℤ → Bool
is_running expires now = ltb_ℤ (pos 0) expires && ltb_ℤ now expires

unfoldable pub cooldown_change : PreviousSnapshot → Cs2Status → ℤ → List Change
cooldown_change prev new_cs2 now =
    let prev_cd = is_running prev.cooldown_expires_unix prev.snapshot_unix in
    let now_cd = is_running new_cs2.cooldown_expires_unix now in
    if now_cd && not prev_cd
    then change BanEventKind.cooldown_started prev.cooldown_expires_unix
        new_cs2.cooldown_expires_unix
    else if not now_cd && prev_cd
    then change BanEventKind.cooldown_ended prev.cooldown_expires_unix new_cs2.cooldown_expires_unix
    else []

abbrev pub is_unobserved : ℤ → Bool
is_unobserved (pos n) = n == 0
is_unobserved _ = false

-- The changes in the order of the `push_back`s.
unfoldable pub changes : PreviousSnapshot → BanStatus → Cs2Status → ℤ → List Change
changes prev new_bans new_cs2 now =
    if is_unobserved prev.snapshot_unix
    then []
    else count_change BanEventKind.new_vac_ban prev.vac_ban_count new_bans.vac_ban_count
      ++ count_change BanEventKind.new_game_ban prev.game_ban_count new_bans.game_ban_count
      ++ flag_change BanEventKind.new_community_ban prev.community_banned new_bans.community_banned
      ++ flag_change BanEventKind.new_trade_ban (is_economy_banned prev.economy_ban)
          (is_economy_banned new_bans.economy_ban)
      ++ live_change prev new_bans new_cs2
      ++ cooldown_change prev new_cs2 now

-- The events, and the counter afterwards.
unfoldable pub number_events : List ℕ → ℤ → ℕ → List Change → List BanEvent × ℕ
number_events account_id now n [] = ([], n)
number_events account_id now n (c ∷ cs) =
    let (es, n') = number_events account_id now ((n + 1) % 2 ^ 64) cs in
    (make_event account_id now n c ∷ es, n')

unfoldable pub diff_account_state :
    ℕ → List ℕ → PreviousSnapshot → BanStatus → Cs2Status → ℤ → List BanEvent × ℕ
diff_account_state counter account_id prev new_bans new_cs2 now =
    number_events account_id now counter (changes prev new_bans new_cs2 now)

unfoldable pub snapshot_from : BanStatus → Cs2Status → PreviousSnapshot
snapshot_from bans cs2 = record {
  vac_ban_count = bans.vac_ban_count;
  game_ban_count = bans.game_ban_count;
  community_banned = bans.community_banned;
  economy_ban = bans.economy_ban;
  vac_live = cs2.vac_live;
  cooldown_expires_unix = cs2.cooldown_expires_unix;
  snapshot_unix = pos 0;
}
