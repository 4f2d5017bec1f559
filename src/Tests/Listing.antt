-- ===== src/Tests/Listing.antt =====
-- Runs of core/account_store/filter.cpp.
use steam_account_manager.Common.{ℕ, List, [], ◌∷◌, ◌≡◌, refl, false}
use steam_account_manager.Common.Int.{pos}
use steam_account_manager.Codec.Base64.{codes}
use steam_account_manager.Codec.Hex.{to_lower, to_lower_char}
use steam_account_manager.Accounts.{Account, TrustLabel, NfaTokenStatus}
use steam_account_manager.Accounts.Filter.{
  AccountFilter, SortKey, apply_filter, comes_first, shown, passing, stable_sort, insert,
  passing_from, passes, matches_query, has_all_tags, any_ban, compare_for_sort, compare_text,
  occurs, begins, wstr_to_utf8_lower,
}
use steam_account_manager.Accounts.Order.{IsWeakOrder, comes_first-IsWeakOrder}

abbrev account : List ℕ → NfaTokenStatus → Account
account login status = record {
  login = login;
  has_sda = false;
  nfa_status = status;
  display_name = [];
  notes = [];
  tag_ids = [];
  trust = TrustLabel.unset;
  last_login_unix = pos 0;
  created_unix = pos 0;
  web = record { persona_name = codes "Player"; steam_level = pos 1 };
  bans = record {
    community_banned = false;
    vac_banned = false;
    game_ban_count = pos 0;
    economy_ban = codes "none";
  };
  cs2 = record {
    premier_rating = pos 0;
    cs2_player_level = pos 0;
    cs2_player_xp = pos 0;
    prime_status = false;
    cooldown_expires_unix = pos 0;
    weekly_drop_reset_unix = pos 0;
  };
  total_spend_usd_cents = pos 0;
}

abbrev accounts : List Account
accounts =
    account (codes "zoe1") NfaTokenStatus.unknown
    ∷ account (codes "adam") NfaTokenStatus.valid
    ∷ account (codes "moe1") NfaTokenStatus.revoked
    ∷ account (codes "Bob1") NfaTokenStatus.valid
    ∷ []

abbrev by_login : AccountFilter
by_login = record {
  query = codes "1";
  required_tag_ids = [];
  only_with_vac = false;
  only_with_sda = false;
  only_with_cooldown = false;
  only_with_any_ban = false;
  only_with_prime = false;
  exclude_red = false;
  trust_filter = TrustLabel.unset;
  sort = SortKey.login_asc;
  now_unix = pos 1000;
}

shown_by_login : apply_filter accounts by_login ≡ 2 ∷ 3 ∷ 0 ∷ []
unfolding apply_filter shown passing passing_from passes matches_query has_all_tags any_ban occurs
    begins stable_sort insert comes_first compare_for_sort compare_text to_lower to_lower_char
    wstr_to_utf8_lower
shown_by_login = refl

comes_first-IsWeakOrder_example : IsWeakOrder (comes_first by_login)
comes_first-IsWeakOrder_example = comes_first-IsWeakOrder by_login
