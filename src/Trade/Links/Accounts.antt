-- ===== src/Trade/Links/Accounts.antt =====
-- core/trade/trade_url.cpp: an account id made a SteamID, beside the reading of SteamIDs in
-- core/cleaner/steam_scan.cpp.
use steam_account_manager.Common.{
  ℕ, ◌+◌, ◌-◌, ◌*◌, ◌^◌, ◌<◌, ◌≡◌, refl, ◌∙◌, true, false, arith, List, [], ◌∷◌,
}
use steam_account_manager.Common.Bits.{bit_or_add}
use steam_account_manager.Common.Every.{every}
use steam_account_manager.Common.Text.{is_digit, read_digits, digits_first}
use steam_account_manager.SteamLocal.{to_string}
use steam_account_manager.SteamLocal.Decimal.{to_string-digits, to_string-first, to_string-read}
use steam_account_manager.Cleaner.{is_empty}
use steam_account_manager.Cleaner.Catalog.{
  all_digits, decimal, steam_id_base, steamid64_to_account_id,
}
use steam_account_manager.Trade.Links.{account_id_to_steam_id_64}

account_id_to_steam_id_64_lem :
    (account_id : ℕ)
    → account_id < 2 ^ 32
    → account_id_to_steam_id_64 account_id ≡ steam_id_base + account_id
unfolding account_id_to_steam_id_64
account_id_to_steam_id_64_lem account_id h = omega (arith, bit_or_add 32 0x01100001 account_id h)

decimal-read : (v : ℕ) (s : List ℕ) → every is_digit s ≡ true → decimal v s ≡ read_digits v s
unfolding decimal read_digits every
decimal-read v [] h = refl
decimal-read v (c ∷ s) h = ground (arith, h, decimal-read (v * 10 + (c - b'0')) s)

all_digits-read : (s : List ℕ) → every is_digit s ≡ true → all_digits s ≡ true
unfolding all_digits every
all_digits-read [] h = refl
all_digits-read (c ∷ s) h = ground (arith, h, all_digits-read s)

first_not_empty : (s : List ℕ) → digits_first s ≡ true → is_empty s ≡ false
unfolding digits_first
first_not_empty [] h = ground (arith, h)
first_not_empty (c ∷ s) h = refl

-- The cleaner's steamid64_to_account_id gives back the account id that account_id_to_steam_id_64
-- made a SteamID of, printed in decimal, for every 32-bit account id.
pub steamid64_to_account_id-account_id_to_steam_id_64 :
    (account_id : ℕ)
    → account_id < 2 ^ 32
    → steamid64_to_account_id (to_string (account_id_to_steam_id_64 account_id)) ≡ account_id
unfolding steamid64_to_account_id
steamid64_to_account_id-account_id_to_steam_id_64 account_id h =
    let e = account_id_to_steam_id_64_lem account_id h in
    let s : List ℕ = to_string (account_id_to_steam_id_64 account_id) in
    let digits = to_string-digits (account_id_to_steam_id_64 account_id) in
    let value : decimal 0 s ≡ steam_id_base + account_id =
      decimal-read 0 s digits
      ∙ to_string-read (account_id_to_steam_id_64 account_id) (omega (arith, e))
      ∙ e in
    rw
      (
        all_digits-read s digits,
        first_not_empty s (to_string-first (account_id_to_steam_id_64 account_id)),
        value,
      )
      (ground (arith, h))
