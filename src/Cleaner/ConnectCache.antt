-- ===== src/Cleaner/ConnectCache.antt =====
-- core/cleaner/plan.cpp: the names of the login tokens of the accounts to keep.
use Prim.Native.Nat.{bit_and, bit_xor}
use steam_account_manager.Common.{
  ℕ, zero, suc, ◌+◌, ◌/◌, ◌%◌, List, [], ◌∷◌, ◌++◌, map, if◌then◌else◌, ◌==◌, ltb,
}
use steam_account_manager.Codec.Base64.{codes}
use steam_account_manager.Cleaner.{
  PreserveList, preserves, is_empty, AccountInfo, ResolveContext, Machine,
}

-- One round of the loop that fills the table: `(c & 1) ? (0xEDB88320u ^ (c >> 1)) : (c >> 1)`.
unfoldable pub crc_round : ℕ → ℕ
crc_round c = if bit_and c 1 == 0 then c / 2 else bit_xor 3988292384 (c / 2)

unfoldable pub crc_rounds : ℕ → ℕ → ℕ
crc_rounds zero c = c
crc_rounds (suc j) c = crc_rounds j (crc_round c)

-- `table[i]`.
unfoldable pub crc_table : ℕ → ℕ
crc_table i = crc_rounds 8 i

unfoldable pub crc_bytes : ℕ → List ℕ → ℕ
crc_bytes crc [] = crc
crc_bytes crc (b ∷ bs) =
    crc_bytes (bit_xor (crc_table (bit_and (bit_xor crc b) 255)) (crc / 256)) bs

unfoldable pub crc32_ieee : List ℕ → ℕ
crc32_ieee bytes = bit_xor (crc_bytes 4294967295 bytes) 4294967295

unfoldable pub hex_digit : ℕ → ℕ
hex_digit d = if ltb d 10 then b'0' + d else 87 + d

-- `%x` of a 32-bit number: at most 8 digits and at least one.
unfoldable pub hex_digits : ℕ → ℕ → List ℕ → List ℕ
hex_digits zero n out = out
hex_digits (suc k) n out =
    let out' = hex_digit (n % 16) ∷ out in
    let rest = hex_digits k (n / 16) out' in if n / 16 == 0 then out' else rest

-- The conversion to `char` keeps the low byte.
unfoldable pub connect_cache_key : (ℕ → ℕ) → List ℕ → List ℕ
connect_cache_key towlower account_name =
    hex_digits 8 (crc32_ieee (map (λ ch. towlower ch % 256) account_name)) [] ++ codes "1"

unfoldable pub preserved_keys_of : (ℕ → ℕ) → List AccountInfo → PreserveList → List (List ℕ)
preserved_keys_of towlower [] keep = []
preserved_keys_of towlower (acc ∷ accs) keep =
    let rest = preserved_keys_of towlower accs keep in
    if is_empty acc.account_name
    then rest
    else if preserves keep acc.steamid64
    then connect_cache_key towlower acc.account_name ∷ rest
    else rest

unfoldable pub preserved_connect_cache_keys :
    Machine → ResolveContext → PreserveList → List (List ℕ)
preserved_connect_cache_keys m ctx keep = preserved_keys_of m.towlower ctx.accounts keep
