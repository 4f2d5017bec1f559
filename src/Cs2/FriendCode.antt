-- ===== src/Cs2/FriendCode.antt =====
-- core/cs2/friend_code.{hpp,cpp}: the friend code of an account. MD5 is mbedTLS's: a parameter that
-- gives the digest, or `none` where the call fails. A uint64_t is a number below 2 ^ 64.
pub mod Rounds
pub mod Letters
pub mod Decoded
use Prim.Native.Nat.{bit_and, bit_or}
use steam_account_manager.Common.{
  ℕ, zero, suc, ◌+◌, ◌*◌, ◌/◌, ◌%◌, ◌^◌, List, [], ◌∷◌, ◌&&◌, ◌||◌, Option, none, some,
  if◌then◌else◌, leb, ◌==◌, text_eq, length, take, drop, get_or,
}
use steam_account_manager.Codec.Base64.{codes}

-- `kAlphabet`.
abbrev pub alphabet : List ℕ
alphabet = codes "ABCDEFGHJKLMNPQRSTUVWXYZ23456789"

-- The bytes of `strange` from byte `i` on.
unfoldable pub strange_bytes : ℕ → ℕ → ℕ → List ℕ
strange_bytes zero i strange = []
strange_bytes (suc n) i strange =
    bit_and (strange / 2 ^ (8 * i)) 0xff ∷ strange_bytes n (suc i) strange

unfoldable pub first_word : Option (List ℕ) → ℕ
first_word none = 0
first_word (some digest) =
    bit_or
      (bit_or (bit_or (get_or digest 0 0) (get_or digest 1 0 * 2 ^ 8)) (get_or digest 2 0 * 2 ^ 16))
      (get_or digest 3 0 * 2 ^ 24)

unfoldable pub hash_steam_id : (List ℕ → Option (List ℕ)) → ℕ → ℕ
hash_steam_id md5 steam_id =
    let account_id = bit_and steam_id 0xffffffff in
    first_word (md5 (strange_bytes 8 0 (bit_or account_id 0x4353474f00000000)))

-- The rounds of `byteswap64` that are left.
unfoldable pub swap_loop : ℕ → ℕ → ℕ → ℕ
swap_loop zero v out = out
swap_loop (suc n) v out = swap_loop n (v / 2 ^ 8) (bit_or (out * 2 ^ 8 % 2 ^ 64) (bit_and v 0xff))

unfoldable pub byteswap64 : ℕ → ℕ
byteswap64 v = swap_loop 8 v 0

-- `r` after a round, from `r`, the low nibble of `id` and a bit of the hash.
unfoldable pub next_r : ℕ → ℕ → ℕ → ℕ
next_r r id_nibble hash_nibble =
    let a = bit_or (r * 2 ^ 4 % 2 ^ 64) id_nibble in
    let mid = bit_or (r / 2 ^ 28 * 2 ^ 32 % 2 ^ 64) a in
    bit_or (mid / 2 ^ 31 * 2 ^ 32 % 2 ^ 64) (bit_or (a * 2 % 2 ^ 64) hash_nibble)

-- The rounds that are left, from round `i`.
unfoldable pub id_loop : ℕ → ℕ → ℕ → ℕ → ℕ → ℕ
id_loop zero i h id r = r
id_loop (suc n) i h id r =
    id_loop n (suc i) h (id / 2 ^ 4) (next_r r (bit_and id 0xf) (bit_and (h / 2 ^ i) 1))

-- The letters from letter `i` on.
unfoldable pub letter_loop : ℕ → ℕ → ℕ → List ℕ
letter_loop zero i v = []
letter_loop (suc n) i v =
    let rest = get_or alphabet (bit_and v 0x1f) 0 ∷ letter_loop n (suc i) (v / 2 ^ 5) in
    if i == 4 || i == 9 then b'-' ∷ rest else rest

unfoldable pub without_prefix : List ℕ → List ℕ
without_prefix res =
    if leb 5 (length res) && text_eq (take 4 res) (codes "AAAA") then drop 5 res else res

unfoldable pub friend_code : (List ℕ → Option (List ℕ)) → ℕ → List ℕ
friend_code md5 steam_id_64 =
    if steam_id_64 == 0
    then []
    else without_prefix
        (letter_loop 13 0 (byteswap64 (id_loop 8 0 (hash_steam_id md5 steam_id_64) steam_id_64 0)))
