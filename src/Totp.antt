-- ===== src/Totp.antt =====
-- core/sda/totp.{hpp,cpp}: the codes of Steam Guard. `hmac_sha1` of core/crypto/hmac.cpp, a call of the
-- operating system, is a parameter. A read beyond the end of its result is `none`.
pub mod Code
pub mod Window
use Prim.Native.Nat.{bit_and, bit_or}
use steam_account_manager.Common.{
  ℕ, zero, suc, ◌+◌, ◌-◌, ◌*◌, ◌/◌, ◌%◌, ◌^◌, List, [], ◌∷◌, Option, some, get_elem?, get_or, ◌>>=◌,
}
use steam_account_manager.Common.Int.{ℤ, pos, negsuc, sub_ℕ, ◌-ℤ◌}
use steam_account_manager.Codec.Base64.{codes, base64_decode}

-- `kAlphabet`.
abbrev pub alphabet : List ℕ
alphabet = codes "23456789BCDFGHJKMNPQRTVWXY"

-- `kWindowSeconds` and `kCodeLen`.
abbrev pub window_seconds : ℕ
window_seconds = 30

abbrev pub code_len : ℕ
code_len = 5

-- `/` and `%` by `kWindowSeconds`, which round towards 0.
abbrev pub window_of : ℤ → ℤ
window_of (pos n) = pos (n / window_seconds)
window_of (negsuc n) = sub_ℕ 0 (suc n / window_seconds)

abbrev pub into_window : ℤ → ℤ
into_window (pos n) = pos (n % window_seconds)
into_window (negsuc n) = sub_ℕ 0 (suc n % window_seconds)

-- `c & 0xFF` and `c >>= 8`.
abbrev pub low_byte : ℤ → ℕ
low_byte (pos n) = n % 256
low_byte (negsuc n) = 255 - n % 256

abbrev pub shift_byte : ℤ → ℤ
shift_byte (pos n) = pos (n / 256)
shift_byte (negsuc n) = negsuc (n / 256)

-- The loop over `time_buf`, from its last index down: what stands behind it is `buf`.
unfoldable pub time_loop : ℕ → ℤ → List ℕ → List ℕ
time_loop zero c buf = buf
time_loop (suc i) c buf = time_loop i (shift_byte c) (low_byte c ∷ buf)

abbrev pub time_buf : ℤ → List ℕ
time_buf unix_time = time_loop 8 (window_of unix_time) []

unfoldable pub truncated : List ℕ → Option ℕ
truncated mac = do
  last ← get_elem? mac 19
  let offset = bit_and last 15
  b0 ← get_elem? mac offset
  b1 ← get_elem? mac (offset + 1)
  b2 ← get_elem? mac (offset + 2)
  b3 ← get_elem? mac (offset + 3)
  some (
      bit_or
        (bit_or (bit_or (bit_and b0 127 * 2 ^ 24) (bit_and b1 255 * 2 ^ 16))
          (bit_and b2 255 * 2 ^ 8))
        (bit_and b3 255))

-- The loop over `code`: the characters from here on.
unfoldable pub code_loop : ℕ → ℕ → List ℕ
code_loop zero value = []
code_loop (suc n) value = get_or alphabet (value % 26) b' ' ∷ code_loop n (value / 26)

-- The code for a key and the bytes of the time.
unfoldable pub code_of : (List ℕ → List ℕ → List ℕ) → List ℕ → List ℕ → Option (List ℕ)
code_of hmac_sha1 [] buf = some []
code_of hmac_sha1 (k ∷ ks) buf =
    truncated (hmac_sha1 (k ∷ ks) buf) >>= λ value. some (code_loop code_len value)

unfoldable pub generate_code : (List ℕ → List ℕ → List ℕ) → List ℕ → ℤ → Option (List ℕ)
generate_code hmac_sha1 shared_secret unix_time =
    code_of hmac_sha1 (base64_decode shared_secret) (time_buf unix_time)

unfoldable pub seconds_remaining : ℤ → ℤ
seconds_remaining unix_time = pos window_seconds -ℤ into_window unix_time
