-- ===== src/Codec/Base64.antt =====
-- core/crypto/base64.cpp. A byte and a character are numbers; a buffer is a list of them.
pub mod Groups
pub mod RoundTrip
pub mod Decoding
use Prim.Native.Nat.{bit_and, bit_or}
use Prim.Native.Char.{code}
use Prim.Native.String.{String}
use steam_account_manager.Common.{
  ℕ, zero, suc, ◌+◌, ◌-◌, ◌*◌, ◌/◌, ◌%◌, ◌^◌, List, [], ◌∷◌, ◌++◌, ◌||◌, Bool, true, false, Option,
  none, some, ◌==◌, ltb, leb, if◌then◌else◌, get_or, set, replicate,
}

abbrev pub codes : String → List ℕ
codes String.[] = []
codes (String.◌∷◌ c s) = code c ∷ codes s

-- `kStdAlphabet`.
abbrev pub std_alphabet : List ℕ
std_alphabet = codes "ABCDEFGHIJKLMNOPQRSTUVWXYZabcdefghijklmnopqrstuvwxyz0123456789+/"

abbrev pub shl : ℕ → ℕ → ℕ
shl x k = x * 2 ^ k

abbrev pub shr : ℕ → ℕ → ℕ
shr x k = x / 2 ^ k

-- `alpha[(n >> k) & 0x3F]`.
unfoldable pub digit_at : List ℕ → ℕ → ℕ → ℕ
digit_at alpha n k = get_or alpha (bit_and (shr n k) 0x3f) 0

-- The `while` loop takes three bytes a round; the other clauses are the `rem` cases.
unfoldable pub encode_with_alphabet : List ℕ → List ℕ → Bool → List ℕ
encode_with_alphabet [] alpha pad = []
encode_with_alphabet (b ∷ []) alpha pad =
    let n = shl b 16 in
    digit_at alpha n 18 ∷ digit_at alpha n 12 ∷ (if pad then b'=' ∷ b'=' ∷ [] else [])
encode_with_alphabet (b ∷ c ∷ []) alpha pad =
    let n = bit_or (shl b 16) (shl c 8) in
    digit_at alpha n 18 ∷ digit_at alpha n 12 ∷ digit_at alpha n 6 ∷ (if pad then b'=' ∷ [] else [])
encode_with_alphabet (b ∷ c ∷ d ∷ bytes) alpha pad =
    let n = bit_or (bit_or (shl b 16) (shl c 8)) d in
    digit_at alpha n 18
    ∷ digit_at alpha n 12
    ∷ digit_at alpha n 6
    ∷ digit_at alpha n 0
    ∷ encode_with_alphabet bytes alpha pad

unfoldable pub base64_encode : List ℕ → List ℕ
base64_encode bytes = encode_with_alphabet bytes std_alphabet true

-- `t[kStdAlphabet[i]] = i` from `i` on; `none` is the table's -1.
unfoldable pub fill_table : List ℕ → ℕ → List (Option ℕ) → List (Option ℕ)
fill_table [] i t = t
fill_table (c ∷ cs) i t = fill_table cs (i + 1) (set t c (some i))

unfoldable pub build_decode_table : List (Option ℕ)
build_decode_table =
    set (set (fill_table std_alphabet 0 (replicate 256 none)) b'-' (some 62)) b'_' (some 63)

-- Characters that `base64_decode` passes over.
unfoldable pub is_skipped : ℕ → Bool
is_skipped c = c == b'=' || c == b'\n' || c == b'\r' || c == b' ' || c == b'\t'

abbrev pub u32 : ℕ → ℕ
u32 n = n % 2 ^ 32

abbrev pub push_byte : ℕ → Option (List ℕ) → Option (List ℕ)
push_byte b none = none
push_byte b (some out) = some (b ∷ out)

-- The loop over the characters; `none` is the early `return {}`. `out` is what it still pushes.
unfoldable pub decode_loop : List (Option ℕ) → List ℕ → ℕ → ℕ → Option (List ℕ)
decode_loop t [] buf bits = some []
decode_loop t (c ∷ cs) buf bits = elim (is_skipped c) [
  | true ↦ decode_loop t cs buf bits
  | false ↦ elim (get_or t c none) [
    | none ↦ none
    | some v ↦
        let buf' = bit_or (u32 (shl buf 6)) v in
        elim (leb 8 (bits + 6)) [
          | true ↦
              push_byte (bit_and (shr buf' (bits + 6 - 8)) 0xff)
                (decode_loop t cs buf' (bits + 6 - 8))
          | false ↦ decode_loop t cs buf' (bits + 6)
        ]
  ]
]

unfoldable pub base64_decode : List ℕ → List ℕ
base64_decode encoded = elim (decode_loop build_decode_table encoded 0 0) [
  | none ↦ []
  | some out ↦ out
]

-- The `switch` of `base64_url_query_encode`.
unfoldable pub url_query_char : ℕ → List ℕ
url_query_char c =
    if c == b'+'
    then codes "%2B"
    else if c == b'/'
    then codes "%2F"
    else if c == b'='
    then codes "%3D"
    else c ∷ []

unfoldable pub base64_url_query_encode : List ℕ → List ℕ
base64_url_query_encode [] = []
base64_url_query_encode (c ∷ cs) = url_query_char c ++ base64_url_query_encode cs
