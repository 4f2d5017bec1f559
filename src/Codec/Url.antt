-- ===== src/Codec/Url.antt =====
-- core/http/url.cpp: percent encoding and query strings. A `std::map` is its list of entries in
-- the order of the keys.
use Prim.Native.Nat.{bit_and}
use steam_account_manager.Common.{
  ℕ, ◌+◌, ◌*◌, ◌/◌, ◌%◌, ◌<◌, ◌≡◌, ◌≢◌, refl, ◌∙◌, List, [], ◌∷◌, ◌++◌, ◌&&◌, ◌||◌, Bool, true,
  false, Option, none, some, arith, if◌then◌else◌, leb, ◌==◌, get_or, Bool-cases, inl, inr, text_eq,
  text_eq_iff,
}
use steam_account_manager.Common.Bits.{passes_below, passes_below-at}
use steam_account_manager.Codec.Base64.{
  codes, shr, base64_url_query_encode, url_query_char, base64_encode, encode_with_alphabet,
}
use steam_account_manager.Codec.Base64.Groups.{letter, digits_one, digits_two, digits_three}
use steam_account_manager.Codec.Base64.RoundTrip.{IsByte, AreBytes}
use steam_account_manager.Codec.Hex.{nybble, gives, gives_sound}

-- `kHex`.
abbrev hex_upper : List ℕ
hex_upper = codes "0123456789ABCDEF"

unfoldable pub is_unreserved : ℕ → Bool
is_unreserved c =
    (leb b'A' c && leb c b'Z')
    || (leb b'a' c && leb c b'z')
    || (leb b'0' c && leb c b'9')
    || c == b'-'
    || c == b'_'
    || c == b'.'
    || c == b'~'

-- What the loop of `url_encode` appends for one character.
unfoldable pub url_char : ℕ → List ℕ
url_char c =
    if is_unreserved c
    then c ∷ []
    else b'%' ∷ get_or hex_upper (shr c 4) 0 ∷ get_or hex_upper (bit_and c 0x0f) 0 ∷ []

unfoldable pub url_encode : List ℕ → List ℕ
url_encode [] = []
url_encode (c ∷ s) = url_char c ++ url_encode s

-- The loop of `make_query`; the flag is `first`.
unfoldable pub query_fields : Bool → List (List ℕ × List ℕ) → List ℕ
query_fields first [] = []
query_fields first ((k, v) ∷ fields) =
    (if first then [] else b'&' ∷ [])
    ++ (url_encode k ++ (b'=' ∷ (url_encode v ++ query_fields false fields)))

unfoldable pub make_query : List (List ℕ × List ℕ) → List ℕ
make_query [] = []
make_query (f ∷ fields) = b'?' ∷ query_fields true (f ∷ fields)

unfoldable pub build_url : List ℕ → List (List ℕ × List ℕ) → List ℕ
build_url base fields = base ++ make_query fields

-- Percent decoding, the standard's reading of an encoded text.
abbrev percent_byte : Option ℕ → Option ℕ → Option (List ℕ) → Option (List ℕ)
percent_byte (some hi) (some lo) (some out) = some ((hi * 16 + lo) ∷ out)
percent_byte _ _ _ = none

abbrev keep : ℕ → Option (List ℕ) → Option (List ℕ)
keep c none = none
keep c (some out) = some (c ∷ out)

unfoldable pub percent_decode : List ℕ → Option (List ℕ)
percent_decode [] = some []
percent_decode (c ∷ []) = if c == b'%' then none else some (c ∷ [])
percent_decode (c ∷ d ∷ []) = if c == b'%' then none else keep c (percent_decode (d ∷ []))
percent_decode (c ∷ d ∷ e ∷ s) =
    let plain = keep c (percent_decode (d ∷ e ∷ s)) in
    let escaped = percent_byte (nybble d) (nybble e) (percent_decode s) in
    if c == b'%' then escaped else plain

decode_plain : (c : ℕ) (s : List ℕ) → c ≢ b'%' → percent_decode (c ∷ s) ≡ keep c (percent_decode s)
unfolding percent_decode
decode_plain c [] h = ground arith
decode_plain c (d ∷ []) h = ground arith
decode_plain c (d ∷ e ∷ s) h = ground arith

-- The two digits of a byte.
digits_test : ℕ → Bool
digits_test c =
    gives
      (percent_byte (nybble (get_or hex_upper (shr c 4) 0))
        (nybble (get_or hex_upper (bit_and c 0x0f) 0)) (some []))
      (c ∷ [])

digits_table : passes_below digits_test 256 ≡ true
unfolding passes_below digits_test gives nybble text_eq
digits_table = refl

percent_byte-keep :
    (hi lo : Option ℕ) (c : ℕ) (out : Option (List ℕ))
    → percent_byte hi lo (some []) ≡ some (c ∷ [])
    → percent_byte hi lo out ≡ keep c out
percent_byte-keep none lo c out h = cc
percent_byte-keep (some hi) none c out h = cc
percent_byte-keep (some hi) (some lo) c none h = refl
percent_byte-keep (some hi) (some lo) c (some out) h = ground arith

digits_lem :
    (c : ℕ)
    → IsByte c
    → percent_byte
        (nybble (get_or hex_upper (shr c 4) 0))
        (nybble (get_or hex_upper (bit_and c 0x0f) 0))
        (some [])
      ≡ some (c ∷ [])
unfolding digits_test
digits_lem c h = gives_sound _ (c ∷ []) (passes_below-at digits_test digits_table c h)

decode_escaped :
    (d e : ℕ) (s : List ℕ)
    → percent_decode (b'%' ∷ d ∷ e ∷ s) ≡ percent_byte (nybble d) (nybble e) (percent_decode s)
unfolding percent_decode
decode_escaped d e s = refl

decode-url_char :
    (c : ℕ) (s : List ℕ) → IsByte c → percent_decode (url_char c ++ s) ≡ keep c (percent_decode s)
unfolding url_char
decode-url_char c s h = elim (Bool-cases (is_unreserved c)) [
  | inl e ↦ rw e (decode_plain c s (unfold is_unreserved in ground arith))
  | inr e ↦
      rw (e, decode_escaped (get_or hex_upper (shr c 4) 0) (get_or hex_upper (bit_and c 0x0f) 0) s)
        (percent_byte-keep _ _ c (percent_decode s) (digits_lem c h))
]

-- Percent decoding gives back what url_encode was given, for every sequence of bytes.
pub percent_decode-url_encode : (s : List ℕ) → AreBytes s → percent_decode (url_encode s) ≡ some s
unfolding url_encode
percent_decode-url_encode [] h = unfold percent_decode in refl
percent_decode-url_encode (c ∷ s) h =
    decode-url_char c (url_encode s) h.0 ∙ rw (percent_decode-url_encode s h.1)

-- On the letters of base64 and on its padding the two encoders agree.
letter_test : ℕ → Bool
letter_test v = text_eq (url_query_char (letter v)) (url_char (letter v))

letter_table : passes_below letter_test 64 ≡ true
unfolding passes_below letter_test text_eq url_query_char url_char is_unreserved letter
letter_table = refl

letter_lem : (v : ℕ) → v < 64 → url_query_char (letter v) ≡ url_char (letter v)
unfolding letter_test
letter_lem v h = (text_eq_iff _ _).0 (passes_below-at letter_test letter_table v h)

pad_lem : url_query_char b'=' ≡ url_char b'='
unfolding url_query_char url_char is_unreserved
pad_lem = refl

-- On the output of base64_encode for a sequence of bytes, base64_url_query_encode and url_encode
-- give the same text.
pub base64_url_query_encode-base64_encode :
    (bytes : List ℕ)
    → AreBytes bytes
    → base64_url_query_encode (base64_encode bytes) ≡ url_encode (base64_encode bytes)
unfolding base64_encode encode_with_alphabet base64_url_query_encode url_encode
base64_url_query_encode-base64_encode [] h = refl
base64_url_query_encode-base64_encode (b ∷ []) h =
    let (p, q) = digits_one b in
    rw (p, q, letter_lem (b / 4 % 64) (omega arith), letter_lem (b % 4 * 16) (omega arith), pad_lem)
base64_url_query_encode-base64_encode (b ∷ c ∷ []) h =
    let (p, q, r) = digits_two b c h.1.0 in
    rw (
      p,
      q,
      r,
      letter_lem (b / 4 % 64) (omega arith),
      letter_lem (b % 4 * 16 + c / 16) (omega arith),
      letter_lem (c % 16 * 4) (omega arith),
      pad_lem,
    )
base64_url_query_encode-base64_encode (b ∷ c ∷ d ∷ bytes) h =
    let (p, q, r, s) = digits_three b c d h.1.0 h.1.1.0 in
    rw (
      p,
      q,
      r,
      s,
      letter_lem (b / 4 % 64) (omega arith),
      letter_lem (b % 4 * 16 + c / 16) (omega arith),
      letter_lem (c % 16 * 4 + d / 64) (omega arith),
      letter_lem (d % 64) (omega arith),
      base64_url_query_encode-base64_encode bytes h.1.1.1,
    )
