-- ===== src/Tests/Codecs.antt =====
-- Runs of core/crypto/base64.cpp, core/strings.hpp and core/http/url.cpp.
use steam_account_manager.Common.{
  [], ◌∷◌, ◌≡◌, refl, none, arith, get_or, ◌≢◌, Bool, length, ◌⊎◌, ◌*◌, ◌/◌,
}
use steam_account_manager.Codec.Base64.{
  codes, base64_encode, base64_decode, encode_with_alphabet, digit_at, decode_loop,
  build_decode_table, fill_table, is_skipped,
}
use steam_account_manager.Codec.Base64.RoundTrip.{base64_decode-base64_encode, AreBytes}
use steam_account_manager.Codec.Base64.Decoding.{base64_decode_shape, digits}
use steam_account_manager.Codec.Hex.{from_hex, hex_loop, nybble}
use steam_account_manager.Codec.Url.{
  url_encode, build_url, make_query, query_fields, url_char, is_unreserved,
}

encode_sun : base64_encode (codes "Sun") ≡ codes "U3Vu"
unfolding base64_encode encode_with_alphabet digit_at
encode_sun = refl

encode_padded : base64_encode (0xff ∷ []) ≡ codes "/w=="
unfolding base64_encode encode_with_alphabet digit_at
encode_padded = refl

decode_url_alphabet : base64_decode (codes "_w==") ≡ 0xff ∷ []
unfolding base64_decode decode_loop build_decode_table fill_table is_skipped
decode_url_alphabet = refl

build_url_runs :
    build_url (codes "https://a/b") ((codes "k", codes "v w") ∷ (codes "x", codes "1") ∷ [])
    ≡ codes "https://a/b?k=v%20w&x=1"
unfolding build_url make_query query_fields url_encode url_char is_unreserved
build_url_runs = refl

base64_decode-base64_encode_example : base64_decode (base64_encode (1 ∷ 255 ∷ [])) ≡ 1 ∷ 255 ∷ []
base64_decode-base64_encode_example = base64_decode-base64_encode (1 ∷ 255 ∷ []) (omega arith)

bang_skipped : is_skipped b'!' ≡ Bool.false
unfolding is_skipped
bang_skipped = refl

bang_unknown : get_or build_decode_table b'!' none ≡ none
unfolding build_decode_table fill_table
bang_unknown = refl

from_hex_runs : from_hex (codes "0aFF") ≡ 0x0a ∷ 0xff ∷ []
unfolding from_hex hex_loop nybble
from_hex_runs = refl

from_hex_ne : from_hex (codes "0aFF") ≢ []
from_hex_ne = rw from_hex_runs (λ e. cc)

base64_decode_shape_example :
    AreBytes (base64_decode (codes "U3Vu"))
    × ((base64_decode (codes "U3Vu") ≡ [])
        ⊎ (length (base64_decode (codes "U3Vu")) ≡ 6 * digits (codes "U3Vu") / 8))
base64_decode_shape_example = base64_decode_shape (codes "U3Vu")
