-- ===== src/Codec/Hex.antt =====
-- core/strings.hpp: lower case and hexadecimal.
use Prim.Native.Nat.{bit_and, bit_or}
use steam_account_manager.Common.{
  ℕ, ◌+◌, ◌-◌, ◌*◌, ◌/◌, ◌%◌, ◌^◌, ◌<◌, ◌≡◌, refl, ap, List, [], ◌∷◌, ◌&&◌, not, Bool, true, false,
  Option, none, some, arith, if◌then◌else◌, leb, ltb, ◌==◌, get_or, length, map, Bool-cases,
  Option-cases, inl, inr, text_eq, text_eq_iff, ==_iff, ltb→lt, ◌≢◌,
}
use steam_account_manager.Common.Bits.{passes_below, passes_below-at, bit_and_15, bit_or_add}
use steam_account_manager.Codec.Base64.{codes, shl, shr}
use steam_account_manager.Codec.Base64.RoundTrip.{IsByte, AreBytes}

-- `std::tolower` of the C locale.
unfoldable pub to_lower_char : ℕ → ℕ
to_lower_char c = if leb b'A' c && leb c b'Z' then c + 32 else c

unfoldable pub to_lower : List ℕ → List ℕ
to_lower s = map to_lower_char s

-- `kHex` of `to_hex_lower`.
abbrev hex_lower : List ℕ
hex_lower = codes "0123456789abcdef"

unfoldable pub to_hex_lower : List ℕ → List ℕ
to_hex_lower [] = []
to_hex_lower (b ∷ bytes) =
    get_or hex_lower (bit_and (shr b 4) 0x0f) 0
    ∷ get_or hex_lower (bit_and b 0x0f) 0
    ∷ to_hex_lower bytes

-- The lambda `nybble`; `none` is its -1.
unfoldable pub nybble : ℕ → Option ℕ
nybble c =
    if leb b'0' c && leb c b'9'
    then some (c - b'0')
    else if leb b'a' c && leb c b'f'
    then some (c - b'a' + 10)
    else if leb b'A' c && leb c b'F'
    then some (c - b'A' + 10)
    else none

abbrev hex_byte : Option ℕ → Option ℕ → Option (List ℕ) → Option (List ℕ)
hex_byte (some hi) (some lo) (some out) = some (bit_or (shl hi 4) lo ∷ out)
hex_byte _ _ _ = none

-- The loop of `from_hex` over a text of even length; `none` is the early `return {}`.
unfoldable pub hex_loop : List ℕ → Option (List ℕ)
hex_loop [] = some []
hex_loop (c ∷ []) = none
hex_loop (c ∷ d ∷ hex) = hex_byte (nybble c) (nybble d) (hex_loop hex)

unfoldable pub from_hex : List ℕ → List ℕ
from_hex hex =
    if not (length hex % 2 == 0) then [] else elim (hex_loop hex) [ none ↦ [] | some out ↦ out ]

abbrev hex_digit : ℕ → ℕ
hex_digit n = get_or hex_lower n 0

-- The test of a table: the computed buffer is the expected one.
unfoldable pub gives : Option (List ℕ) → List ℕ → Bool
gives none bs = false
gives (some out) bs = text_eq out bs

pub gives_sound : (o : Option (List ℕ)) (bs : List ℕ) → gives o bs ≡ true → o ≡ some bs
unfolding gives
gives_sound none bs h = cc
gives_sound (some out) bs h = ap some ((text_eq_iff out bs).0 h)

byte_test : ℕ → Bool
byte_test b =
    gives
      (hex_byte (nybble (hex_digit (bit_and (shr b 4) 0x0f))) (nybble (hex_digit (bit_and b 0x0f)))
        (some []))
      (b ∷ [])

byte_table : passes_below byte_test 256 ≡ true
unfolding passes_below byte_test gives nybble text_eq
byte_table = refl

byte_nybbles :
    (b : ℕ)
    → IsByte b
    → hex_byte
        (nybble (hex_digit (bit_and (shr b 4) 0x0f)))
        (nybble (hex_digit (bit_and b 0x0f)))
        (some [])
      ≡ some (b ∷ [])
unfolding byte_test
byte_nybbles b h = gives_sound _ _ (passes_below-at byte_test byte_table b h)

hex_byte-cons :
    (hi lo : Option ℕ) (b : ℕ) (out : List ℕ)
    → hex_byte hi lo (some []) ≡ some (b ∷ [])
    → hex_byte hi lo (some out) ≡ some (b ∷ out)
hex_byte-cons none lo b out h = cc
hex_byte-cons (some hi) none b out h = cc
hex_byte-cons (some hi) (some lo) b out h = ground arith

hex_loop-to_hex_lower :
    (bytes : List ℕ) → AreBytes bytes → hex_loop (to_hex_lower bytes) ≡ some bytes
unfolding hex_loop to_hex_lower
hex_loop-to_hex_lower [] h = refl
hex_loop-to_hex_lower (b ∷ bytes) h =
    rw (hex_loop-to_hex_lower bytes h.1) (hex_byte-cons _ _ b bytes (byte_nybbles b h.0))

length-to_hex_lower : (bytes : List ℕ) → length (to_hex_lower bytes) ≡ 2 * length bytes
unfolding to_hex_lower
length-to_hex_lower [] = refl
length-to_hex_lower (b ∷ bytes) = omega (arith, length-to_hex_lower bytes)

-- from_hex gives back the bytes that to_hex_lower was given.
pub from_hex-to_hex_lower :
    (bytes : List ℕ) → AreBytes bytes → from_hex (to_hex_lower bytes) ≡ bytes
unfolding from_hex
from_hex-to_hex_lower bytes h =
    let even : (length (to_hex_lower bytes) % 2 == 0) ≡ true =
      (==_iff _ 0).1 (omega (arith, length-to_hex_lower bytes)) in
    rw (even, hex_loop-to_hex_lower bytes h, from_hex)

&&_true : (a b : Bool) → (a && b) ≡ true → (a ≡ true) × (b ≡ true)
&&_true a b p = ground arith

-- The lower case of a hexadecimal digit is the digit of its value.
digit_test : ℕ → Bool
digit_test c = elim (nybble c) [ none ↦ true | some n ↦ ltb n 16 && hex_digit n == to_lower_char c ]

digit_table : passes_below digit_test 256 ≡ true
unfolding passes_below digit_test nybble to_lower_char
digit_table = refl

digit_lem : (c n : ℕ) → IsByte c → nybble c ≡ some n → (n < 16) × (hex_digit n ≡ to_lower_char c)
unfolding digit_test
digit_lem c n h e =
    let test : (ltb n 16 && hex_digit n == to_lower_char c) ≡ true =
      rw (e, digit_test) at (passes_below-at digit_test digit_table c h) in
    let (lt, same) = &&_true (ltb n 16) _ test in (ltb→lt n 16 lt, (==_iff _ _).0 same)

hex_byte-inv :
    (hi lo : Option ℕ) (o : Option (List ℕ)) {out : List ℕ}
    → hex_byte hi lo o ≡ some out
    → (h : ℕ) × (l : ℕ) × (rest : List ℕ) × (hi ≡ some h)
      × (lo ≡ some l)
      × (o ≡ some rest)
      × (out ≡ bit_or (shl h 4) l ∷ rest)
hex_byte-inv (some h) (some l) (some rest) e = (h, l, rest, refl, refl, refl, cc)
hex_byte-inv (some h) (some l) none e = cc
hex_byte-inv (some h) none o e = cc
hex_byte-inv none lo o e = cc

to_hex_lower-hex_loop :
    (hex : List ℕ) {out : List ℕ}
    → AreBytes hex
    → hex_loop hex ≡ some out
    → to_hex_lower out ≡ to_lower hex
unfolding hex_loop to_hex_lower to_lower
to_hex_lower-hex_loop [] h e = ground arith
to_hex_lower-hex_loop (c ∷ []) h e = cc
to_hex_lower-hex_loop (c ∷ d ∷ hex) h e =
    let (hi, lo, rest, eh, el, er, eo) = hex_byte-inv (nybble c) (nybble d) (hex_loop hex) e in
    let (hb, hd) = digit_lem c hi h.0 eh in
    let (lb, ld) = digit_lem d lo h.1.0 el in
    let ih = to_hex_lower-hex_loop hex h.1.1 er in
    let x : (hi * 2 ^ 4 + lo) / 2 ^ 4 % 16 ≡ hi = omega arith in
    let y : (hi * 2 ^ 4 + lo) % 16 ≡ lo = omega arith in
    rw (
      eo,
      bit_or_add 4 hi lo lb,
      bit_and_15 ((hi * 2 ^ 4 + lo) / 2 ^ 4),
      bit_and_15 (hi * 2 ^ 4 + lo),
      x,
      y,
      hd,
      ld,
      ih,
    )

-- Wherever from_hex gives bytes, to_hex_lower writes them as the text in lower case, for every
-- text of bytes.
pub to_hex_lower-from_hex :
    (hex : List ℕ) → AreBytes hex → from_hex hex ≢ [] → to_hex_lower (from_hex hex) ≡ to_lower hex
unfolding from_hex
to_hex_lower-from_hex hex h = elim (Bool-cases (length hex % 2 == 0)) [
  | inl even ↦ elim (Option-cases (hex_loop hex)) [
    | inl e ↦ rw (even, e, from_hex) (λ ne. absurd (ne refl))
    | inr (out, e) ↦ rw (even, e, from_hex) (λ ne. to_hex_lower-hex_loop hex h e)
  ]
  | inr odd ↦ rw (odd, from_hex) (λ ne. absurd (ne refl))
]
