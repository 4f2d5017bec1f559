-- ===== src/Codec/Base64/Groups.antt =====
-- core/crypto/base64.cpp: the digits that the encoder writes, and how the decoder takes one.
use Prim.Native.Nat.{bit_or}
use steam_account_manager.Common.{
  ℕ, ◌+◌, ◌-◌, ◌*◌, ◌/◌, ◌%◌, ◌^◌, ◌<◌, ◌≡◌, refl, ◌∙◌, ap, List, ◌∷◌, Bool, true, false, not, ◌&&◌,
  Option, none, some, ◌==◌, leb, get_or, arith,
}
use steam_account_manager.Common.Bits.{
  passes_below, passes_below-at, bit_and_63, bit_and_255, bit_or_add,
}
use steam_account_manager.Codec.Base64.{
  std_alphabet, shl, shr, u32, digit_at, fill_table, build_decode_table, is_skipped, push_byte,
  decode_loop,
}

-- The character of a digit.
unfoldable pub letter : ℕ → ℕ
letter v = get_or std_alphabet v 0

holds : Option ℕ → ℕ → Bool
holds none v = false
holds (some x) v = x == v

letter_test : List (Option ℕ) → ℕ → Bool
letter_test t v = not (is_skipped (letter v)) && holds (get_or t (letter v) none) v

letter_table : passes_below (letter_test build_decode_table) 64 ≡ true
unfolding passes_below letter_test letter is_skipped holds build_decode_table fill_table
letter_table = refl

-- The decoder knows every letter.
letter-get :
    (v : ℕ)
    → v < 64
    → (is_skipped (letter v) ≡ false) × (get_or build_decode_table (letter v) none ≡ some v)
unfolding letter_test holds
letter-get v h = ground (arith, passes_below-at (letter_test build_decode_table) letter_table v h)

-- The buffer after a digit is shifted in.
abbrev pub feed : ℕ → ℕ → ℕ
feed buf v = buf % 67108864 * 64 + v

feed_lem : (buf v : ℕ) → v < 64 → bit_or (u32 (shl buf 6)) v ≡ feed buf v
feed_lem buf v h =
    let e : u32 (shl buf 6) ≡ buf % 67108864 * 2 ^ 6 = omega arith in
    rw (e, bit_or_add 6 (buf % 67108864) v h)

module _ (t : List (Option ℕ)) (c v : ℕ) (h : v < 64) (seen : is_skipped c ≡ false)
    (known : get_or t c none ≡ some v) (cs : List ℕ) (buf : ℕ) where
  char-first : decode_loop t (c ∷ cs) buf 0 ≡ decode_loop t cs (feed buf v) 6
  unfolding decode_loop
  char-first = rw (seen, decode_loop, known, feed_lem buf v h)

  char-next :
      (bits : ℕ)
      → decode_loop t (c ∷ cs) buf (bits + 2)
        ≡ push_byte (feed buf v / 2 ^ bits % 256) (decode_loop t cs (feed buf v) bits)
  unfolding decode_loop
  char-next bits =
      let eight : leb 8 (bits + 2 + 6) ≡ true = ground arith in
      let left : bits + 2 + 6 - 8 ≡ bits = omega arith in
      rw (seen, decode_loop, known, eight, feed_lem buf v h, left, bit_and_255)

module _ (v : ℕ) (h : v < 64) (cs : List ℕ) (buf : ℕ) where
  -- The first digit of a group only fills the buffer.
  pub decode-first :
      decode_loop build_decode_table (letter v ∷ cs) buf 0
      ≡ decode_loop build_decode_table cs (feed buf v) 6
  decode-first =
      let (seen, known) = letter-get v h in
      char-first build_decode_table (letter v) v h seen known cs buf

  -- Each later one completes a byte.
  pub decode-next :
      (bits : ℕ)
      → decode_loop build_decode_table (letter v ∷ cs) buf (bits + 2)
        ≡ push_byte
            (feed buf v / 2 ^ bits % 256)
            (decode_loop build_decode_table cs (feed buf v) bits)
  decode-next bits =
      let (seen, known) = letter-get v h in
      char-next build_decode_table (letter v) v h seen known cs buf bits

digit_at_lem : (n k : ℕ) → digit_at std_alphabet n k ≡ letter (shr n k % 64)
unfolding digit_at letter
digit_at_lem n k = rw (bit_and_63 (shr n k))

triple :
    (b c d : ℕ)
    → c < 256
    → d < 256
    → bit_or (bit_or (shl b 16) (shl c 8)) d ≡ b * 65536 + c * 256 + d
triple b c d hc hd =
    let e : b * 2 ^ 16 + c * 2 ^ 8 ≡ (b * 256 + c) * 2 ^ 8 = omega arith in
    rw (bit_or_add 16 b (c * 2 ^ 8) (omega arith), e, bit_or_add 8 (b * 256 + c) d hd) (omega arith)

-- What the encoder reads off three bytes.
pub digits_three :
    (b c d : ℕ)
    → c < 256
    → d < 256
    → let n = bit_or (bit_or (shl b 16) (shl c 8)) d in
      (digit_at std_alphabet n 18 ≡ letter (b / 4 % 64))
      × (digit_at std_alphabet n 12 ≡ letter (b % 4 * 16 + c / 16))
      × (digit_at std_alphabet n 6 ≡ letter (c % 16 * 4 + d / 64))
      × (digit_at std_alphabet n 0 ≡ letter (d % 64))
digits_three b c d hc hd = rw (triple b c d hc hd) (
  digit_at_lem n 18 ∙ ap letter (omega arith),
  digit_at_lem n 12 ∙ ap letter (omega arith),
  digit_at_lem n 6 ∙ ap letter (omega arith),
  digit_at_lem n 0 ∙ ap letter (omega arith),
)
  where
    n : ℕ
    n = b * 65536 + c * 256 + d

-- What the encoder reads off the last two bytes, and off the last one.
pub digits_two :
    (b c : ℕ)
    → c < 256
    → let n = bit_or (shl b 16) (shl c 8) in
      (digit_at std_alphabet n 18 ≡ letter (b / 4 % 64))
      × (digit_at std_alphabet n 12 ≡ letter (b % 4 * 16 + c / 16))
      × (digit_at std_alphabet n 6 ≡ letter (c % 16 * 4))
digits_two b c hc = rw (bit_or_add 16 b (c * 2 ^ 8) (omega arith)) (
  digit_at_lem n 18 ∙ ap letter (omega arith),
  digit_at_lem n 12 ∙ ap letter (omega arith),
  digit_at_lem n 6 ∙ ap letter (omega arith),
)
  where
    n : ℕ
    n = b * 2 ^ 16 + c * 2 ^ 8

pub digits_one :
    (b : ℕ)
    → (digit_at std_alphabet (shl b 16) 18 ≡ letter (b / 4 % 64))
      × (digit_at std_alphabet (shl b 16) 12 ≡ letter (b % 4 * 16))
digits_one b = (
  digit_at_lem (shl b 16) 18 ∙ ap letter (omega arith),
  digit_at_lem (shl b 16) 12 ∙ ap letter (omega arith),
)
