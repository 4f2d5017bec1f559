-- ===== src/Framing/Message/RoundTrip.antt =====
-- core/steam_cm/message.cpp: `decode` on what `encode` gives.
use Prim.Native.Nat.{bit_and, bit_or}
use steam_account_manager.Common.{
  ℕ, suc, ◌+◌, ◌-◌, ◌%◌, ◌^◌, ◌≤◌, ◌<◌, [], ◌++◌, Bool, true, false, not, ◌≡◌, refl, ◌∙◌, Option,
  some, arith, ltb, ◌==◌, length, drop, ◌⊎◌, inl, inr, append_assoc, drop-append, length-append,
  if◌then◌else◌,
}
use steam_account_manager.Common.Int.{ℤ, pos}
use steam_account_manager.Common.Masks.{bit_or_clear, bit_or_set, bit_and_set, bit_and_drop}
use steam_account_manager.Framing.{Bytes, read_u32}
use steam_account_manager.Framing.Words.{word, put_u32-word, read_u32-word, read_u32-word_next}
use steam_account_manager.Framing.Message.{
  proto_mask, id_mask, to_int, DecodedMessage, encode, decode,
}

-- An id with the mark of protobuf messages.
marked_or :
    (emsg : ℕ)
    → emsg < 2 ^ 32
    → (emsg < 2 ^ 31) ⊎ (2 ^ 31 ≤ emsg)
    → bit_or emsg proto_mask ≡ emsg % 2147483648 + 2147483648
marked_or emsg h (inl l) = bit_or_clear 31 emsg l ∙ omega arith
marked_or emsg h (inr g) = bit_or_set 31 emsg g h ∙ omega arith

pub marked : (emsg : ℕ) → emsg < 2 ^ 32 → bit_or emsg proto_mask ≡ emsg % 2147483648 + 2147483648
marked emsg h = marked_or emsg h (omega arith)

pub is_marked : (raw : ℕ) → 2147483648 ≤ raw → raw < 2 ^ 32 → bit_and raw proto_mask ≡ proto_mask
is_marked raw g h = bit_and_set 31 raw g h

pub unmarked : (raw : ℕ) → 2147483648 ≤ raw → raw < 2 ^ 32 → bit_and raw id_mask ≡ raw - 2147483648
unmarked raw g h = bit_and_drop 31 raw g h

module _ {Header : Type 0} (serialize_as_string : Header → Bytes)
    (parse_from_array : Bytes → ℤ → Bool × Header) where
  -- A frame in its parts.
  encode-words :
      (emsg : ℕ) (header : Header) (body : Bytes)
      → emsg < 2 ^ 32
      → length (serialize_as_string header) < 2 ^ 31
      → encode serialize_as_string emsg header body
        ≡ word (emsg % 2147483648 + 2147483648)
          ++ (word (length (serialize_as_string header)) ++ (serialize_as_string header ++ body))
  unfolding encode
  encode-words emsg header body h k =
      let n = length (serialize_as_string header) in
      let e : n % 2 ^ 32 ≡ n = omega arith in
      rw (marked emsg h, e, put_u32-word [], put_u32-word (word (emsg % 2147483648 + 2147483648)))
        (append_assoc (word (emsg % 2147483648 + 2147483648)) (word n)
          (serialize_as_string header ++ body))

  -- What is left of `decode` at such a frame.
  decoded :
      ℕ → ℕ → Bytes → DecodedMessage Header → Bool × Header → Option (Bool × DecodedMessage Header)
  decoded emsg n rest out (parsed, header) =
      let out = record out { emsg = emsg; header = header } in
      if not parsed then some (false, out) else some (true, record out { body = drop n rest })

  decode-words :
      (raw n : ℕ) (rest : Bytes) (out : DecodedMessage Header)
      → 2147483648 ≤ raw
      → raw < 2 ^ 32
      → n < 2 ^ 31
      → n ≤ length rest
      → decode parse_from_array (word raw ++ (word n ++ rest)) out
        ≡ decoded (raw - 2147483648) n rest out (parse_from_array rest (to_int n))
  unfolding decode decoded
  decode-words raw n rest out g h k fits =
      let frame : Bytes = word raw ++ (word n ++ rest) in
      let long_enough : ltb (length frame) 8 ≡ false = ground arith in
      let first : read_u32 frame 0 ≡ some raw = read_u32-word raw (word n ++ rest) h in
      let mark : (bit_and raw proto_mask == 0) ≡ false = rw (is_marked raw g h) refl in
      let id = unmarked raw g h in
      let second : read_u32 frame 4 ≡ some n = read_u32-word_next raw n rest (omega arith) in
      let inside : ltb (length frame) (8 + n) ≡ false = ground (arith, fits) in
      let off : (8 + n) % 2 ^ 32 ≡ suc (suc (suc (suc (suc (suc (suc (suc n))))))) = omega arith in
      rw (long_enough, first, mark, id, second, inside, off) refl

  module _
      (parse-serialize : (header : Header) (rest : Bytes)
        → parse_from_array
            (serialize_as_string header ++ rest)
            (pos (length (serialize_as_string header)))
          ≡ (true, header)) where
    -- decode gives back the header and the body that encode was given, and the id without its
    -- top bit, whatever the output held before: for every 32-bit id and every header whose bytes
    -- are fewer than 2 ^ 31, where protobuf parses what it serializes.
    pub decode-encode :
        (emsg : ℕ) (header : Header) (body : Bytes) (out : DecodedMessage Header)
        → emsg < 2 ^ 32
        → length (serialize_as_string header) < 2 ^ 31
        → decode parse_from_array (encode serialize_as_string emsg header body) out
          ≡ some (true, record { emsg = emsg % 2147483648; header = header; body = body })
    unfolding decoded
    decode-encode emsg header body out h k =
        let bytes = serialize_as_string header in
        let n = length bytes in
        let raw : ℕ = emsg % 2147483648 + 2147483648 in
        let fits : n ≤ length (bytes ++ body) = omega (arith, length-append bytes body) in
        let small : to_int n ≡ pos n = ground (arith, k) in
        let id : raw - 2147483648 ≡ emsg % 2147483648 = omega arith in
        rw
          (
            encode-words emsg header body h k,
            decode-words raw n (bytes ++ body) out (omega arith) (omega arith) k fits,
            small,
            parse-serialize header body,
            id,
            drop-append bytes body,
            decoded,
          )
          refl
