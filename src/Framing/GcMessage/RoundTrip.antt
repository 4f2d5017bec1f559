-- ===== src/Framing/GcMessage/RoundTrip.antt =====
-- core/cs2_gc/gc_message.cpp: `parse_gc_client` on what `build_gc_client` gives.
use steam_account_manager.Common.{
  ℕ, suc, ◌+◌, ◌-◌, ◌%◌, ◌^◌, ◌<◌, [], ◌++◌, true, false, ◌≡◌, refl, some, arith, ltb, length,
  append_assoc, drop-append, length-append,
}
use steam_account_manager.Framing.{Bytes, read_u32}
use steam_account_manager.Framing.Words.{word, put_u32-word, read_u32-word, read_u32-word_next}
use steam_account_manager.Framing.Message.RoundTrip.{marked, unmarked}
use steam_account_manager.Framing.GcMessage.{build_gc_client, parse_gc_client}

module _ (header_bytes : Bytes) (gc_emsg : ℕ) (gc_body : Bytes) where
  build-words :
      gc_emsg < 2 ^ 32
      → length header_bytes < 2 ^ 31
      → (build_gc_client header_bytes gc_emsg gc_body).payload
        ≡ word (gc_emsg % 2147483648 + 2147483648)
          ++ (word (length header_bytes) ++ (header_bytes ++ gc_body))
  unfolding build_gc_client
  build-words h k =
      let raw : ℕ = gc_emsg % 2147483648 + 2147483648 in
      let n = length header_bytes in
      let e : n % 2 ^ 32 ≡ n = omega arith in
      rw (marked gc_emsg h, e, put_u32-word [], put_u32-word (word raw))
        (append_assoc (word raw) (word n) (header_bytes ++ gc_body))

  -- parse_gc_client gives back the body that build_gc_client wrapped, and the id without its top
  -- bit, for every 32-bit id and every header of fewer than 2 ^ 31 bytes.
  pub parse_gc_client-build :
      (id : ℕ) (body : Bytes)
      → gc_emsg < 2 ^ 32
      → length header_bytes < 2 ^ 31
      → parse_gc_client (build_gc_client header_bytes gc_emsg gc_body) id body
        ≡ some (true, gc_emsg % 2147483648, gc_body)
  unfolding parse_gc_client
  parse_gc_client-build id body h k =
      let raw : ℕ = gc_emsg % 2147483648 + 2147483648 in
      let n = length header_bytes in
      let rest = header_bytes ++ gc_body in
      let payload : Bytes = word raw ++ (word n ++ rest) in
      let long_enough : ltb (length payload) 8 ≡ false = ground arith in
      let first : read_u32 payload 0 ≡ some raw =
        read_u32-word raw (word n ++ rest) (omega arith) in
      let second : read_u32 payload 4 ≡ some n = read_u32-word_next raw n rest (omega arith) in
      let inside : ltb (length payload) (8 + n) ≡ false =
        ground (arith, length-append header_bytes gc_body) in
      let off : (8 + n) % 2 ^ 32 ≡ suc (suc (suc (suc (suc (suc (suc (suc n))))))) = omega arith in
      let plain : raw - 2147483648 ≡ gc_emsg % 2147483648 = omega arith in
      rw
        (
          build-words h k,
          long_enough,
          first,
          second,
          inside,
          off,
          unmarked raw (omega arith) (omega arith),
          plain,
          drop-append header_bytes gc_body,
        )
        refl
