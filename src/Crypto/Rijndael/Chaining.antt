-- ===== src/Crypto/Rijndael/Chaining.antt =====
-- core/crypto/rijndael256.cpp: the blocks of a text chained, and its padding.
use steam_account_manager.Common.{
  ℕ, zero, suc, ◌+◌, ◌*◌, ◌/◌, ◌%◌, ◌≡◌, refl, sym, ◌∙◌, ap, true, false, not, ◌||◌, ◌==◌, arith,
  List, [], ◌∷◌, ◌++◌, length, length-append, length-take, length-drop, take, drop, take-append,
  drop-append, take-append-drop,
}
use steam_account_manager.Common.Every.{every, every-take, every-drop}
use steam_account_manager.Crypto.{ok, pad_text}
use steam_account_manager.Crypto.Padding.{strip_padding-pad_text, length-pad_text, pad_text-bytes}
use steam_account_manager.Crypto.Rijndael.{
  xor_bytes, decrypt_block, cbc_loop, key_expansion, rijndael256_cbc_pkcs7_decrypt,
}
use steam_account_manager.Crypto.Rijndael.Inverse.{is_byte}
use steam_account_manager.Crypto.Rijndael.Steps.{IsBlock, xor_bytes-cancel}
use steam_account_manager.Crypto.Rijndael.Keys.{key_expansion-bytes}
use steam_account_manager.Crypto.Rijndael.Schedule.{
  standard_schedule, key_expansion-standard_schedule,
}
use steam_account_manager.Crypto.Rijndael.Cipher.{
  IsSchedule, encrypt_block, decrypt_block-encrypt_block, encrypt_block-IsBlock, xor_bytes-IsBlock,
}

-- The standard's chaining of `n` blocks.
pub encrypt_blocks : ℕ → List ℕ → List ℕ → List ℕ → List ℕ
encrypt_blocks zero w prev text = []
encrypt_blocks (suc n) w prev text =
    let block = encrypt_block (xor_bytes (take 32 text) prev) w in
    block ++ encrypt_blocks n w block (drop 32 text)

take_block : (b rest : List ℕ) → length b ≡ 32 → take 32 (b ++ rest) ≡ b
take_block b rest h = rw h at (take-append b rest)

drop_block : (b rest : List ℕ) → length b ≡ 32 → drop 32 (b ++ rest) ≡ rest
drop_block b rest h = rw h at (drop-append b rest)

cbc_loop-encrypt_blocks :
    (n : ℕ) (w prev text : List ℕ)
    → IsSchedule w
    → IsBlock prev
    → length text ≡ n * 32
    → every is_byte text ≡ true
    → cbc_loop n w prev (encrypt_blocks n w prev text) ≡ text
unfolding cbc_loop encrypt_blocks
cbc_loop-encrypt_blocks zero w prev [] h k l m = refl
cbc_loop-encrypt_blocks zero w prev (x ∷ text) h k l m = absurd (omega arith)
cbc_loop-encrypt_blocks (suc n) w prev text h k l m =
    let front : IsBlock (take 32 text) =
      (omega (arith, length-take 32 text), every-take is_byte 32 text m) in
    let mixed = xor_bytes-IsBlock (take 32 text) prev front k in
    let block : List ℕ = encrypt_block (xor_bytes (take 32 text) prev) w in
    let whole : IsBlock block = encrypt_block-IsBlock (xor_bytes (take 32 text) prev) w h mixed in
    let rest : List ℕ = encrypt_blocks n w block (drop 32 text) in
    let after = λ (b r : List ℕ). xor_bytes (decrypt_block b w) prev ++ cbc_loop n w b r in
    ap (λ (b : List ℕ). after b (drop 32 (block ++ rest))) (take_block block rest whole.0)
    ∙ ap (after block) (drop_block block rest whole.0)
    ∙ ap (λ (t : List ℕ). xor_bytes t prev ++ cbc_loop n w block rest)
        (decrypt_block-encrypt_block (xor_bytes (take 32 text) prev) w h mixed)
    ∙ ap (λ (t : List ℕ). t ++ cbc_loop n w block rest)
        (xor_bytes-cancel (take 32 text) prev (omega (arith, front.0, k.0)))
    ∙ ap (◌++◌ (take 32 text)) (
        cbc_loop-encrypt_blocks n w block (drop 32 text) h whole
          (omega (arith, length-drop 32 text, l)) (every-drop is_byte 32 text m))
    ∙ take-append-drop 32 text

-- The standard's encryption of a whole text, filled up as PKCS#7 has it.
pub encrypt : List ℕ → List ℕ → List ℕ → List ℕ
encrypt key iv text =
    encrypt_blocks (length text / 32 + 1) (standard_schedule key) iv (pad_text 32 text)

length-encrypt_blocks :
    (n : ℕ) (w prev text : List ℕ)
    → IsSchedule w
    → IsBlock prev
    → length text ≡ n * 32
    → every is_byte text ≡ true
    → length (encrypt_blocks n w prev text) ≡ n * 32
unfolding encrypt_blocks
length-encrypt_blocks zero w prev text h k l m = refl
length-encrypt_blocks (suc n) w prev text h k l m =
    let front : IsBlock (take 32 text) =
      (omega (arith, length-take 32 text), every-take is_byte 32 text m) in
    let mixed = xor_bytes-IsBlock (take 32 text) prev front k in
    let block : List ℕ = encrypt_block (xor_bytes (take 32 text) prev) w in
    let whole : IsBlock block = encrypt_block-IsBlock (xor_bytes (take 32 text) prev) w h mixed in
    let rest =
      length-encrypt_blocks n w block (drop 32 text) h whole (omega (arith, length-drop 32 text, l))
        (every-drop is_byte 32 text m) in
    omega (arith, length-append block (encrypt_blocks n w block (drop 32 text)), rest, whole.0)

-- rijndael256_cbc_pkcs7_decrypt gives back every text of bytes that was encrypted with the same
-- key and iv, of 32 bytes each, by an encryption that is written down beside the code, which
-- only decrypts: blocks of 32 bytes and 14 rounds of substitution by kSbox, rows shifted by 0,
-- 1, 3 and 4, columns mixed by the matrix of 2, 3, 1 and 1 over the field of 256 elements, and
-- round keys of a key schedule by words, chained, the text filled up as PKCS#7 has it. Shifts,
-- field, matrix and key schedule are stated apart from the code's.
pub rijndael256_cbc_pkcs7_decrypt-encrypt :
    (key iv text : List ℕ)
    → IsBlock key
    → IsBlock iv
    → every is_byte text ≡ true
    → rijndael256_cbc_pkcs7_decrypt key iv (encrypt key iv text) ≡ ok text
unfolding rijndael256_cbc_pkcs7_decrypt encrypt
rijndael256_cbc_pkcs7_decrypt-encrypt key iv text h k l =
    let w = key_expansion-bytes key h in
    let n : ℕ = length text / 32 + 1 in
    let padded : length (pad_text 32 text) ≡ n * 32 = omega (arith, length-pad_text 32 text) in
    let bytes = pad_text-bytes 32 text l in
    let size = length-encrypt_blocks n (key_expansion key) iv (pad_text 32 text) w k padded bytes in
    let blocks : length (encrypt_blocks n (key_expansion key) iv (pad_text 32 text)) / 32 ≡ n =
      omega (arith, size) in
    let whole : (length (encrypt_blocks n (key_expansion key) iv (pad_text 32 text)) == 0
          || not (length (encrypt_blocks n (key_expansion key) iv (pad_text 32 text)) % 32 == 0))
        ≡ false =
      ground (arith, size) in
    rw
      (
        sym (key_expansion-standard_schedule key h.0),
        h.0,
        k.0,
        whole,
        blocks,
        cbc_loop-encrypt_blocks n (key_expansion key) iv (pad_text 32 text) w k padded bytes,
      )
      (strip_padding-pad_text 32 text (omega arith) (omega arith))
