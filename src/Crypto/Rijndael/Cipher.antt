-- ===== src/Crypto/Rijndael/Cipher.antt =====
-- core/crypto/rijndael256.cpp: its decryption beside the encryption of the standard, which the source
-- has not.
use steam_account_manager.Common.{
  ℕ, zero, suc, take, drop, ◌*◌, ◌<◌, ◌≡◌, refl, ◌∙◌, ap, true, arith, List, length,
}
use steam_account_manager.Common.Every.{every}
use steam_account_manager.Crypto.Rijndael.{
  xor_bytes, add_round_key, round_key, inv_rounds, decrypt_block, inv_sub_bytes, inv_shift_rows,
  inv_mix_columns,
}
use steam_account_manager.Crypto.Rijndael.Inverse.{
  is_byte, mix_columns, mix_columns-bytes, inv_mix_columns-mix_columns,
}
use steam_account_manager.Crypto.Rijndael.Steps.{
  IsBlock, sub_bytes, sub_bytes-IsBlock, inv_sub_bytes-sub_bytes, shift_rows, shift_rows-IsBlock,
  inv_shift_rows-shift_rows, xor_bytes-cancel, length-xor_bytes, xor_bytes-bytes,
}
use steam_account_manager.Crypto.Rijndael.Keys.{round_key-IsBlock}

-- The bytes of round key `n`.
key_of : List ℕ → ℕ → List ℕ
key_of w n = take 32 (drop (n * 32) w)

-- The state after `n` rounds of the standard's encryption.
pub rounds : List ℕ → ℕ → List ℕ → List ℕ
rounds w zero s = xor_bytes s (key_of w 0)
rounds w (suc n) s =
    xor_bytes (mix_columns (shift_rows (sub_bytes (rounds w n s)))) (key_of w (suc n))

pub encrypt_block : List ℕ → List ℕ → List ℕ
encrypt_block s w = xor_bytes (shift_rows (sub_bytes (rounds w 13 s))) (key_of w 14)

abbrev pub IsSchedule : List ℕ → Type 0
IsSchedule w = (length w ≡ 480) × (every is_byte w ≡ true)

pub xor_bytes-IsBlock : (s t : List ℕ) → IsBlock s → IsBlock t → IsBlock (xor_bytes s t)
xor_bytes-IsBlock s t (h, k) (l, m) =
    (omega (arith, length-xor_bytes s t (omega arith)), xor_bytes-bytes s t k m)

rounds-IsBlock :
    (w : List ℕ) (n : ℕ) (s : List ℕ) → IsSchedule w → n < 15 → IsBlock s → IsBlock (rounds w n s)
unfolding rounds key_of round_key
rounds-IsBlock w zero s h l k = xor_bytes-IsBlock s (round_key w 0) k (round_key-IsBlock w 0 h l)
rounds-IsBlock w (suc n) s h l k =
    let before = rounds-IsBlock w n s h (omega arith) k in
    let shifted = shift_rows-IsBlock _ (sub_bytes-IsBlock (rounds w n s) before) in
    xor_bytes-IsBlock _ (round_key w (suc n)) (mix_columns-bytes 8 _ shifted.0 shifted.1)
      (round_key-IsBlock w (suc n) h l)

-- The shift and the replacement of a round are undone.
unshifted : (s : List ℕ) → IsBlock s → inv_sub_bytes (inv_shift_rows (shift_rows (sub_bytes s))) ≡ s
unshifted s h =
    ap inv_sub_bytes (inv_shift_rows-shift_rows (sub_bytes s) (sub_bytes-IsBlock s h).0)
    ∙ inv_sub_bytes-sub_bytes s h.1

inv_rounds-rounds :
    (w : List ℕ) (n : ℕ) (s : List ℕ)
    → IsSchedule w
    → n < 14
    → IsBlock s
    → inv_rounds w n (shift_rows (sub_bytes (rounds w n s))) ≡ shift_rows (sub_bytes (rounds w 0 s))
unfolding inv_rounds add_round_key rounds key_of round_key
inv_rounds-rounds w zero s h l k = refl
inv_rounds-rounds w (suc n) s h l k =
    let before = rounds-IsBlock w n s h (omega arith) k in
    let shifted = shift_rows-IsBlock _ (sub_bytes-IsBlock (rounds w n s) before) in
    let mixed = mix_columns-bytes 8 _ shifted.0 shifted.1 in
    let key = round_key-IsBlock w (suc n) h (omega arith) in
    ap (λ (t : List ℕ). inv_rounds w n (inv_mix_columns (xor_bytes t (round_key w (suc n)))))
      (unshifted (rounds w (suc n) s) (rounds-IsBlock w (suc n) s h (omega arith) k))
    ∙ ap (λ (t : List ℕ). inv_rounds w n (inv_mix_columns t))
        (xor_bytes-cancel _ (round_key w (suc n)) (omega (arith, mixed.0, key.0)))
    ∙ ap (inv_rounds w n) (inv_mix_columns-mix_columns 8 _ shifted.0 shifted.1)
    ∙ inv_rounds-rounds w n s h (omega arith) k

-- The block cipher is undone.
pub decrypt_block-encrypt_block :
    (s w : List ℕ) → IsSchedule w → IsBlock s → decrypt_block (encrypt_block s w) w ≡ s
unfolding decrypt_block encrypt_block add_round_key rounds key_of round_key
decrypt_block-encrypt_block s w h k =
    let last = rounds-IsBlock w 13 s h (omega arith) k in
    let shifted = shift_rows-IsBlock _ (sub_bytes-IsBlock (rounds w 13 s) last) in
    let key = round_key-IsBlock w 14 h (omega arith) in
    let first = round_key-IsBlock w 0 h (omega arith) in
    ap
      (λ (t : List ℕ).
        xor_bytes (inv_sub_bytes (inv_shift_rows (inv_rounds w 13 t))) (round_key w 0))
      (xor_bytes-cancel _ (round_key w 14) (omega (arith, shifted.0, key.0)))
    ∙ ap (λ (t : List ℕ). xor_bytes (inv_sub_bytes (inv_shift_rows t)) (round_key w 0))
        (inv_rounds-rounds w 13 s h (omega arith) k)
    ∙ ap (λ (t : List ℕ). xor_bytes t (round_key w 0))
        (unshifted (rounds w 0 s) (rounds-IsBlock w 0 s h (omega arith) k))
    ∙ xor_bytes-cancel s (round_key w 0) (omega (arith, k.0, first.0))

pub encrypt_block-IsBlock : (s w : List ℕ) → IsSchedule w → IsBlock s → IsBlock (encrypt_block s w)
unfolding encrypt_block key_of round_key
encrypt_block-IsBlock s w h k =
    xor_bytes-IsBlock _ (round_key w 14)
      (shift_rows-IsBlock _
        (sub_bytes-IsBlock (rounds w 13 s) (rounds-IsBlock w 13 s h (omega arith) k)))
      (round_key-IsBlock w 14 h (omega arith))
