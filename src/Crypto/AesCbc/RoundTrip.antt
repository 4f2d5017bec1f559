-- ===== src/Crypto/AesCbc/RoundTrip.antt =====
-- core/crypto/aes_cbc.cpp: decryption after encryption.
use steam_account_manager.Common.{
  ℕ, ◌+◌, ◌*◌, ◌/◌, ◌%◌, ◌≡◌, refl, ◌∙◌, ◌||◌, not, true, false, arith, List, some, length, ◌==◌,
}
use steam_account_manager.Crypto.{Outcome, ok, pad_text}
use steam_account_manager.Crypto.Padding.{strip_padding-pad_text, length-pad_text}
use steam_account_manager.Crypto.AesCbc.{
  Aes, aes256_cbc_pkcs7_encrypt, aes256_cbc_pkcs7_decrypt, check_args, encrypted, decrypted,
}

-- What mbedTLS documents: a key of 256 bits can be set, and a run over whole blocks with an iv of 16
-- bytes succeeds, keeps the length and is undone by the run the other way.
pub record IsCipher (aes : Aes) : Type 0 where
  pub sets_enc : (key : List ℕ) → length key ≡ 32 → aes.setkey_enc key ≡ true
  pub sets_dec : (key : List ℕ) → length key ≡ 32 → aes.setkey_dec key ≡ true
  pub runs :
      (key iv text : List ℕ)
      → length key ≡ 32
      → length iv ≡ 16
      → length text % 16 ≡ 0
      → (out : List ℕ) × (aes.encrypt_cbc key iv text ≡ some out)
        × (length out ≡ length text)
        × (aes.decrypt_cbc key iv out ≡ some text)

checked :
    (key iv : List ℕ) (next : Outcome)
    → length key ≡ 32
    → length iv ≡ 16
    → check_args key iv next ≡ next
unfolding check_args
checked key iv next h k = rw (h, k) refl

-- With a block cipher as mbedTLS documents its own, a key of 32 and an iv of 16 bytes: every
-- text is encrypted, to the next whole number of 16-byte blocks above its length, and decrypted
-- to itself.
pub aes256_cbc_pkcs7_decrypt-aes256_cbc_pkcs7_encrypt :
    (aes : Aes)
    → IsCipher aes
    → (key iv text : List ℕ) → length key ≡ 32
    → length iv ≡ 16
    → (out : List ℕ) × (aes256_cbc_pkcs7_encrypt aes key iv text ≡ ok out)
      × (length out ≡ (length text / 16 + 1) * 16)
      × (aes256_cbc_pkcs7_decrypt aes key iv out ≡ ok text)
unfolding aes256_cbc_pkcs7_encrypt aes256_cbc_pkcs7_decrypt encrypted decrypted
aes256_cbc_pkcs7_decrypt-aes256_cbc_pkcs7_encrypt aes laws key iv text h k =
    let size : length (pad_text 16 text) ≡ (length text / 16 + 1) * 16 =
      omega (arith, length-pad_text 16 text) in
    let (out, enc, same, dec) = laws.runs key iv (pad_text 16 text) h k (omega (arith, size)) in
    let whole : (length out == 0 || not (length out % 16 == 0)) ≡ false =
      ground (arith, size, same) in
    (
      out,
      checked key iv _ h k ∙ rw (laws.sets_enc key h, enc) refl,
      omega (arith, size, same),
      checked key iv _ h k
          ∙ rw (whole, laws.sets_dec key h, dec)
              (strip_padding-pad_text 16 text (omega arith) (omega arith)),
    )
