-- ===== src/Crypto/AesCbc.antt =====
-- core/crypto/aes_cbc.{hpp,cpp}: AES-256 in CBC mode with padding. The cipher is mbedTLS, whose calls
-- are a parameter: each tells whether it returned 0, and the ones that write give what they wrote.
pub mod RoundTrip
use steam_account_manager.Common.{
  ℕ, zero, ◌%◌, List, Option, none, some, Bool, not, ◌||◌, if◌then◌else◌, ◌==◌, length, ◌≡◌, true,
}
use steam_account_manager.Crypto.{
  CryptoError, Outcome, strip_padding, pad_text, ok, failed, bad_key, bad_iv, bad_length, no_key,
  crypt_failed,
}

-- mbedtls_aes_setkey_{enc,dec} on a key, mbedtls_aes_crypt_cbc on a key, an iv and an input.
pub record Aes : Type 0 where
  pub setkey_enc : List ℕ → Bool
  pub setkey_dec : List ℕ → Bool
  pub encrypt_cbc : List ℕ → List ℕ → List ℕ → Option (List ℕ)
  pub decrypt_cbc : List ℕ → List ℕ → List ℕ → Option (List ℕ)

abbrev pub block_size : ℕ
block_size = 16

-- `check_args`, before what follows it.
unfoldable pub check_args : List ℕ → List ℕ → Outcome → Outcome
check_args key iv next =
    if not (length key == 32)
    then failed bad_key
    else if not (length iv == 16)
    then failed bad_iv
    else next

unfoldable pub decrypted : Option (List ℕ) → Outcome
decrypted none = failed crypt_failed
decrypted (some out) = strip_padding block_size out

unfoldable pub aes256_cbc_pkcs7_decrypt : Aes → List ℕ → List ℕ → List ℕ → Outcome
aes256_cbc_pkcs7_decrypt aes key iv ciphertext = check_args key iv (
    if length ciphertext == 0 || not (length ciphertext % block_size == 0)
    then failed bad_length
    else if not (aes.setkey_dec key)
    then failed no_key
    else decrypted (aes.decrypt_cbc key iv ciphertext))

unfoldable pub encrypted : Option (List ℕ) → Outcome
encrypted none = failed crypt_failed
encrypted (some out) = ok out

unfoldable pub aes256_cbc_pkcs7_encrypt : Aes → List ℕ → List ℕ → List ℕ → Outcome
aes256_cbc_pkcs7_encrypt aes key iv plaintext = check_args key iv (
    if not (aes.setkey_enc key)
    then failed no_key
    else encrypted (aes.encrypt_cbc key iv (pad_text block_size plaintext)))
