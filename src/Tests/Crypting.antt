-- ===== src/Tests/Crypting.antt =====
-- Texts encrypted and decrypted at concrete keys.
use Prim.Native.Nat.{bit_xor}
use steam_account_manager.Common.{
  ℕ, ◌+◌, ◌*◌, ◌/◌, ◌≡◌, refl, ◌∙◌, ap, List, [], ◌∷◌, some, true, map, length, length-map,
  replicate,
}
use steam_account_manager.Common.Xor.{xor_cancel}
use steam_account_manager.Common.Every.{every}
use steam_account_manager.Codec.Base64.{codes}
use steam_account_manager.Crypto.{ok}
use steam_account_manager.Crypto.AesCbc.{Aes, aes256_cbc_pkcs7_encrypt, aes256_cbc_pkcs7_decrypt}
use steam_account_manager.Crypto.AesCbc.RoundTrip.{
  IsCipher, aes256_cbc_pkcs7_decrypt-aes256_cbc_pkcs7_encrypt,
}
use steam_account_manager.Crypto.Rijndael.{rijndael256_cbc_pkcs7_decrypt}
use steam_account_manager.Crypto.Rijndael.Chaining.{encrypt, rijndael256_cbc_pkcs7_decrypt-encrypt}

-- A cipher of no strength.
masked : List ℕ → List ℕ
masked text = map (λ b. bit_xor b 0x55) text

masked-masked : (text : List ℕ) → masked (masked text) ≡ text
unfolding masked
masked-masked [] = refl
masked-masked (b ∷ text) =
    ap (λ (c : ℕ). c ∷ masked (masked text)) (xor_cancel b 0x55) ∙ ap (◌∷◌ b) (masked-masked text)

abbrev mask : Aes
mask = record {
  setkey_enc = λ key. true;
  setkey_dec = λ key. true;
  encrypt_cbc = λ key iv text. some (masked text);
  decrypt_cbc = λ key iv text. some (masked text);
}

mask-IsCipher : IsCipher mask
unfolding masked
mask-IsCipher = record {
  sets_enc = λ key h. refl;
  sets_dec = λ key h. refl;
  runs = λ key iv text h k l.
      (masked text, refl, length-map text (λ b. bit_xor b 0x55), ap some (masked-masked text));
}

aes256_cbc_pkcs7_decrypt_example :
    (out : List ℕ) × (aes256_cbc_pkcs7_encrypt mask
        (replicate 32 7)
        (replicate 16 9)
        (codes "refresh token")
      ≡ ok out)
    × (length out ≡ (length (codes "refresh token") / 16 + 1) * 16)
    × (aes256_cbc_pkcs7_decrypt mask (replicate 32 7) (replicate 16 9) out
        ≡ ok (codes "refresh token"))
aes256_cbc_pkcs7_decrypt_example =
    aes256_cbc_pkcs7_decrypt-aes256_cbc_pkcs7_encrypt mask mask-IsCipher (replicate 32 7)
      (replicate 16 9) (codes "refresh token") refl refl

rijndael256_cbc_pkcs7_decrypt_example :
    rijndael256_cbc_pkcs7_decrypt
      (replicate 32 7)
      (replicate 32 9)
      (encrypt (replicate 32 7) (replicate 32 9) (codes "login secrets of two accounts and more"))
    ≡ ok (codes "login secrets of two accounts and more")
unfolding every
rijndael256_cbc_pkcs7_decrypt_example =
    rijndael256_cbc_pkcs7_decrypt-encrypt (replicate 32 7) (replicate 32 9)
      (codes "login secrets of two accounts and more") (refl, refl) (refl, refl) refl
