-- ===== src/Crypto.antt =====
-- core/crypto/aes_cbc.{hpp,cpp} and core/crypto/rijndael256.{hpp,cpp}: what the two ciphers share.
pub mod Padding
pub mod AesCbc
pub mod Rijndael
use steam_account_manager.Common.{
  ℕ, zero, ◌+◌, ◌-◌, ◌%◌, List, ◌++◌, ◌||◌, if◌then◌else◌, ltb, ◌==◌, length, get_or, take, drop,
  replicate,
}
use steam_account_manager.Common.Every.{every}

-- What the functions throw, by its message.
pub data CryptoError : Type 0 where
  bad_key bad_iv bad_length no_key crypt_failed invalid_padding corrupt_padding : CryptoError

pub data Outcome : Type 0 where
  ok : List ℕ → Outcome
  failed : CryptoError → Outcome

-- The end of both decryptions, on an `out` that is not empty: `out.back()` says how much goes.
unfoldable pub strip_padding : ℕ → List ℕ → Outcome
strip_padding block out =
    let pad = get_or out (length out - 1) 0 in
    let rest = length out - pad in
    if pad == 0 || (ltb block pad || ltb (length out) pad)
    then failed invalid_padding
    else if every (λ b. b == pad) (drop rest out)
    then ok (take rest out)
    else failed corrupt_padding

-- A text filled up to whole blocks.
unfoldable pub pad_text : ℕ → List ℕ → List ℕ
pad_text block text = let pad = block - length text % block in text ++ replicate pad (pad % 256)
