-- ===== src/Codec/Base64/RoundTrip.antt =====
-- core/crypto/base64.cpp: `base64_decode` gives back the bytes that `base64_encode` was given.
use steam_account_manager.Common.{
  ℕ, ◌+◌, ◌*◌, ◌/◌, ◌%◌, ◌^◌, ◌<◌, ◌≡◌, refl, ◌∙◌, List, [], ◌∷◌, true, some, arith,
}
use steam_account_manager.Codec.Base64.{
  std_alphabet, encode_with_alphabet, base64_encode, build_decode_table, is_skipped, push_byte,
  decode_loop, base64_decode,
}
use steam_account_manager.Codec.Base64.Groups.{
  letter, feed, decode-first, decode-next, digits_three, digits_two, digits_one,
}

abbrev pub IsByte : ℕ → Type 0
IsByte b = b < 256

abbrev pub AreBytes : List ℕ → Type 0
AreBytes [] = Unit
AreBytes (b ∷ bs) = IsByte b × AreBytes bs

-- A padding character is passed over.
decode-pad :
    (cs : List ℕ) (buf bits : ℕ)
    → decode_loop build_decode_table (b'=' ∷ cs) buf bits
      ≡ decode_loop build_decode_table cs buf bits
unfolding decode_loop is_skipped
decode-pad cs buf bits = refl

-- A whole group gives its three bytes, whatever the buffer held before.
decode-group :
    (b c d : ℕ) (cs : List ℕ) (buf : ℕ)
    → IsByte b
    → IsByte c
    → IsByte d
    → (buf' : ℕ) × (decode_loop build_decode_table
          (letter (b / 4 % 64)
            ∷ letter (b % 4 * 16 + c / 16)
            ∷ letter (c % 16 * 4 + d / 64)
            ∷ letter (d % 64)
            ∷ cs)
          buf
          0
        ≡ push_byte b (push_byte c (push_byte d (decode_loop build_decode_table cs buf' 0))))
decode-group b c d cs buf hb hc hd =
    let v₀ = b / 4 % 64 in
    let v₁ = b % 4 * 16 + c / 16 in
    let v₂ = c % 16 * 4 + d / 64 in
    let v₃ = d % 64 in
    let f₁ = feed buf v₀ in
    let f₂ = feed f₁ v₁ in
    let f₃ = feed f₂ v₂ in
    let f₄ = feed f₃ v₃ in
    let x : f₂ / 2 ^ 4 % 256 ≡ b = omega arith in
    let y : f₃ / 2 ^ 2 % 256 ≡ c = omega arith in
    let z : f₄ / 2 ^ 0 % 256 ≡ d = omega arith in
    (
      f₄,
      rw (
        decode-first v₀ (omega arith) (letter v₁ ∷ letter v₂ ∷ letter v₃ ∷ cs) buf,
        decode-next v₁ (omega arith) (letter v₂ ∷ letter v₃ ∷ cs) f₁ 4,
        decode-next v₂ (omega arith) (letter v₃ ∷ cs) f₂ 2,
        decode-next v₃ (omega arith) cs f₃ 0,
        x,
        y,
        z,
      ),
    )

decode-two :
    (b c : ℕ) (buf : ℕ)
    → IsByte b
    → IsByte c
    → decode_loop build_decode_table
        (letter (b / 4 % 64) ∷ letter (b % 4 * 16 + c / 16) ∷ letter (c % 16 * 4) ∷ b'=' ∷ [])
        buf
        0
      ≡ some (b ∷ c ∷ [])
decode-two b c buf hb hc =
    let v₀ = b / 4 % 64 in
    let v₁ = b % 4 * 16 + c / 16 in
    let v₂ = c % 16 * 4 in
    let f₁ = feed buf v₀ in
    let f₂ = feed f₁ v₁ in
    let x : f₂ / 2 ^ 4 % 256 ≡ b = omega arith in
    let y : feed f₂ v₂ / 2 ^ 2 % 256 ≡ c = omega arith in
    rw
      (
        decode-first v₀ (omega arith) (letter v₁ ∷ letter v₂ ∷ b'=' ∷ []) buf,
        decode-next v₁ (omega arith) (letter v₂ ∷ b'=' ∷ []) f₁ 4,
        decode-next v₂ (omega arith) (b'=' ∷ []) f₂ 2,
        decode-pad [] (feed f₂ v₂) 2,
        x,
        y,
      )
      (unfold decode_loop in refl)

decode-one :
    (b buf : ℕ)
    → IsByte b
    → decode_loop build_decode_table
        (letter (b / 4 % 64) ∷ letter (b % 4 * 16) ∷ b'=' ∷ b'=' ∷ [])
        buf
        0
      ≡ some (b ∷ [])
decode-one b buf hb =
    let v₀ = b / 4 % 64 in
    let v₁ = b % 4 * 16 in
    let f₁ = feed buf v₀ in
    let x : feed f₁ v₁ / 2 ^ 4 % 256 ≡ b = omega arith in
    rw
      (
        decode-first v₀ (omega arith) (letter v₁ ∷ b'=' ∷ b'=' ∷ []) buf,
        decode-next v₁ (omega arith) (b'=' ∷ b'=' ∷ []) f₁ 4,
        decode-pad (b'=' ∷ []) (feed f₁ v₁) 4,
        decode-pad [] (feed f₁ v₁) 4,
        x,
      )
      (unfold decode_loop in refl)

decode-encode :
    (bs : List ℕ) (buf : ℕ)
    → AreBytes bs
    → decode_loop build_decode_table (encode_with_alphabet bs std_alphabet true) buf 0 ≡ some bs
unfolding encode_with_alphabet
decode-encode [] buf h = unfold decode_loop in refl
decode-encode (b ∷ []) buf h = let (p, q) = digits_one b in rw (p, q) (decode-one b buf h.0)
decode-encode (b ∷ c ∷ []) buf h =
    let (p, q, r) = digits_two b c h.1.0 in rw (p, q, r) (decode-two b c buf h.0 h.1.0)
decode-encode (b ∷ c ∷ d ∷ bs) buf h =
    let (p, q, r, s) = digits_three b c d h.1.0 h.1.1.0 in
    let (buf', e) =
      decode-group b c d (encode_with_alphabet bs std_alphabet true) buf h.0 h.1.0 h.1.1.0 in
    rw (p, q, r, s) (e ∙ rw (decode-encode bs buf' h.1.1.1))

-- base64_decode after base64_encode gives the bytes back, for every sequence of bytes and with
-- each of the three paddings.
pub base64_decode-base64_encode :
    (bytes : List ℕ) → AreBytes bytes → base64_decode (base64_encode bytes) ≡ bytes
unfolding base64_decode base64_encode
base64_decode-base64_encode bytes h = rw (decode-encode bytes 0 h, base64_decode)
