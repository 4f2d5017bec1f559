-- ===== src/Codec/Base64/Decoding.antt =====
-- core/crypto/base64.cpp: what `base64_decode` gives on any text.
use Prim.Native.Nat.{bit_or}
use steam_account_manager.Common.{
  ℕ, ◌+◌, ◌-◌, ◌*◌, ◌/◌, ◌<◌, ◌⊎◌, ◌≡◌, refl, List, [], ◌∷◌, ◌++◌, false, Option, none, some, arith,
  if◌then◌else◌, leb, get_or, length, Bool-cases, Option-cases, inl, inr,
}
use steam_account_manager.Common.Bits.{bit_and_255}
use steam_account_manager.Codec.Base64.{
  build_decode_table, is_skipped, push_byte, decode_loop, base64_decode, shl, u32,
}
use steam_account_manager.Codec.Base64.RoundTrip.{AreBytes}

push_byte-none : (b : ℕ) (o : Option (List ℕ)) → o ≡ none → push_byte b o ≡ none
push_byte-none b o e = rw e

decode-invalid :
    (t : List (Option ℕ)) (front back : List ℕ) (c buf bits : ℕ)
    → is_skipped c ≡ false
    → get_or t c none ≡ none
    → decode_loop t (front ++ (c ∷ back)) buf bits ≡ none
unfolding decode_loop
decode-invalid t [] back c buf bits seen bad = rw (seen, decode_loop, bad)
decode-invalid t (d ∷ front) back c buf bits seen bad = elim (Bool-cases (is_skipped d)) [
  | inl s ↦ rw (s, decode_loop) (decode-invalid t front back c buf bits seen bad)
  | inr s ↦ elim (Option-cases (get_or t d none)) [
    | inl k ↦ rw (s, decode_loop, k)
    | inr (v, k) ↦
        let buf' = bit_or (u32 (shl buf 6)) v in
        elim (Bool-cases (leb 8 (bits + 6))) [
          | inl e ↦
              rw (s, decode_loop, k, e, decode-invalid t front back c buf' (bits + 6 - 8) seen bad)
          | inr e ↦
              rw (s, decode_loop, k, e) (decode-invalid t front back c buf' (bits + 6) seen bad)
        ]
  ]
]

-- One character that is neither in the decode table nor passed over makes the whole result of
-- base64_decode empty, wherever it stands.
pub base64_decode-invalid :
    (front back : List ℕ) (c : ℕ)
    → is_skipped c ≡ false
    → get_or build_decode_table c none ≡ none
    → base64_decode (front ++ (c ∷ back)) ≡ []
unfolding base64_decode
base64_decode-invalid front back c seen bad =
    rw (decode-invalid build_decode_table front back c 0 0 seen bad, base64_decode)

-- The characters that carry six bits each.
abbrev pub digits : List ℕ → ℕ
digits [] = 0
digits (c ∷ cs) = (if is_skipped c then 0 else 1) + digits cs

-- `n` bits make whole bytes.
abbrev Shape : Option (List ℕ) → ℕ → Type 0
Shape none n = Unit
Shape (some out) n = AreBytes out × (length out ≡ n / 8)

push_byte-Shape :
    (b : ℕ) (o : Option (List ℕ)) (m n : ℕ)
    → b < 256
    → m + 8 ≡ n
    → Shape o m
    → Shape (push_byte b o) n
push_byte-Shape b none m n h e s = tt
push_byte-Shape b (some out) m n h e (bytes, len) = ((h, bytes), omega arith)

decode-Shape :
    (t : List (Option ℕ)) (cs : List ℕ) (buf bits : ℕ)
    → bits < 8
    → Shape (decode_loop t cs buf bits) (bits + 6 * digits cs)
unfolding decode_loop
decode-Shape t [] buf bits h = (tt, omega arith)
decode-Shape t (c ∷ cs) buf bits h = elim (Bool-cases (is_skipped c)) [
  | inl s ↦
      let n : bits + 6 * digits cs ≡ bits + 6 * (0 + digits cs) = omega arith in
      rw (s, decode_loop, ← n) (decode-Shape t cs buf bits h)
  | inr s ↦ elim (Option-cases (get_or t c none)) [
    | inl k ↦ rw (s, decode_loop, k) tt
    | inr (v, k) ↦
        let buf' = bit_or (u32 (shl buf 6)) v in
        elim (Bool-cases (leb 8 (bits + 6))) [
          | inl e ↦
              rw (s, decode_loop, k, e)
                (push_byte-Shape _ (decode_loop t cs buf' (bits + 6 - 8)) _ _
                  (rw bit_and_255 (omega arith)) (ground arith)
                  (decode-Shape t cs buf' (bits + 6 - 8) (ground arith)))
          | inr e ↦
              let n : bits + 6 + 6 * digits cs ≡ bits + 6 * (1 + digits cs) = omega arith in
              rw (s, decode_loop, k, e, ← n) (decode-Shape t cs buf' (bits + 6) (ground arith))
        ]
  ]
]

-- The result of base64_decode is a sequence of bytes, either empty or as long as the whole bytes
-- in the six bits of each character that is not passed over.
pub base64_decode_shape :
    (encoded : List ℕ)
    → AreBytes (base64_decode encoded)
      × ((base64_decode encoded ≡ []) ⊎ (length (base64_decode encoded) ≡ 6 * digits encoded / 8))
unfolding base64_decode
base64_decode_shape encoded =
    go (decode_loop build_decode_table encoded 0 0)
      (decode-Shape build_decode_table encoded 0 0 (omega arith))
  where
    go :
        (o : Option (List ℕ))
        → Shape o (0 + 6 * digits encoded)
        → let r : List ℕ = elim o [ none ↦ [] | some out ↦ out ] in
          AreBytes r × ((r ≡ []) ⊎ (length r ≡ 6 * digits encoded / 8))
    go none s = (tt, inl refl)
    go (some out) (bytes, len) = (bytes, inr (omega arith))
