-- ===== src/Totp/Code.antt =====
-- core/sda/totp.cpp: which code an HMAC gives.
use Prim.Native.Nat.{bit_and, bit_or}
use steam_account_manager.Common.{
  ℕ, zero, suc, ◌+◌, ◌*◌, ◌/◌, ◌%◌, ◌^◌, ◌<◌, List, [], ◌∷◌, true, ◌≡◌, ◌≢◌, refl, ap, arith, some,
  get_or, get_elem?, length, ◌==◌, if◌then◌else◌, ==_iff, ◌⊎◌, inl, inr,
}
use steam_account_manager.Common.Int.{ℤ}
use steam_account_manager.Common.Bits.{
  bit_and_15, bit_and_127, bit_and_255, bit_or_add, passes_below, passes_below-at,
}
use steam_account_manager.Codec.Base64.{base64_decode}
use steam_account_manager.Totp.{alphabet, generate_code, truncated, code_loop, code_of, time_buf}

-- Where a character stands in a list, 26 characters long.
unfoldable pub position : List ℕ → ℕ → ℕ
position [] c = 0
position (d ∷ ds) c = let rest = position ds c in if c == d then 0 else suc rest

-- The number that a code writes to the base 26, its lowest digit first.
unfoldable pub code_value : List ℕ → ℕ
code_value [] = 0
code_value (c ∷ cs) = position alphabet c + 26 * code_value cs

-- The dynamic truncation of RFC 4226, by sums: the last four bits are an offset, and the four bytes
-- there a big-endian number without its top bit.
unfoldable pub truncation : List ℕ → ℕ
truncation mac =
    let offset = get_or mac 19 0 % 16 in
    get_or mac offset 0 % 128 * 16777216
    + get_or mac (offset + 1) 0 % 256 * 65536
    + get_or mac (offset + 2) 0 % 256 * 256
    + get_or mac (offset + 3) 0 % 256

position-digit : (d : ℕ) → d < 26 → position alphabet (get_or alphabet d b' ') ≡ d
unfolding passes_below position
position-digit d h =
    (==_iff (position alphabet (get_or alphabet d b' ')) d).0 (
      passes_below-at (λ n. position alphabet (get_or alphabet n b' ') == n) {bound = 26} table d h)
  where
    table : passes_below (λ n. position alphabet (get_or alphabet n b' ') == n) 26 ≡ true
    table = refl

code_value-loop : (value : ℕ) → code_value (code_loop 5 value) ≡ value % 11881376
unfolding code_value code_loop
code_value-loop v =
    let e₀ = position-digit (v % 26) (omega arith) in
    let e₁ = position-digit (v / 26 % 26) (omega arith) in
    let e₂ = position-digit (v / 26 / 26 % 26) (omega arith) in
    let e₃ = position-digit (v / 26 / 26 / 26 % 26) (omega arith) in
    let e₄ = position-digit (v / 26 / 26 / 26 / 26 % 26) (omega arith) in
    rw (e₀, e₁, e₂, e₃, e₄) (omega arith)

empty_or : (l : List ℕ) → (l ≡ []) ⊎ ((c : ℕ) × (cs : List ℕ) × (l ≡ c ∷ cs))
empty_or [] = inl refl
empty_or (c ∷ cs) = inr (c, cs, refl)

length-code_loop : (n value : ℕ) → length (code_loop n value) ≡ n
unfolding code_loop
length-code_loop zero value = refl
length-code_loop (suc n) value = ap suc (length-code_loop n (value / 26))

get_elem?-or : (xs : List ℕ) (i : ℕ) → i < length xs → get_elem? xs i ≡ some (get_or xs i 0)
get_elem?-or [] i h = absurd (omega (arith, h))
get_elem?-or (x ∷ xs) zero h = refl
get_elem?-or (x ∷ xs) (suc i) h = get_elem?-or xs i (omega (arith, h))

four_bytes :
    (a b c d : ℕ)
    → bit_or
        (bit_or (bit_or (bit_and a 127 * 2 ^ 24) (bit_and b 255 * 2 ^ 16)) (bit_and c 255 * 2 ^ 8))
        (bit_and d 255)
      ≡ a % 128 * 16777216 + b % 256 * 65536 + c % 256 * 256 + d % 256
four_bytes a b c d =
    let a' = a % 128 in
    let b' = b % 256 in
    let c' = c % 256 in
    let top = bit_or_add 24 a' (b' * 65536) (omega arith) in
    let two : a' * 16777216 + b' * 65536 ≡ (a' * 256 + b') * 65536 = omega arith in
    let middle = bit_or_add 16 (a' * 256 + b') (c' * 256) (omega arith) in
    let three : (a' * 256 + b') * 65536 + c' * 256 ≡ ((a' * 256 + b') * 256 + c') * 256 =
      omega arith in
    let low = bit_or_add 8 ((a' * 256 + b') * 256 + c') (d % 256) (omega arith) in
    rw (bit_and_127 a, bit_and_255 b, bit_and_255 c, bit_and_255 d, top, two, middle, three, low)
      (omega arith)

truncated-truncation : (mac : List ℕ) → length mac ≡ 20 → truncated mac ≡ some (truncation mac)
unfolding truncated truncation
truncated-truncation mac h =
    let o : ℕ = get_or mac 19 0 % 16 in
    let m : bit_and (get_or mac 19 0) 15 ≡ o = bit_and_15 (get_or mac 19 0) in
    let e = get_elem?-or mac 19 (omega (arith, h)) in
    let e₀ = get_elem?-or mac o (omega (arith, h)) in
    let e₁ = get_elem?-or mac (o + 1) (omega (arith, h)) in
    let e₂ = get_elem?-or mac (o + 2) (omega (arith, h)) in
    let e₃ = get_elem?-or mac (o + 3) (omega (arith, h)) in
    rw (e, m, e₀, e₁, e₂, e₃) (ap some (four_bytes _ _ _ _))

-- For an HMAC of 20 bytes and a secret that decodes to some key, generate_code reads nothing
-- beyond the HMAC and gives five characters, the digits to the base 26, the lowest first, of its
-- dynamic truncation modulo 26 ^ 5.
pub generate_code-digits :
    (hmac_sha1 : List ℕ → List ℕ → List ℕ) (shared_secret : List ℕ) (unix_time : ℤ)
    → ((key message : List ℕ) → length (hmac_sha1 key message) ≡ 20)
    → base64_decode shared_secret ≢ []
    → (code : List ℕ) × (generate_code hmac_sha1 shared_secret unix_time ≡ some code)
      × (length code ≡ 5)
      × (code_value code
          ≡ truncation (hmac_sha1 (base64_decode shared_secret) (time_buf unix_time)) % 26 ^ 5)
unfolding generate_code code_of
generate_code-digits hmac_sha1 shared_secret unix_time h k =
    elim (empty_or (base64_decode shared_secret)) [
      | inl e ↦ absurd (k e)
      | inr (c, cs, e) ↦
          let value = truncation (hmac_sha1 (base64_decode shared_secret) (time_buf unix_time)) in
          (
            code_loop 5 value,
            rw (e, code_of, ← e, truncated-truncation _ (h _ _)) refl,
            length-code_loop 5 value,
            code_value-loop value,
          )
    ]
