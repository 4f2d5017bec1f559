-- ===== src/Framing/Words.antt =====
-- Words written and read back, and the top bit that marks protobuf messages.
use Prim.Native.Nat.{bit_or}
use steam_account_manager.Common.{
  ℕ, ◌+◌, ◌*◌, ◌/◌, ◌%◌, ◌^◌, ◌<◌, [], ◌∷◌, ◌++◌, Bool, ◌≡◌, refl, ◌∙◌, ap, some, arith, ltb,
  get_elem?,
}
use steam_account_manager.Common.Bits.{bit_and_255, bit_or_add, bit_or_comm}
use steam_account_manager.Common.Every.{every}
use steam_account_manager.Framing.{Bytes, put_u32, read_u32}

abbrev pub are_bytes : Bytes → Bool
are_bytes = every (λ c. ltb c 256)

-- The four bytes of a word.
abbrev pub word : ℕ → Bytes
word v = v % 256 ∷ v / 2 ^ 8 % 256 ∷ v / 2 ^ 16 % 256 ∷ v / 2 ^ 24 % 256 ∷ []

pub put_u32-word : (buf : Bytes) (v : ℕ) → put_u32 buf v ≡ buf ++ word v
unfolding put_u32
put_u32-word [] v =
    rw (bit_and_255 v, bit_and_255 (v / 2 ^ 8), bit_and_255 (v / 2 ^ 16), bit_and_255 (v / 2 ^ 24))
      refl
put_u32-word (b ∷ buf) v = ap (◌∷◌ b) (put_u32-word buf v)

or_low : (k a b : ℕ) → a < 2 ^ k → bit_or a (b * 2 ^ k) ≡ b * 2 ^ k + a
or_low k a b h = bit_or_comm a (b * 2 ^ k) ∙ bit_or_add k b a h

-- The sum that four bytes make up.
pub four :
    (a b c d : ℕ)
    → a < 256
    → b < 256
    → c < 256
    → bit_or (bit_or (bit_or a (b * 2 ^ 8)) (c * 2 ^ 16)) (d * 2 ^ 24)
      ≡ a + b * 256 + c * 65536 + d * 16777216
four a b c d ha hb hc =
    let e₁ = or_low 8 a b ha in
    let e₂ = or_low 16 (b * 2 ^ 8 + a) c (omega arith) in
    let e₃ = or_low 24 (c * 2 ^ 16 + (b * 2 ^ 8 + a)) d (omega arith) in
    rw (e₁, e₂, e₃) (omega arith)

pub read_u32-four :
    (p : Bytes) (off a b c d : ℕ)
    → get_elem? p off ≡ some a
    → get_elem? p (off + 1) ≡ some b
    → get_elem? p (off + 2) ≡ some c
    → get_elem? p (off + 3) ≡ some d
    → a < 256
    → b < 256
    → c < 256
    → read_u32 p off ≡ some (a + b * 256 + c * 65536 + d * 16777216)
unfolding read_u32
read_u32-four p off a b c d ea eb ec ed ha hb hc =
    rw (ea, eb, ec, ed) (ap some (four a b c d ha hb hc))

pub word_value :
    (v : ℕ)
    → v < 2 ^ 32
    → v % 256 + v / 2 ^ 8 % 256 * 256 + v / 2 ^ 16 % 256 * 65536 + v / 2 ^ 24 % 256 * 16777216 ≡ v
word_value v h = omega arith

-- The first and the second word of a buffer.
pub read_u32-word : (v : ℕ) (rest : Bytes) → v < 2 ^ 32 → read_u32 (word v ++ rest) 0 ≡ some v
read_u32-word v rest h =
    read_u32-four (word v ++ rest) 0 _ _ _ _ refl refl refl refl (omega arith) (omega arith)
      (omega arith)
    ∙ ap some (word_value v h)

pub read_u32-word_next :
    (u v : ℕ) (rest : Bytes) → v < 2 ^ 32 → read_u32 (word u ++ (word v ++ rest)) 4 ≡ some v
read_u32-word_next u v rest h =
    read_u32-four (word u ++ (word v ++ rest)) 4 _ _ _ _ refl refl refl refl (omega arith)
      (omega arith) (omega arith)
    ∙ ap some (word_value v h)

-- Four bytes are a word.
pub word-bytes :
    (a b c d : ℕ)
    → a < 256
    → b < 256
    → c < 256
    → d < 256
    → word (a + b * 256 + c * 65536 + d * 16777216) ≡ a ∷ b ∷ c ∷ d ∷ []
word-bytes a b c d ha hb hc hd =
    let v = a + b * 256 + c * 65536 + d * 16777216 in
    let ea : v % 256 ≡ a = omega arith in
    let eb : v / 2 ^ 8 % 256 ≡ b = omega arith in
    let ec : v / 2 ^ 16 % 256 ≡ c = omega arith in
    let ed : v / 2 ^ 24 % 256 ≡ d = omega arith in rw (ea, eb, ec, ed)
