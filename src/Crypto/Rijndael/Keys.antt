-- ===== src/Crypto/Rijndael/Keys.antt =====
-- core/crypto/rijndael256.cpp: the lengths and the bytes of key_expansion.
use steam_account_manager.Common.{
  ℕ, zero, suc, ◌+◌, ◌-◌, ◌*◌, ◌/◌, ◌%◌, ◌≤◌, ◌<◌, ◌≡◌, refl, true, arith, ◌==◌, List, [], ◌∷◌,
  ◌++◌, length, length-append, length-take, length-drop, length-map, get_or, take, drop, Bool-cases,
  inl, inr,
}
use steam_account_manager.Common.Every.{
  every, every-append, every-map, every-take, every-drop, every-get_or,
}
use steam_account_manager.Crypto.Rijndael.{
  s_box, rcon, sub_word, xor_bytes, schedule_word, word_at, expansion_loop, key_expansion,
  round_key,
}
use steam_account_manager.Crypto.Rijndael.Inverse.{is_byte}
use steam_account_manager.Crypto.Rijndael.Steps.{IsBlock, xor_bytes-bytes, length-xor_bytes}

abbrev IsWord : List ℕ → Type 0
IsWord t = (length t ≡ 4) × (every is_byte t ≡ true)

s_box-bytes : every is_byte s_box ≡ true
unfolding every
s_box-bytes = refl

rcon-bytes : every is_byte rcon ≡ true
unfolding every
rcon-bytes = refl

sub_word-IsWord : (t : List ℕ) → IsWord t → IsWord (sub_word t)
unfolding sub_word
sub_word-IsWord t (h, k) = (
  omega (arith, length-map t (λ b. get_or s_box b 0)),
  every-map (λ b. get_or s_box b 0) is_byte is_byte t
      (λ b e. every-get_or is_byte s_box b 0 refl s_box-bytes) k,
)

xor_bytes-IsWord : (s t : List ℕ) → IsWord s → IsWord t → IsWord (xor_bytes s t)
xor_bytes-IsWord s t (h, k) (l, m) =
    (omega (arith, length-xor_bytes s t (omega arith)), xor_bytes-bytes s t k m)

word_at-IsWord :
    (w : List ℕ) (i : ℕ) → i * 4 + 4 ≤ length w → every is_byte w ≡ true → IsWord (word_at w i)
unfolding word_at
word_at-IsWord w i h k = (
  omega (arith, length-take 4 (drop (i * 4) w), length-drop (i * 4) w),
  every-take is_byte 4 (drop (i * 4) w) (every-drop is_byte (i * 4) w k),
)

rotated :
    (a b c d : ℕ)
    → every is_byte (a ∷ b ∷ c ∷ d ∷ []) ≡ true
    → every is_byte (b ∷ c ∷ d ∷ a ∷ []) ≡ true
unfolding every
rotated a b c d h = ground (arith, h)

marked : (b : ℕ) → is_byte b ≡ true → every is_byte (b ∷ 0 ∷ 0 ∷ 0 ∷ []) ≡ true
unfolding every
marked b h = rw h refl

schedule_word-IsWord : (i : ℕ) (t : List ℕ) → IsWord t → IsWord (schedule_word i t)
unfolding schedule_word
schedule_word-IsWord i [] (h, k) = absurd (omega arith)
schedule_word-IsWord i (a ∷ []) (h, k) = absurd (omega arith)
schedule_word-IsWord i (a ∷ b ∷ []) (h, k) = absurd (omega arith)
schedule_word-IsWord i (a ∷ b ∷ c ∷ []) (h, k) = absurd (omega arith)
schedule_word-IsWord i (a ∷ b ∷ c ∷ d ∷ []) (h, k) = elim (Bool-cases (i % 8 == 0)) [
  | inl e ↦ rw e (
      xor_bytes-IsWord (sub_word (b ∷ c ∷ d ∷ a ∷ [])) (get_or rcon (i / 8) 0 ∷ 0 ∷ 0 ∷ 0 ∷ [])
        (sub_word-IsWord (b ∷ c ∷ d ∷ a ∷ []) (refl, rotated a b c d k))
        (
          refl,
          marked (get_or rcon (i / 8) 0) (every-get_or is_byte rcon (i / 8) 0 refl rcon-bytes),
        ))
  | inr e ↦ elim (Bool-cases (i % 8 == 4)) [
    | inl f ↦ rw (e, f) (sub_word-IsWord (a ∷ b ∷ c ∷ d ∷ []) (h, k))
    | inr f ↦ rw (e, f) (h, k)
  ]
]
schedule_word-IsWord i (a ∷ b ∷ c ∷ d ∷ e ∷ t) (h, k) = absurd (omega arith)

expansion_loop-bytes :
    (n i : ℕ) (w : List ℕ)
    → 8 ≤ i
    → length w ≡ i * 4
    → every is_byte w ≡ true
    → (length (expansion_loop n i w) ≡ (i + n) * 4) × (every is_byte (expansion_loop n i w) ≡ true)
unfolding expansion_loop
expansion_loop-bytes zero i w h k l = (omega arith, l)
expansion_loop-bytes (suc n) i w h k l =
    let back = word_at-IsWord w (i - 8) (omega arith) l in
    let last = word_at-IsWord w (i - 1) (omega arith) l in
    let word =
      xor_bytes-IsWord (word_at w (i - 8)) (schedule_word i (word_at w (i - 1))) back
        (schedule_word-IsWord i (word_at w (i - 1)) last) in
    let next = w ++ xor_bytes (word_at w (i - 8)) (schedule_word i (word_at w (i - 1))) in
    let rest =
      expansion_loop-bytes n (suc i) next (omega arith)
        (omega (
          arith,
          word.0,
          length-append w (xor_bytes (word_at w (i - 8)) (schedule_word i (word_at w (i - 1)))),
        ))
        (every-append is_byte w _ l word.1) in
    (omega (arith, rest.0), rest.1)

-- A key of 32 bytes makes the 480 bytes of 15 round keys.
pub key_expansion-bytes :
    (key : List ℕ)
    → IsBlock key
    → (length (key_expansion key) ≡ 480) × (every is_byte (key_expansion key) ≡ true)
unfolding key_expansion
key_expansion-bytes key (h, k) =
    expansion_loop-bytes 112 8 (take 32 key) (omega arith) (omega (arith, length-take 32 key))
      (every-take is_byte 32 key k)

pub round_key-IsBlock :
    (w : List ℕ) (round : ℕ)
    → (length w ≡ 480) × (every is_byte w ≡ true)
    → round < 15
    → IsBlock (round_key w round)
unfolding round_key
round_key-IsBlock w round (h, k) l = (
  omega (arith, length-take 32 (drop (round * 32) w), length-drop (round * 32) w),
  every-take is_byte 32 (drop (round * 32) w) (every-drop is_byte (round * 32) w k),
)
