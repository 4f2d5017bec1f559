-- ===== src/Crypto/Rijndael/Schedule.antt =====
-- core/crypto/rijndael256.cpp: key_expansion beside the key schedule of the standard.
use Prim.Native.Nat.{bit_xor}
use steam_account_manager.Common.{
  ℕ, zero, suc, ◌+◌, ◌-◌, ◌*◌, ◌/◌, ◌%◌, ◌≤◌, ◌<◌, ◌≡◌, refl, sym, ◌∙◌, ap, Bool, true, arith, ◌==◌,
  ==_iff, List, [], ◌∷◌, ◌++◌, length, length-append, length-take, length-drop, get_or, take, drop,
  drop-append, if◌then◌else◌, Bool-cases, inl, inr,
}
use steam_account_manager.Common.Every.{every}
use steam_account_manager.Common.Bits.{passes_below, passes_below-at}
use steam_account_manager.Common.Xor.{xor_none}
use steam_account_manager.Crypto.Rijndael.{
  s_box, rcon, sub_word, xor_bytes, schedule_word, word_at, expansion_loop, key_expansion,
}
use steam_account_manager.Crypto.Rijndael.Inverse.{double}
use steam_account_manager.Crypto.Rijndael.Steps.{sub_bytes, length-xor_bytes}

-- The powers of x.
round_constant : ℕ → ℕ
round_constant zero = 0
round_constant (suc zero) = 1
round_constant (suc (suc r)) = double (round_constant (suc r))

rotated : List ℕ → List ℕ
rotated [] = []
rotated (b ∷ t) = t ++ (b ∷ [])

marked : ℕ → List ℕ → List ℕ
marked c [] = []
marked c (b ∷ t) = bit_xor b c ∷ t

-- Word `i`, from the word eight places back and the last one.
next_word : ℕ → List ℕ → List ℕ → List ℕ
next_word i back last =
    if i % 8 == 0
    then xor_bytes back (marked (round_constant (i / 8)) (sub_bytes (rotated last)))
    else if i % 8 == 4
    then xor_bytes back (sub_bytes last)
    else xor_bytes back last

-- The word that stands `j` places before the last of `ws`, which has its last word first.
word_before : List (List ℕ) → ℕ → List ℕ
word_before [] j = []
word_before (t ∷ ws) zero = t
word_before (t ∷ ws) (suc j) = word_before ws j

-- The `n` words from word `i` on, put before those made so far.
words_from : ℕ → ℕ → List (List ℕ) → List (List ℕ)
words_from zero i ws = ws
words_from (suc n) i ws =
    words_from n (suc i) (next_word i (word_before ws 7) (word_before ws 0) ∷ ws)

bytes_of : List (List ℕ) → List ℕ
bytes_of [] = []
bytes_of (t ∷ ws) = bytes_of ws ++ t

-- The first `n` words of the key.
key_words : ℕ → List ℕ → List (List ℕ)
key_words zero key = []
key_words (suc n) key = take 4 (drop (n * 4) key) ∷ key_words n key

-- The 480 bytes of the round keys: the 8 words of the key and 112 further words.
pub standard_schedule : List ℕ → List ℕ
standard_schedule key = bytes_of (words_from 112 8 (key_words 8 key))

is_word : List ℕ → Bool
is_word t = length t == 4

length-bytes_of :
    (ws : List (List ℕ)) → every is_word ws ≡ true → length (bytes_of ws) ≡ length ws * 4
unfolding bytes_of every is_word
length-bytes_of [] h = refl
length-bytes_of (t ∷ ws) h =
    let e : length t ≡ 4 = ground (arith, h) in
    let rest : every is_word ws ≡ true = ground (arith, h) in
    omega (arith, length-append (bytes_of ws) t, e, length-bytes_of ws rest)

take_whole : (n : ℕ) (t : List ℕ) → length t ≡ n → take n t ≡ t
take_whole zero [] h = refl
take_whole zero (b ∷ t) h = absurd (omega arith)
take_whole (suc n) [] h = absurd (omega arith)
take_whole (suc n) (b ∷ t) h = ap (b ∷◌) (take_whole n t (omega arith))

take_front : (n : ℕ) (s t : List ℕ) → n ≤ length s → take n (s ++ t) ≡ take n s
take_front zero s t h = refl
take_front (suc n) [] t h = absurd (omega arith)
take_front (suc n) (b ∷ s) t h = ap (b ∷◌) (take_front n s t (omega arith))

drop_front : (n : ℕ) (s t : List ℕ) → n ≤ length s → drop n (s ++ t) ≡ drop n s ++ t
drop_front zero s t h = refl
drop_front (suc n) [] t h = absurd (omega arith)
drop_front (suc n) (b ∷ s) t h = drop_front n s t (omega arith)

word_at-front : (i : ℕ) (s t : List ℕ) → i * 4 + 4 ≤ length s → word_at (s ++ t) i ≡ word_at s i
unfolding word_at
word_at-front i s t h =
    ap (take 4) (drop_front (i * 4) s t (omega arith))
    ∙ take_front 4 (drop (i * 4) s) t (omega (arith, length-drop (i * 4) s))

word_at-last : (i : ℕ) (s t : List ℕ) → length s ≡ i * 4 → length t ≡ 4 → word_at (s ++ t) i ≡ t
unfolding word_at
word_at-last i s t h k = ap (take 4) (rw h at (drop-append s t)) ∙ take_whole 4 t k

word_at-bytes_of :
    (i j : ℕ) (ws : List (List ℕ))
    → length ws ≡ i + suc j
    → every is_word ws ≡ true
    → word_at (bytes_of ws) i ≡ word_before ws j
unfolding bytes_of word_before every is_word
word_at-bytes_of i j [] h k = absurd (omega arith)
word_at-bytes_of i zero (t ∷ ws) h k =
    let e : length t ≡ 4 = ground (arith, k) in
    let rest : every is_word ws ≡ true = ground (arith, k) in
    word_at-last i (bytes_of ws) t (omega (arith, length-bytes_of ws rest)) e
word_at-bytes_of i (suc j) (t ∷ ws) h k =
    let rest : every is_word ws ≡ true = ground (arith, k) in
    word_at-front i (bytes_of ws) t (omega (arith, length-bytes_of ws rest))
    ∙ word_at-bytes_of i j ws (omega arith) rest

constant_table : passes_below (λ r. get_or rcon r 0 == round_constant r) 15 ≡ true
unfolding passes_below round_constant double
constant_table = refl

-- The code's next word is the standard's.
schedule_word-next_word :
    (i : ℕ) (back last : List ℕ)
    → i < 120
    → length last ≡ 4
    → xor_bytes back (schedule_word i last) ≡ next_word i back last
unfolding schedule_word next_word sub_word sub_bytes marked rotated xor_bytes
schedule_word-next_word i back [] h k = absurd (omega arith)
schedule_word-next_word i back (a ∷ []) h k = absurd (omega arith)
schedule_word-next_word i back (a ∷ b ∷ []) h k = absurd (omega arith)
schedule_word-next_word i back (a ∷ b ∷ c ∷ []) h k = absurd (omega arith)
schedule_word-next_word i back (a ∷ b ∷ c ∷ d ∷ []) h k =
    let constant : get_or rcon (i / 8) 0 ≡ round_constant (i / 8) = (==_iff _ _).0 (
      passes_below-at (λ r. get_or rcon r 0 == round_constant r) constant_table (i / 8)
        (omega arith)) in
    elim (Bool-cases (i % 8 == 0)) [
      | inl e ↦
          rw
            (
              e,
              constant,
              xor_none (get_or s_box c 0),
              xor_none (get_or s_box d 0),
              xor_none (get_or s_box a 0),
            )
            refl
      | inr e ↦ elim (Bool-cases (i % 8 == 4)) [ inl f ↦ rw (e, f) refl | inr f ↦ rw (e, f) refl ]
    ]
schedule_word-next_word i back (a ∷ b ∷ c ∷ d ∷ e ∷ t) h k = absurd (omega arith)

length-next_word :
    (i : ℕ) (back last : List ℕ)
    → i < 120
    → length back ≡ 4
    → length last ≡ 4
    → length (next_word i back last) ≡ 4
unfolding next_word sub_bytes marked rotated
length-next_word i back [] h k l = absurd (omega arith)
length-next_word i back (a ∷ []) h k l = absurd (omega arith)
length-next_word i back (a ∷ b ∷ []) h k l = absurd (omega arith)
length-next_word i back (a ∷ b ∷ c ∷ []) h k l = absurd (omega arith)
length-next_word i back (a ∷ b ∷ c ∷ d ∷ []) h k l =
    let sum = λ (t : List ℕ) (e : length t ≡ 4). length-xor_bytes back t (omega arith) ∙ k in
    elim (Bool-cases (i % 8 == 0)) [
      | inl e ↦ rw e (sum _ refl)
      | inr e ↦ elim (Bool-cases (i % 8 == 4)) [
        | inl f ↦ rw (e, f) (sum _ refl)
        | inr f ↦ rw (e, f) (sum _ refl)
      ]
    ]
length-next_word i back (a ∷ b ∷ c ∷ d ∷ e ∷ t) h k l = absurd (omega arith)

length-word_before :
    (ws : List (List ℕ)) (j : ℕ)
    → j < length ws
    → every is_word ws ≡ true
    → length (word_before ws j) ≡ 4
unfolding word_before every is_word
length-word_before [] j h k = absurd (omega arith)
length-word_before (t ∷ ws) zero h k = ground (arith, k)
length-word_before (t ∷ ws) (suc j) h k = length-word_before ws j (omega arith) (ground (arith, k))

cons_word :
    (t : List ℕ) (ws : List (List ℕ))
    → length t ≡ 4
    → every is_word ws ≡ true
    → every is_word (t ∷ ws) ≡ true
unfolding every is_word
cons_word t ws h k = ground (arith, h, k)

-- The loop of the code makes the bytes of the standard's words.
expansion_loop-words_from :
    (n i : ℕ) (ws : List (List ℕ))
    → 8 ≤ i
    → i + n ≤ 120
    → length ws ≡ i
    → every is_word ws ≡ true
    → expansion_loop n i (bytes_of ws) ≡ bytes_of (words_from n i ws)
unfolding expansion_loop words_from bytes_of
expansion_loop-words_from zero i ws h k l m = refl
expansion_loop-words_from (suc n) i ws h k l m =
    let back : List ℕ = word_before ws 7 in
    let last : List ℕ = word_before ws 0 in
    let four = length-word_before ws 0 (omega arith) m in
    let next : List ℕ = next_word i back last in
    let size =
      length-next_word i back last (omega arith) (length-word_before ws 7 (omega arith) m) four in
    rw
      (
        word_at-bytes_of (i - 8) 7 ws (omega arith) m,
        word_at-bytes_of (i - 1) 0 ws (omega arith) m,
        schedule_word-next_word i back last (omega arith) four,
      )
      (expansion_loop-words_from n (suc i) (next ∷ ws) (omega arith) (omega arith) (omega arith)
        (cons_word next ws size m))

take_more : (m n k : ℕ) (s : List ℕ) → k ≡ m + n → take m s ++ take n (drop m s) ≡ take k s
take_more zero n k s h = ap (λ (i : ℕ). take i s) (omega arith)
take_more (suc m) n zero s h = absurd (omega arith)
take_more (suc m) zero (suc k) [] h = refl
take_more (suc m) (suc n) (suc k) [] h = refl
take_more (suc m) n (suc k) (b ∷ s) h = ap (b ∷◌) (take_more m n k s (omega arith))

bytes_of-key_words : (n : ℕ) (key : List ℕ) → bytes_of (key_words n key) ≡ take (n * 4) key
unfolding bytes_of key_words
bytes_of-key_words zero key = refl
bytes_of-key_words (suc n) key =
    ap (λ (t : List ℕ). t ++ take 4 (drop (n * 4) key)) (bytes_of-key_words n key)
    ∙ take_more (n * 4) 4 (suc n * 4) key (omega arith)

key_words-words :
    (n : ℕ) (key : List ℕ)
    → n * 4 ≤ length key
    → (length (key_words n key) ≡ n) × (every is_word (key_words n key) ≡ true)
unfolding key_words
key_words-words zero key h = (refl, unfold every in refl)
key_words-words (suc n) key h =
    let (p, q) = key_words-words n key (omega arith) in
    (
      ap suc p,
      cons_word (take 4 (drop (n * 4) key)) (key_words n key)
          (omega (arith, length-take 4 (drop (n * 4) key), length-drop (n * 4) key)) q,
    )

-- key_expansion makes the standard's key schedule.
pub key_expansion-standard_schedule :
    (key : List ℕ) → length key ≡ 32 → key_expansion key ≡ standard_schedule key
unfolding key_expansion standard_schedule
key_expansion-standard_schedule key h =
    let (p, q) = key_words-words 8 key (omega arith) in
    ap (expansion_loop 112 8) (sym (bytes_of-key_words 8 key))
    ∙ expansion_loop-words_from 112 8 (key_words 8 key) (omega arith) (omega arith) p q
