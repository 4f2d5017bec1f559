-- ===== src/Crypto/Padding.antt =====
-- core/crypto/aes_cbc.cpp and core/crypto/rijndael256.cpp: the padding of a decrypted text.
use steam_account_manager.Common.{
  ℕ, zero, suc, ◌+◌, ◌-◌, ◌%◌, ◌≤◌, ◌<◌, ◌≡◌, ◌↔◌, refl, sym, ◌∙◌, ap, true, false, ◌||◌, arith,
  List, [], ◌∷◌, ◌++◌, length, length-append, length-drop, take, drop, take-append, drop-append,
  take-append-drop, replicate, length-replicate, get_or, ltb, ◌==◌, Bool, lt→ltb,
}
use native.Mathlib.Nat.{mod-lt, mod-eq_of_lt}
use steam_account_manager.Common.Every.{every, every-append}
use steam_account_manager.Crypto.{ok, strip_padding, pad_text}

get_or-append : (p s : List ℕ) (i : ℕ) → get_or (p ++ s) (length p + i) 0 ≡ get_or s i 0
get_or-append [] s i = let e : 0 + i ≡ i = omega arith in rw e refl
get_or-append (x ∷ p) s i =
    let e : suc (length p) + i ≡ suc (length p + i) = omega arith in rw e (get_or-append p s i)

get_or-replicate : (n i a : ℕ) → i < n → get_or (replicate n a) i 0 ≡ a
get_or-replicate zero i a h = absurd (omega arith)
get_or-replicate (suc n) zero a h = refl
get_or-replicate (suc n) (suc i) a h = get_or-replicate n i a (omega arith)

every-replicate : (n a : ℕ) → every (λ b. b == a) (replicate n a) ≡ true
unfolding every
every-replicate zero a = refl
every-replicate (suc n) a = ground (arith, every-replicate n a)

all_same : (a : ℕ) (s : List ℕ) → every (λ b. b == a) s ≡ true → s ≡ replicate (length s) a
unfolding every
all_same a [] h = refl
all_same a (b ∷ s) h = ground (arith, all_same a s)

-- Whatever the padding holds, `strip_padding` on a text that has it.
strip_padding-padded :
    (block n : ℕ) (p : List ℕ) → 1 ≤ n → n ≤ block → strip_padding block (p ++ replicate n n) ≡ ok p
unfolding strip_padding
strip_padding-padded block n p h k =
    let size : length (p ++ replicate n n) ≡ length p + n =
      omega (arith, length-append p (replicate n n), length-replicate n n) in
    let place : length (p ++ replicate n n) - 1 ≡ length p + (n - 1) = omega (arith, size) in
    let pad : get_or (p ++ replicate n n) (length (p ++ replicate n n) - 1) 0 ≡ n =
      rw place
        (get_or-append p (replicate n n) (n - 1) ∙ get_or-replicate n (n - 1) n (omega arith)) in
    let rest : length (p ++ replicate n n) - n ≡ length p = omega (arith, size) in
    let fits : (n == 0 || (ltb block n || ltb (length (p ++ replicate n n)) n)) ≡ false =
      ground (arith, size, h, k) in
    rw
      (
        pad,
        fits,
        rest,
        drop-append p (replicate n n),
        every-replicate n n,
        take-append p (replicate n n),
      )
      refl

split_stripped :
    (block n : ℕ) (out p : List ℕ)
    → get_or out (length out - 1) 0 ≡ n
    → strip_padding block out ≡ ok p
    → (1 ≤ n)
      × (n ≤ block)
      × (n ≤ length out)
      × (every (λ b. b == n) (drop (length out - n) out) ≡ true)
      × (take (length out - n) out ≡ p)
unfolding strip_padding
split_stripped block n out p e h = let h' = rw e at h in ground (arith, h')

-- The end of both decryptions succeeds with a text exactly if the decrypted bytes are this text
-- and n bytes of value n, for some n from 1 to the size of a block.
pub strip_padding_iff :
    (block : ℕ) (out p : List ℕ)
    → (strip_padding block out ≡ ok p)
      ↔ ((n : ℕ) × (1 ≤ n) × (n ≤ block) × (out ≡ p ++ replicate n n))
strip_padding_iff block out p = (to, from)
  where
    to :
        strip_padding block out ≡ ok p
        → (n : ℕ) × (1 ≤ n) × (n ≤ block) × (out ≡ p ++ replicate n n)
    to h =
        let n = get_or out (length out - 1) 0 in
        let (some_, most, fits, same, front) = split_stripped block n out p refl h in
        let size : length (drop (length out - n) out) ≡ n =
          omega (arith, length-drop (length out - n) out) in
        (
          n,
          some_,
          most,
          sym (take-append-drop (length out - n) out)
              ∙ ap (λ (t : List ℕ). t ++ drop (length out - n) out) front
              ∙ ap (◌++◌ p) (
                  all_same n (drop (length out - n) out) same ∙ ap (λ (k : ℕ). replicate k n) size),
        )

    from :
        ((n : ℕ) × (1 ≤ n) × (n ≤ block) × (out ≡ p ++ replicate n n))
        → strip_padding block out ≡ ok p
    from (n, k, l, e) = rw e (strip_padding-padded block n p k l)

pub strip_padding-pad_text :
    (block : ℕ) (text : List ℕ)
    → 1 ≤ block
    → block < 256
    → strip_padding block (pad_text block text) ≡ ok text
unfolding pad_text
strip_padding-pad_text block text h k =
    let n : ℕ = block - length text % block in
    let below : length text % block < block = mod-lt (length text) h in
    let e : n % 256 ≡ n = mod-eq_of_lt (omega arith) in
    rw e (strip_padding-padded block n text (omega (arith, below)) (omega arith))

pub length-pad_text :
    (block : ℕ) (text : List ℕ)
    → length (pad_text block text) ≡ length text + (block - length text % block)
unfolding pad_text
length-pad_text block text =
    let n : ℕ = block - length text % block in
    omega (arith, length-append text (replicate n (n % 256)), length-replicate n (n % 256))

every-copies : (test : ℕ → Bool) (n a : ℕ) → test a ≡ true → every test (replicate n a) ≡ true
unfolding every
every-copies test zero a h = refl
every-copies test (suc n) a h = rw h (every-copies test n a h)

pub pad_text-bytes :
    (block : ℕ) (text : List ℕ)
    → every (λ b. ltb b 256) text ≡ true
    → every (λ b. ltb b 256) (pad_text block text) ≡ true
unfolding pad_text
pad_text-bytes block text h =
    let n : ℕ = block - length text % block in
    every-append (λ b. ltb b 256) text _ h
      (every-copies (λ b. ltb b 256) n (n % 256) (lt→ltb _ _ (omega arith)))
