-- ===== src/Cs2/FriendCode/Letters.antt =====
-- core/cs2/friend_code.cpp: the letters of a code, read back.
use Prim.Native.Nat.{bit_and}
use native.Mathlib.Nat.{pow-suc}
use steam_account_manager.Common.{
  ℕ, zero, suc, ◌+◌, ◌*◌, ◌/◌, ◌%◌, ◌^◌, ◌<◌, ◌≡◌, refl, ◌∙◌, ap, Bool, true, false, not, ◌&&◌,
  ◌||◌, arith, List, [], ◌∷◌, if◌then◌else◌, ◌==◌, ==_iff, get_or, text_eq, Bool-cases, inl, inr,
}
use steam_account_manager.Common.Every.{both}
use steam_account_manager.Common.Bits.{bit_and_31, passes_below, passes_below-at}
use steam_account_manager.Cs2.FriendCode.{alphabet, letter_loop, without_prefix}

-- The place of a letter in a list.
position : List ℕ → ℕ → ℕ
position [] c = 0
position (d ∷ ds) c = if d == c then 0 else suc (position ds c)

-- The number that letters were made from; the dashes are passed over.
pub unread : List ℕ → ℕ
unread [] = 0
unread (c ∷ cs) = if c == b'-' then unread cs else position alphabet c + 32 * unread cs

letter_table :
    passes_below
      (λ d. position alphabet (get_or alphabet d 0) == d && not (get_or alphabet d 0 == b'-'))
      32
    ≡ true
unfolding passes_below position
letter_table = refl

unread_letter :
    (d : ℕ) (cs : List ℕ) → d < 32 → unread (get_or alphabet d 0 ∷ cs) ≡ d + 32 * unread cs
unfolding unread
unread_letter d cs h =
    let (p, q) = both _ _ (
      passes_below-at
        (λ d. position alphabet (get_or alphabet d 0) == d && not (get_or alphabet d 0 == b'-'))
        letter_table d h) in
    pick _ _ (get_or alphabet d 0 == b'-') q ∙ ap (λ (x : ℕ). x + 32 * unread cs) ((==_iff _ _).0 p)
  where
    pick : (x y : ℕ) (b : Bool) → not b ≡ true → (if b then x else y) ≡ y
    pick x y true e = ground (arith, e)
    pick x y false e = refl

unread_dash : (cs : List ℕ) → unread (b'-' ∷ cs) ≡ unread cs
unfolding unread
unread_dash cs = refl

pub unread-letter_loop : (n i v : ℕ) → v < 32 ^ n → unread (letter_loop n i v) ≡ v
unfolding letter_loop
unread-letter_loop zero i v h = unfold unread in omega arith
unread-letter_loop (suc n) i v h =
    let rest = unread-letter_loop n (suc i) (v / 2 ^ 5) (omega (arith, pow-suc 32 n)) in
    let e : unread (get_or alphabet (bit_and v 0x1f) 0 ∷ letter_loop n (suc i) (v / 2 ^ 5)) ≡ v =
      rw (bit_and_31 v) (
        unread_letter (v % 32) (letter_loop n (suc i) (v / 2 ^ 5)) (omega arith)
        ∙ omega (arith, rest)) in
    elim (Bool-cases (i == 4 || i == 9)) [
      | inl b ↦
          rw b (
            unread_dash (get_or alphabet (bit_and v 0x1f) 0 ∷ letter_loop n (suc i) (v / 2 ^ 5))
            ∙ e)
      | inr b ↦ rw b e
    ]

-- What stands behind the first five characters.
pub last_letters : ℕ → List ℕ
last_letters x = get_or alphabet (bit_and x 0x1f) 0 ∷ letter_loop 8 5 (x / 32)

pub without_prefix-letter_loop :
    (x : ℕ) → without_prefix (letter_loop 13 0 (x * 2 ^ 20)) ≡ last_letters x
unfolding without_prefix letter_loop last_letters text_eq
without_prefix-letter_loop x =
    let q : x * 2 ^ 20 / 32 / 32 / 32 / 32 ≡ x = omega arith in
    let e0 : bit_and (x * 2 ^ 20) 31 ≡ 0 = omega (arith, bit_and_31 (x * 2 ^ 20)) in
    let e1 : bit_and (x * 2 ^ 20 / 32) 31 ≡ 0 = omega (arith, bit_and_31 (x * 2 ^ 20 / 32)) in
    let e2 : bit_and (x * 2 ^ 20 / 32 / 32) 31 ≡ 0 =
      omega (arith, bit_and_31 (x * 2 ^ 20 / 32 / 32)) in
    let e3 : bit_and (x * 2 ^ 20 / 32 / 32 / 32) 31 ≡ 0 =
      omega (arith, bit_and_31 (x * 2 ^ 20 / 32 / 32 / 32)) in
    rw (q, e0, e1, e2, e3) refl

pub unread-last_letters : (x : ℕ) → x < 32 ^ 9 → unread (last_letters x) ≡ x
unfolding last_letters letter_loop unread
unread-last_letters x h = unread-letter_loop 9 4 x h
