-- ===== src/SteamLocal/Decimal.antt =====
-- `std::to_string`, which core/steam_local/loginusers.cpp writes numbers with, beside the library's
-- reading of numbers.
use native.Mathlib.Nat.{pow-suc}
use steam_account_manager.Common.{
  ℕ, zero, suc, ◌+◌, ◌*◌, ◌/◌, ◌%◌, ◌^◌, ◌<◌, ◌≡◌, refl, ◌∙◌, ap, arith, true, false, not, ◌==◌,
  List, [], ◌∷◌, ltb, Bool-cases, inl, inr,
}
use steam_account_manager.Common.Every.{every, every_weaken}
use steam_account_manager.Common.Text.{is_digit, read_digits, digits_first}
use steam_account_manager.Common.Text.Split.{lacks}
use steam_account_manager.SteamLocal.{decimal_from, to_string}

read_digit :
    (v d : ℕ) (s : List ℕ) → d < 10 → read_digits v ((b'0' + d) ∷ s) ≡ read_digits (v * 10 + d) s
unfolding read_digits
read_digit v d s h = ground (arith, h)

-- Digits in front of `out` are read before it.
decimal_from-read :
    (fuel n : ℕ) (out : List ℕ)
    → n < 10 ^ fuel
    → read_digits 0 (decimal_from fuel n out) ≡ read_digits n out
unfolding decimal_from
decimal_from-read zero n out h = let e : n ≡ 0 = omega arith in rw e refl
decimal_from-read (suc fuel) n out h =
    let e = read_digit 0 (n % 10) out (omega arith) in
    let f = read_digit (n / 10) (n % 10) out (omega arith) in
    let g =
      decimal_from-read fuel (n / 10) ((b'0' + n % 10) ∷ out) (omega (arith, pow-suc 10 fuel)) in
    elim (Bool-cases (ltb n 10)) [
      | inl b ↦ rw b (e ∙ ap (λ (m : ℕ). read_digits m out) (ground (arith, b)))
      | inr b ↦ rw b (g ∙ f ∙ ap (λ (m : ℕ). read_digits m out) (omega arith))
    ]

decimal_from-digits :
    (fuel n : ℕ) (out : List ℕ)
    → every is_digit out ≡ true
    → every is_digit (decimal_from fuel n out) ≡ true
unfolding decimal_from every
decimal_from-digits zero n out h = h
decimal_from-digits (suc fuel) n out h =
    let more : every is_digit ((b'0' + n % 10) ∷ out) ≡ true = ground (arith, h) in
    let g = decimal_from-digits fuel (n / 10) ((b'0' + n % 10) ∷ out) more in
    ground (arith, more, g)

decimal_from-first :
    (fuel n : ℕ) (out : List ℕ)
    → digits_first out ≡ true
    → digits_first (decimal_from fuel n out) ≡ true
unfolding decimal_from digits_first
decimal_from-first zero n out h = h
decimal_from-first (suc fuel) n out h =
    let g = decimal_from-first fuel (n / 10) ((b'0' + n % 10) ∷ out) (ground arith) in
    ground (arith, g)

pub to_string-digits : (n : ℕ) → every is_digit (to_string n) ≡ true
unfolding to_string every
to_string-digits n = decimal_from-digits 20 n [] refl

pub to_string-first : (n : ℕ) → digits_first (to_string n) ≡ true
unfolding to_string decimal_from digits_first
to_string-first n =
    let g = decimal_from-first 19 (n / 10) ((b'0' + n % 10) ∷ []) (ground arith) in
    ground (arith, g)

pub to_string-read : (n : ℕ) → n < 2 ^ 64 → read_digits 0 (to_string n) ≡ n
unfolding to_string
to_string-read n h = decimal_from-read 20 n [] (omega arith) ∙ unfold read_digits in refl

pub to_string-lacks : (c n : ℕ) → is_digit c ≡ false → lacks c (to_string n) ≡ true
to_string-lacks c n h =
    every_weaken is_digit (λ d. not (d == c)) (to_string n) (λ d e. differs c d h e)
      (to_string-digits n)
  where
    differs : (c d : ℕ) → is_digit c ≡ false → is_digit d ≡ true → not (d == c) ≡ true
    differs c d h k = ground (arith, h, k)
