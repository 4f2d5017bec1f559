-- ===== src/Common/Text/Numbers.antt =====
-- Digits at the start of a text, as the C++ library reads them.
use steam_account_manager.Common.{
  ℕ, ◌^◌, ◌<◌, List, [], ◌∷◌, true, false, ◌≡◌, refl, arith, some, text_eq,
}
use steam_account_manager.Common.Int.{pos}
use steam_account_manager.Common.Text.{skip_spaces, signed, read_digits, digits_first, stoull, stoi}

-- Neither spaces nor a sign stand before digits.
skip_spaces_lem : (s : List ℕ) → digits_first s ≡ true → skip_spaces s ≡ s
unfolding skip_spaces digits_first
skip_spaces_lem [] h = refl
skip_spaces_lem (c ∷ s) h = ground (arith, h)

signed_lem : (s : List ℕ) → digits_first s ≡ true → signed s ≡ (false, s)
unfolding signed digits_first
signed_lem [] h = refl
signed_lem (c ∷ s) h = ground (arith, h)

pub stoull_lem :
    (s : List ℕ)
    → digits_first s ≡ true
    → read_digits 0 s < 2 ^ 64
    → stoull s ≡ some (read_digits 0 s)
unfolding stoull
stoull_lem s h k = rw (skip_spaces_lem s h, signed_lem s h, h) (ground (arith, k))

pub stoi_lem :
    (s : List ℕ)
    → digits_first s ≡ true
    → read_digits 0 s < 2 ^ 31
    → stoi s ≡ some (pos (read_digits 0 s))
unfolding stoi
stoi_lem s h k = rw (skip_spaces_lem s h, signed_lem s h, h) (ground (arith, k))

pub first_not_empty : (s : List ℕ) → digits_first s ≡ true → text_eq s [] ≡ false
unfolding text_eq digits_first
first_not_empty [] h = ground (arith, h)
first_not_empty (c ∷ s) h = refl
