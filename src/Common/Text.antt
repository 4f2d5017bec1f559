-- ===== src/Common/Text.antt =====
-- Cutting a text, and the C++ library's numbers in text.
pub mod Split
pub mod Numbers
use Prim.Native.Nat.{ℕ, zero, suc, ◌+◌, ◌-◌, ◌*◌, ◌^◌, ◌%◌}
use steam_account_manager.Common.{
  List, [], ◌∷◌, ◌++◌, Bool, true, false, not, ◌&&◌, ◌||◌, Option, none, some, if◌then◌else◌, ltb,
  leb, ◌==◌, drop,
}
use steam_account_manager.Common.Int.{ℤ, pos, sub_ℕ, ltb_ℤ}

-- `std::isspace`, in the "C" locale.
abbrev pub is_space : ℕ → Bool
is_space c = c == b' ' || (leb 9 c && leb c 13)

abbrev pub is_digit : ℕ → Bool
is_digit c = leb b'0' c && leb c b'9'

abbrev pub Halves : Type 0
Halves = Option (List ℕ × List ℕ)

-- A character in front of the first half.
abbrev pub push_front : ℕ → Halves → Halves
push_front c none = none
push_front c (some (a, b)) = some (c ∷ a, b)

-- What stands before and behind the first `c`: `find` and two calls of `substr`.
unfoldable pub split_first : ℕ → List ℕ → Halves
split_first c [] = none
split_first c (d ∷ s) =
    let rest = split_first c s in if d == c then some ([], s) else push_front d rest

-- The same at the last `c`: `rfind`.
unfoldable pub split_last : ℕ → List ℕ → Halves
split_last c [] = none
split_last c (d ∷ s) =
    let rest = split_last c s in
    elim rest [ some (a, b) ↦ some (d ∷ a, b) | none ↦ if d == c then some ([], s) else none ]

unfoldable pub skip_spaces : List ℕ → List ℕ
skip_spaces [] = []
skip_spaces (c ∷ s) = let rest = skip_spaces s in if is_space c then rest else c ∷ s

-- The number that leading digits spell, after `v`.
unfoldable pub read_digits : ℕ → List ℕ → ℕ
read_digits v [] = v
read_digits v (c ∷ s) =
    let rest = read_digits (v * 10 + (c - b'0')) s in if is_digit c then rest else v

unfoldable pub digits_first : List ℕ → Bool
digits_first [] = false
digits_first (c ∷ s) = is_digit c

-- A sign, if there is one, and what follows.
unfoldable pub signed : List ℕ → Bool × List ℕ
signed [] = (false, [])
signed (c ∷ s) = if c == b'-' then (true, s) else if c == b'+' then (false, s) else (false, c ∷ s)

-- `std::stoull`: `none` where it throws. A number behind a minus sign wraps around.
unfoldable pub stoull : List ℕ → Option ℕ
stoull text =
    let (minus, s) = signed (skip_spaces text) in
    let n = read_digits 0 s in
    if not (digits_first s) || leb (2 ^ 64) n
    then none
    else if minus
    then some ((2 ^ 64 - n) % 2 ^ 64)
    else some n

-- `std::stoi`, on an `int` of 32 bits.
unfoldable pub stoi : List ℕ → Option ℤ
stoi text =
    let (minus, s) = signed (skip_spaces text) in
    let n = read_digits 0 s in
    if not (digits_first s)
    then none
    else if minus
    then if ltb (2 ^ 31) n then none else some (sub_ℕ 0 n)
    else if leb (2 ^ 31) n
    then none
    else some (pos n)
