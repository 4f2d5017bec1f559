-- ===== src/Common/Masks.antt =====
-- Setting, testing and clearing the top bit of a number.
use Prim.Native.Nat.{bit_and, bit_or}
use native.Mathlib.Nat.{pow-suc}
use steam_account_manager.Common.{
  ℕ, zero, suc, ◌+◌, ◌-◌, ◌*◌, ◌/◌, ◌%◌, ◌^◌, ◌≤◌, ◌<◌, ◌≡◌, refl, arith,
}
use steam_account_manager.Common.Bits.{bit_and_split, bit_or_split}

-- Halving `2 ^ k` and one less than it.
module _ (k : ℕ) where
  pub half_pow : 2 ^ suc k / 2 ≡ 2 ^ k
  half_pow = omega (arith, pow-suc 2 k)

  pub pow_even : 2 ^ suc k % 2 ≡ 0
  pow_even = omega (arith, pow-suc 2 k)

pow_positive : (k : ℕ) → 1 ≤ 2 ^ k
pow_positive zero = omega arith
pow_positive (suc k) = omega (arith, pow-suc 2 k, pow_positive k)

and_split_pow : (k x : ℕ) → bit_and x (2 ^ suc k) ≡ bit_and (x / 2) (2 ^ k) * 2
and_split_pow k x =
    let e = half_pow k in
    let z = pow_even k in omega (arith, rw (e, z) at (bit_and_split x (2 ^ suc k)))

or_split_pow : (k x : ℕ) → bit_or x (2 ^ suc k) ≡ bit_or (x / 2) (2 ^ k) * 2 + x % 2
or_split_pow k x =
    let e = half_pow k in
    let z = pow_even k in omega (arith, rw (e, z) at (bit_or_split x (2 ^ suc k)))

pub bit_or_clear : (k x : ℕ) → x < 2 ^ k → bit_or x (2 ^ k) ≡ x + 2 ^ k
bit_or_clear zero x h = let e : x ≡ 0 = omega arith in rw e refl
bit_or_clear (suc k) x h =
    omega
      (arith, or_split_pow k x, bit_or_clear k (x / 2) (omega (arith, pow-suc 2 k)), pow-suc 2 k)

pub bit_and_clear : (k x : ℕ) → x < 2 ^ k → bit_and x (2 ^ k) ≡ 0
bit_and_clear zero x h = let e : x ≡ 0 = omega arith in rw e refl
bit_and_clear (suc k) x h =
    omega
      (arith, and_split_pow k x, bit_and_clear k (x / 2) (omega (arith, pow-suc 2 k)), pow-suc 2 k)

pub bit_or_set : (k x : ℕ) → 2 ^ k ≤ x → x < 2 ^ suc k → bit_or x (2 ^ k) ≡ x
bit_or_set zero x g h = let e : x ≡ 1 = omega arith in rw e refl
bit_or_set (suc k) x g h = omega (
  arith,
  or_split_pow k x,
  bit_or_set k (x / 2) (omega (arith, pow-suc 2 k)) (omega (arith, pow-suc 2 k, pow-suc 2 (suc k))),
)

pub bit_and_set : (k x : ℕ) → 2 ^ k ≤ x → x < 2 ^ suc k → bit_and x (2 ^ k) ≡ 2 ^ k
bit_and_set zero x g h = let e : x ≡ 1 = omega arith in rw e refl
bit_and_set (suc k) x g h = omega (
  arith,
  and_split_pow k x,
  bit_and_set k (x / 2) (omega (arith, pow-suc 2 k))
      (omega (arith, pow-suc 2 k, pow-suc 2 (suc k))),
  pow-suc 2 k,
)

-- The bits below the top one: `2 ^ k - 1`.
and_split_low : (k x : ℕ) → bit_and x (2 ^ suc k - 1) ≡ bit_and (x / 2) (2 ^ k - 1) * 2 + x % 2
and_split_low k x =
    let e : (2 ^ suc k - 1) / 2 ≡ 2 ^ k - 1 = omega (arith, pow-suc 2 k, pow_positive k) in
    let z : (2 ^ suc k - 1) % 2 ≡ 1 = omega (arith, pow-suc 2 k, pow_positive k) in
    omega (arith, rw (e, z) at (bit_and_split x (2 ^ suc k - 1)))

pub bit_and_low : (k x : ℕ) → x < 2 ^ k → bit_and x (2 ^ k - 1) ≡ x
bit_and_low zero x h = let e : x ≡ 0 = omega arith in rw e refl
bit_and_low (suc k) x h =
    omega (arith, and_split_low k x, bit_and_low k (x / 2) (omega (arith, pow-suc 2 k)))

pub bit_and_drop : (k x : ℕ) → 2 ^ k ≤ x → x < 2 ^ suc k → bit_and x (2 ^ k - 1) ≡ x - 2 ^ k
bit_and_drop zero x g h = let e : x ≡ 1 = omega arith in rw e refl
bit_and_drop (suc k) x g h = omega (
  arith,
  and_split_low k x,
  bit_and_drop k (x / 2) (omega (arith, pow-suc 2 k))
      (omega (arith, pow-suc 2 k, pow-suc 2 (suc k))),
  pow-suc 2 k,
)
