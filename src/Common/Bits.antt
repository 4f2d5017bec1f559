-- ===== src/Common/Bits.antt =====
-- Facts about bit operations: by tables over a byte, and at every width by the digit recursion.
use Prim.Native.Nat.{min, max, bit_and, bit_or, digits, bit_and-bitwise, bit_or-bitwise}
use steam_account_manager.Common.{
  ℕ, zero, suc, ◌+◌, ◌*◌, ◌/◌, ◌%◌, ◌^◌, ◌≤◌, ◌<◌, ◌≡◌, refl, sym, ◌∙◌, ap, Bool, true, ◌&&◌, arith,
}
use native.Mathlib.Nat.{pow-suc}

-- A test that every number below a bound passes, found by running it.
unfoldable pub passes_below : (ℕ → Bool) → ℕ → Bool
passes_below test zero = true
passes_below test (suc bound) = passes_below test bound && test bound

pub passes_below-at :
    (test : ℕ → Bool) {bound : ℕ}
    → passes_below test bound ≡ true
    → (c : ℕ) → c < bound
    → test c ≡ true
unfolding passes_below
passes_below-at test {bound = zero} h c lt = absurd (omega arith)
passes_below-at test {bound = suc n} h c lt =
    ground (arith, λ (e : passes_below test n ≡ true). passes_below-at test {bound = n} e c)

-- Both operations are runs of `digits`. A run ends when the first number has no digit left, so a
-- longer one gives the same.
module _ (rest : ℕ → ℕ) (digit : ℕ → ℕ → ℕ) where
  same_run : (n m x y : ℕ) → x ≤ n → x ≤ m → digits rest digit n x y ≡ digits rest digit m x y
  same_run n m zero y p q = run-zero n ∙ sym (run-zero m)
    where
      run-zero : (k : ℕ) → digits rest digit k 0 y ≡ rest y
      run-zero zero = refl
      run-zero (suc k) = refl
  same_run zero m (suc x) y p q = absurd (omega arith)
  same_run (suc n) zero (suc x) y p q = absurd (omega arith)
  same_run (suc n) (suc m) (suc x) y p q =
      let half : suc x / 2 ≤ x = omega arith in
      ap (λ (r : ℕ). r * 2 + digit (suc x % 2) (y % 2))
        (same_run n m (suc x / 2) (y / 2) (omega (arith, half)) (omega (arith, half)))

  -- One round splits the lowest digits off.
  pub split_run :
      (x y : ℕ)
      → digits rest digit (suc x) (suc x) y
        ≡ digits rest digit (suc x / 2) (suc x / 2) (y / 2) * 2 + digit (suc x % 2) (y % 2)
  split_run x y =
      ap (λ (r : ℕ). r * 2 + digit (suc x % 2) (y % 2))
        (same_run x (suc x / 2) (suc x / 2) (y / 2) (omega arith) (omega arith))

and_nothing : (y : ℕ) → bit_and 0 y ≡ 0
and_nothing = bit_and-bitwise 0

pub bit_and_split : (x y : ℕ) → bit_and x y ≡ bit_and (x / 2) (y / 2) * 2 + min (x % 2) (y % 2)
bit_and_split zero y = omega (arith, and_nothing y, and_nothing (y / 2))
bit_and_split (suc x) y =
    bit_and-bitwise (suc x) y
    ∙ split_run (λ b. zero) min x y
    ∙ ap (λ (r : ℕ). r * 2 + min (suc x % 2) (y % 2)) (sym (bit_and-bitwise (suc x / 2) (y / 2)))

-- A mask with no ones, by halving, for every number up to a bound.
pub and_none : (bound x : ℕ) → x ≤ bound → bit_and x 0 ≡ 0
and_none bound zero h = and_nothing 0
and_none zero (suc x) h = absurd (omega arith)
and_none (suc bound) (suc x) h =
    omega (arith, bit_and_split (suc x) 0, and_none bound (suc x / 2) (omega arith))

pub bit_and_1 : (x : ℕ) → bit_and x 1 ≡ x % 2
bit_and_1 x = omega (arith, bit_and_split x 1, and_none (x / 2) (x / 2) (omega arith))

bit_and_3 : (a : ℕ) → bit_and a 3 ≡ a % 4
bit_and_3 a = omega (arith, bit_and_split a 3, bit_and_1 (a / 2))

bit_and_7 : (a : ℕ) → bit_and a 7 ≡ a % 8
bit_and_7 a = omega (arith, bit_and_split a 7, bit_and_3 (a / 2))

pub bit_and_15 : (a : ℕ) → bit_and a 15 ≡ a % 16
bit_and_15 a = omega (arith, bit_and_split a 15, bit_and_7 (a / 2))

pub bit_and_31 : (a : ℕ) → bit_and a 31 ≡ a % 32
bit_and_31 a = omega (arith, bit_and_split a 31, bit_and_15 (a / 2))

pub bit_and_63 : (a : ℕ) → bit_and a 63 ≡ a % 64
bit_and_63 a = omega (arith, bit_and_split a 63, bit_and_31 (a / 2))

pub bit_and_127 : (a : ℕ) → bit_and a 127 ≡ a % 128
bit_and_127 a = omega (arith, bit_and_split a 127, bit_and_63 (a / 2))

pub bit_and_255 : (a : ℕ) → bit_and a 255 ≡ a % 256
bit_and_255 a = omega (arith, bit_and_split a 255, bit_and_127 (a / 2))

or_nothing : (y : ℕ) → bit_or 0 y ≡ y
or_nothing = bit_or-bitwise 0

pub bit_or_split : (x y : ℕ) → bit_or x y ≡ bit_or (x / 2) (y / 2) * 2 + max (x % 2) (y % 2)
bit_or_split zero y = omega (arith, or_nothing y, or_nothing (y / 2))
bit_or_split (suc x) y =
    bit_or-bitwise (suc x) y
    ∙ split_run (λ b. b) max x y
    ∙ ap (λ (r : ℕ). r * 2 + max (suc x % 2) (y % 2)) (sym (bit_or-bitwise (suc x / 2) (y / 2)))

pub or_none : (bound x : ℕ) → x ≤ bound → bit_or x 0 ≡ x
or_none bound zero h = or_nothing 0
or_none zero (suc x) h = absurd (omega arith)
or_none (suc bound) (suc x) h =
    omega (arith, bit_or_split (suc x) 0, or_none bound (suc x / 2) (omega arith))

or_comm : (bound x y : ℕ) → x ≤ bound → bit_or x y ≡ bit_or y x
or_comm bound zero y h = or_nothing y ∙ sym (or_none y y (omega arith))
or_comm zero (suc x) y h = absurd (omega arith)
or_comm (suc bound) (suc x) y h = omega (
  arith,
  bit_or_split (suc x) y,
  bit_or_split y (suc x),
  or_comm bound (suc x / 2) (y / 2) (omega arith),
)

pub bit_or_comm : (x y : ℕ) → bit_or x y ≡ bit_or y x
bit_or_comm x y = or_comm x x y (omega arith)

-- Where the low `k` bits of one side and the rest of the other are clear, `|` is a sum.
pub bit_or_add : (k a b : ℕ) → b < 2 ^ k → bit_or (a * 2 ^ k) b ≡ a * 2 ^ k + b
bit_or_add zero a b h =
    let e : a * 2 ^ 0 ≡ a = omega arith in
    let z : b ≡ 0 = omega arith in rw (e, z, or_none a a (omega arith)) (omega arith)
bit_or_add (suc k) a b h =
    let t : ℕ = a * 2 ^ k in
    let e : a * 2 ^ suc k ≡ t * 2 = omega (arith, ap (λ (x : ℕ). a * x) (pow-suc 2 k)) in
    let d : t * 2 / 2 ≡ t = omega arith in
    rw e (
      omega (
        arith,
        rw d at (bit_or_split (t * 2) b),
        bit_or_add k a (b / 2) (omega (arith, pow-suc 2 k)),
      ))
