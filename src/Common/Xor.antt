-- ===== src/Common/Xor.antt =====
-- Laws of `^` on numbers of every width, by halving.
use Prim.Native.Nat.{bit_xor, bit_xor-bitwise, differ}
use steam_account_manager.Common.{
  ℕ, zero, suc, ◌+◌, ◌*◌, ◌/◌, ◌%◌, ◌^◌, ◌≤◌, ◌<◌, ◌≡◌, refl, sym, ◌∙◌, ap, arith,
}
use steam_account_manager.Common.Bits.{split_run}
use native.Mathlib.Nat.{pow-suc}

differ_bits : (a b : ℕ) → a < 2 → b < 2 → differ a b ≡ (a + b) % 2
differ_bits zero b h k = omega arith
differ_bits (suc zero) zero h k = refl
differ_bits (suc zero) (suc zero) h k = refl
differ_bits (suc zero) (suc (suc b)) h k = absurd (omega arith)
differ_bits (suc (suc a)) b h k = absurd (omega arith)

pub xor_nothing : (y : ℕ) → bit_xor 0 y ≡ y
xor_nothing = bit_xor-bitwise 0

pub bit_xor_split : (x y : ℕ) → bit_xor x y ≡ bit_xor (x / 2) (y / 2) * 2 + (x % 2 + y % 2) % 2
bit_xor_split zero y = omega (arith, xor_nothing y, xor_nothing (y / 2))
bit_xor_split (suc x) y =
    bit_xor-bitwise (suc x) y
    ∙ split_run (λ b. b) differ x y
    ∙ ap (λ (r : ℕ). r * 2 + differ (suc x % 2) (y % 2)) (sym (bit_xor-bitwise (suc x / 2) (y / 2)))
    ∙ ap (λ (d : ℕ). bit_xor (suc x / 2) (y / 2) * 2 + d)
        (differ_bits (suc x % 2) (y % 2) (omega arith) (omega arith))

-- The two parts of the result.
xor_half : (x y : ℕ) → bit_xor x y / 2 ≡ bit_xor (x / 2) (y / 2)
xor_half x y = omega (arith, bit_xor_split x y)

xor_parity : (x y : ℕ) → bit_xor x y % 2 ≡ (x % 2 + y % 2) % 2
xor_parity x y = omega (arith, bit_xor_split x y)

xor_comm_to : (bound x y : ℕ) → x ≤ bound → y ≤ bound → bit_xor x y ≡ bit_xor y x
xor_comm_to zero x y h k =
    let x_zero : x ≡ 0 = omega arith in let y_zero : y ≡ 0 = omega arith in rw (x_zero, y_zero) refl
xor_comm_to (suc bound) x y h k = omega (
  arith,
  bit_xor_split x y,
  bit_xor_split y x,
  xor_comm_to bound (x / 2) (y / 2) (omega arith) (omega arith),
)

xor_assoc_to :
    (bound x y z : ℕ)
    → x ≤ bound
    → y ≤ bound
    → z ≤ bound
    → bit_xor (bit_xor x y) z ≡ bit_xor x (bit_xor y z)
xor_assoc_to zero x y z h k l =
    let x_zero : x ≡ 0 = omega arith in
    let y_zero : y ≡ 0 = omega arith in
    let z_zero : z ≡ 0 = omega arith in rw (x_zero, y_zero, z_zero) refl
xor_assoc_to (suc bound) x y z h k l = omega (
  arith,
  bit_xor_split (bit_xor x y) z,
  bit_xor_split x (bit_xor y z),
  xor_parity x y,
  xor_parity y z,
  ap (λ (a : ℕ). bit_xor a (z / 2)) (xor_half x y),
  ap (λ (a : ℕ). bit_xor (x / 2) a) (xor_half y z),
  xor_assoc_to bound (x / 2) (y / 2) (z / 2) (omega arith) (omega arith) (omega arith),
)

pub xor_comm : (x y : ℕ) → bit_xor x y ≡ bit_xor y x
xor_comm x y = xor_comm_to (x + y) x y (omega arith) (omega arith)

pub xor_assoc : (x y z : ℕ) → bit_xor (bit_xor x y) z ≡ bit_xor x (bit_xor y z)
xor_assoc x y z = xor_assoc_to (x + y + z) x y z (omega arith) (omega arith) (omega arith)

pub xor_none : (x : ℕ) → bit_xor x 0 ≡ x
xor_none x = xor_comm x 0 ∙ xor_nothing x

xor_self_to : (bound x : ℕ) → x ≤ bound → bit_xor x x ≡ 0
xor_self_to zero x h = let x_zero : x ≡ 0 = omega arith in rw x_zero refl
xor_self_to (suc bound) x h =
    omega (arith, bit_xor_split x x, xor_self_to bound (x / 2) (omega arith))

pub xor_self : (x : ℕ) → bit_xor x x ≡ 0
xor_self x = xor_self_to x x (omega arith)

pub xor_cancel : (x y : ℕ) → bit_xor (bit_xor x y) y ≡ x
xor_cancel x y = xor_assoc x y y ∙ rw (xor_self y) (xor_none x)

-- The middle two of four change places.
pub xor_interchange :
    (a b c d : ℕ) → bit_xor (bit_xor a b) (bit_xor c d) ≡ bit_xor (bit_xor a c) (bit_xor b d)
xor_interchange a b c d =
    xor_assoc a b (bit_xor c d)
    ∙ ap (λ (t : ℕ). bit_xor a t)
        (sym (xor_assoc b c d) ∙ ap (λ (t : ℕ). bit_xor t d) (xor_comm b c) ∙ xor_assoc c b d)
    ∙ sym (xor_assoc a c (bit_xor b d))

-- Numbers of `k` bits stay so.
pub xor_bound : (k x y : ℕ) → x < 2 ^ k → y < 2 ^ k → bit_xor x y < 2 ^ k
xor_bound zero x y h k =
    let x_zero : x ≡ 0 = omega arith in
    let y_zero : y ≡ 0 = omega arith in rw (x_zero, y_zero) (omega arith)
xor_bound (suc n) x y h k = omega (
  arith,
  pow-suc 2 n,
  bit_xor_split x y,
  xor_bound n (x / 2) (y / 2) (omega (arith, pow-suc 2 n)) (omega (arith, pow-suc 2 n)),
)

-- The high part and the low `k` bits are apart.
pub xor_fields :
    (k a b c d : ℕ)
    → b < 2 ^ k
    → d < 2 ^ k
    → bit_xor (a * 2 ^ k + b) (c * 2 ^ k + d) ≡ bit_xor a c * 2 ^ k + bit_xor b d
xor_fields zero a b c d h l =
    let b_zero : b ≡ 0 = omega arith in
    let d_zero : d ≡ 0 = omega arith in
    let a_one : a * 2 ^ 0 + 0 ≡ a = omega arith in
    let c_one : c * 2 ^ 0 + 0 ≡ c = omega arith in rw (b_zero, d_zero, a_one, c_one) (omega arith)
xor_fields (suc k) a b c d h l =
    let s : ℕ = a * 2 ^ k in
    let t : ℕ = c * 2 ^ k in
    let u : ℕ = bit_xor a c * 2 ^ k in
    let e : a * 2 ^ suc k ≡ s * 2 = omega (arith, ap (λ (x : ℕ). a * x) (pow-suc 2 k)) in
    let f : c * 2 ^ suc k ≡ t * 2 = omega (arith, ap (λ (x : ℕ). c * x) (pow-suc 2 k)) in
    let g : bit_xor a c * 2 ^ suc k ≡ u * 2 =
      omega (arith, ap (λ (x : ℕ). bit_xor a c * x) (pow-suc 2 k)) in
    let p : (s * 2 + b) / 2 ≡ s + b / 2 = omega arith in
    let q : (t * 2 + d) / 2 ≡ t + d / 2 = omega arith in
    rw (e, f, g)
      (omega (
        arith,
        rw (p, q) at (bit_xor_split (s * 2 + b) (t * 2 + d)),
        bit_xor_split b d,
        xor_fields k a (b / 2) c (d / 2) (omega (arith, pow-suc 2 k)) (omega (arith, pow-suc 2 k)),
      ))
