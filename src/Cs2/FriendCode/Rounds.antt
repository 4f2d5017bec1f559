-- ===== src/Cs2/FriendCode/Rounds.antt =====
-- core/cs2/friend_code.cpp: the number a code is made of.
use Prim.Native.Nat.{bit_and, bit_or}
use native.Mathlib.Nat.{pow-suc}
use steam_account_manager.Common.{
  ℕ, zero, suc, ◌+◌, ◌*◌, ◌/◌, ◌%◌, ◌^◌, ◌≤◌, ◌<◌, ◌≡◌, refl, ◌∙◌, ap, arith, leb, leb→le,
}
use steam_account_manager.Common.Bits.{
  bit_or_split, bit_or_add, bit_and_15, bit_and_255, bit_and_1, passes_below, passes_below-at,
}
use steam_account_manager.Cs2.FriendCode.{next_r, id_loop, swap_loop, byteswap64}

or_self : (bound x : ℕ) → x ≤ bound → bit_or x x ≡ x
or_self zero x h = let e : x ≡ 0 = omega arith in rw e refl
or_self (suc bound) x h = omega (arith, bit_or_split x x, or_self bound (x / 2) (omega arith))

-- `|` of a number and its own high part.
or_high : (k q s : ℕ) → s < 2 ^ k → bit_or (q * 2 ^ k) (q * 2 ^ k + s) ≡ q * 2 ^ k + s
or_high zero q s h =
    let e : q * 2 ^ 0 ≡ q = omega arith in
    let f : q + s ≡ q = omega arith in rw (e, f) (or_self q q (omega arith))
or_high (suc k) q s h =
    let t : ℕ = q * 2 ^ k in
    let e : q * 2 ^ suc k ≡ t * 2 = omega (arith, ap (λ (x : ℕ). q * x) (pow-suc 2 k)) in
    let d : t * 2 / 2 ≡ t = omega arith in
    let f : (t * 2 + s) / 2 ≡ t + s / 2 = omega arith in
    rw e (
      omega (
        arith,
        rw (d, f) at (bit_or_split (t * 2) (t * 2 + s)),
        or_high k q (s / 2) (omega (arith, pow-suc 2 k)),
      ))

-- A round makes room for five bits.
next_r_lem :
    (r nibble bit : ℕ)
    → r < 2 ^ 35
    → nibble < 16
    → bit < 2
    → next_r r nibble bit ≡ r * 32 + nibble * 2 + bit
unfolding next_r
next_r_lem r nibble bit h k l =
    let a : bit_or (r * 2 ^ 4 % 2 ^ 64) nibble ≡ r * 16 + nibble =
      let e : r * 2 ^ 4 % 2 ^ 64 ≡ r * 2 ^ 4 = omega arith in
      rw e (omega (arith, bit_or_add 4 r nibble (omega arith))) in
    let mid : bit_or (r / 2 ^ 28 * 2 ^ 32 % 2 ^ 64) (r * 16 + nibble) ≡ r * 16 + nibble =
      let q : ℕ = r / 2 ^ 28 in
      let e : q * 2 ^ 32 % 2 ^ 64 ≡ q * 2 ^ 32 = omega arith in
      let f : r * 16 + nibble ≡ q * 2 ^ 32 + (r % 2 ^ 28 * 16 + nibble) = omega arith in
      rw (e, f) (or_high 32 q (r % 2 ^ 28 * 16 + nibble) (omega arith)) in
    let low : bit_or ((r * 16 + nibble) * 2 % 2 ^ 64) bit ≡ (r * 16 + nibble) * 2 + bit =
      let e : (r * 16 + nibble) * 2 % 2 ^ 64 ≡ (r * 16 + nibble) * 2 ^ 1 = omega arith in
      rw e (omega (arith, bit_or_add 1 (r * 16 + nibble) bit (omega arith))) in
    let top : bit_or ((r * 16 + nibble) / 2 ^ 31 * 2 ^ 32 % 2 ^ 64) ((r * 16 + nibble) * 2 + bit)
        ≡ (r * 16 + nibble) * 2 + bit =
      let q : ℕ = (r * 16 + nibble) / 2 ^ 31 in
      let e : q * 2 ^ 32 % 2 ^ 64 ≡ q * 2 ^ 32 = omega arith in
      let f : (r * 16 + nibble) * 2 + bit ≡ q * 2 ^ 32 + ((r * 16 + nibble) % 2 ^ 31 * 2 + bit) =
        omega arith in
      rw (e, f) (or_high 32 q ((r * 16 + nibble) % 2 ^ 31 * 2 + bit) (omega arith)) in
    rw (a, mid, low, top) (omega arith)

-- The room that is left before round `i`.
powers : (i : ℕ) → i < 8 → 32 ^ i ≤ 2 ^ 35
unfolding passes_below
powers i h = leb→le _ _ (passes_below-at (λ i. leb (32 ^ i) (2 ^ 35)) {bound = 8} refl i h)

step_lem :
    (i r id bits : ℕ)
    → i < 8
    → r < 32 ^ i
    → (next_r r (bit_and id 0xf) (bit_and bits 1) ≡ r * 32 + id % 16 * 2 + bits % 2)
      × (next_r r (bit_and id 0xf) (bit_and bits 1) < 32 ^ suc i)
step_lem i r id bits h k =
    let e : next_r r (bit_and id 0xf) (bit_and bits 1) ≡ r * 32 + id % 16 * 2 + bits % 2 =
      rw (bit_and_15 id, bit_and_1 bits)
        (next_r_lem r (id % 16) (bits % 2) (omega (arith, powers i h)) (omega arith)
          (omega arith)) in
    (e, omega (arith, e, pow-suc 32 i))

-- The low `n` nibbles.
pub nibbles : ℕ → ℕ → ℕ
nibbles zero id = 0
nibbles (suc n) id = nibbles n (id / 16) * 16 + id % 16

-- Rounds that end alike took the same nibbles, whatever the bits of the hashes.
pub id_loop_inj :
    (n i h h' id id' r r' : ℕ)
    → i + n ≡ 8
    → r < 32 ^ i
    → r' < 32 ^ i
    → id_loop n i h id r ≡ id_loop n i h' id' r'
    → (r ≡ r') × (nibbles n id ≡ nibbles n id')
unfolding id_loop nibbles
id_loop_inj zero i h h' id id' r r' e k l same = (same, refl)
id_loop_inj (suc n) i h h' id id' r r' e k l same =
    let (p, q) = step_lem i r id (h / 2 ^ i) (omega arith) k in
    let (p', q') = step_lem i r' id' (h' / 2 ^ i) (omega arith) l in
    let (x, y) =
      id_loop_inj n (suc i) h h' (id / 2 ^ 4) (id' / 2 ^ 4) _ _ (omega arith) q q' same in
    (omega (arith, p, p', x), omega (arith, p, p', x, y))

pub id_loop_bound : (n i h id r : ℕ) → i + n ≡ 8 → r < 32 ^ i → id_loop n i h id r < 2 ^ 40
unfolding id_loop
id_loop_bound zero i h id r e k = let f : i ≡ 8 = omega arith in rw f at k
id_loop_bound (suc n) i h id r e k =
    id_loop_bound n (suc i) h (id / 2 ^ 4) _ (omega arith)
      (step_lem i r id (h / 2 ^ i) (omega arith) k).1

pub nibbles_lem : (id : ℕ) → nibbles 8 id ≡ id % 2 ^ 32
unfolding nibbles
nibbles_lem id = omega arith

swap_step :
    (v out : ℕ)
    → out < 2 ^ 56
    → bit_or (out * 2 ^ 8 % 2 ^ 64) (bit_and v 0xff) ≡ out * 256 + v % 256
swap_step v out h =
    let e : out * 2 ^ 8 % 2 ^ 64 ≡ out * 2 ^ 8 = omega arith in
    rw (e, bit_and_255 v) (omega (arith, bit_or_add 8 out (v % 256) (omega arith)))

plain_swap : ℕ → ℕ → ℕ → ℕ
plain_swap zero v out = out
plain_swap (suc n) v out = plain_swap n (v / 256) (out * 256 + v % 256)

byte_powers : (i : ℕ) → i < 8 → 256 ^ i ≤ 2 ^ 56
unfolding passes_below
byte_powers i h = leb→le _ _ (passes_below-at (λ i. leb (256 ^ i) (2 ^ 56)) {bound = 8} refl i h)

swap_loop_lem : (n i v out : ℕ) → i + n ≡ 8 → out < 256 ^ i → swap_loop n v out ≡ plain_swap n v out
unfolding swap_loop plain_swap
swap_loop_lem zero i v out e h = refl
swap_loop_lem (suc n) i v out e h =
    ap (swap_loop n (v / 256)) (swap_step v out (omega (arith, byte_powers i (omega arith))))
    ∙ swap_loop_lem n (suc i) (v / 256) (out * 256 + v % 256) (omega arith)
        (omega (arith, pow-suc 256 i))

-- A number of five bytes leaves three bytes clear, and can be read off.
pub swapped : ℕ → ℕ
swapped v =
    v % 256 * 2 ^ 32
    + v / 256 % 256 * 2 ^ 24
    + v / 256 / 256 % 256 * 2 ^ 16
    + v / 256 / 256 / 256 % 256 * 2 ^ 8
    + v / 256 / 256 / 256 / 256 % 256

pub byteswap64_lem : (v : ℕ) → v < 2 ^ 40 → byteswap64 v ≡ swapped v * 2 ^ 24
unfolding byteswap64 plain_swap swapped
byteswap64_lem v h = swap_loop_lem 8 0 v 0 refl (omega arith) ∙ omega arith

pub swapped_bound : (v : ℕ) → swapped v < 2 ^ 40
unfolding swapped
swapped_bound v = omega arith

pub swapped_inj : (v w : ℕ) → v < 2 ^ 40 → w < 2 ^ 40 → swapped v ≡ swapped w → v ≡ w
unfolding swapped
swapped_inj v w h k e = omega arith
