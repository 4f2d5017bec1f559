-- ===== src/Crypto/Rijndael/Inverse.antt =====
-- core/crypto/rijndael256.cpp: the steps of a round beside the steps they undo, which the standard
-- gives and the source has not.
use Prim.Native.Nat.{bit_xor}
use steam_account_manager.Common.{
  ℕ, zero, suc, ◌*◌, ◌<◌, ◌≡◌, refl, ◌∙◌, Bool, true, ◌&&◌, arith, ◌==◌, ltb, List, [], ◌∷◌, length,
  if◌then◌else◌,
}
use steam_account_manager.Common.Every.{every}
use steam_account_manager.Common.Bits.{passes_below, passes_below-at}
use steam_account_manager.Common.Xor.{xor_nothing, xor_none}
use steam_account_manager.Crypto.Rijndael.{
  gmul, gmul_loop, xtime, xor_four, row_times, inv_mix_columns,
}
use steam_account_manager.Crypto.Rijndael.Linear.{
  Column, column, IsColumn, add, row, spread, spread-IsColumn, row-four, row_bound,
}

abbrev pub is_byte : ℕ → Bool
is_byte b = ltb b 256

-- The columns of the standard's matrix and the rows of its inverse.
matrix : ℕ → Column
matrix zero = column 2 1 1 3
matrix (suc zero) = column 3 2 1 1
matrix (suc (suc zero)) = column 1 3 2 1
matrix (suc (suc (suc n))) = column 1 1 3 2

inverse : ℕ → Column
inverse zero = column 14 11 13 9
inverse (suc zero) = column 9 14 11 13
inverse (suc (suc zero)) = column 13 9 14 11
inverse (suc (suc (suc n))) = column 11 13 9 14

unit : ℕ → ℕ → ℕ → ℕ
unit i j a = if i == j then a else 0

row_tests : ℕ → ℕ → Bool
row_tests i a =
    (row (inverse i) (spread (matrix 0) a) == unit i 0 a)
    && (row (inverse i) (spread (matrix 1) a) == unit i 1 a)
    && (row (inverse i) (spread (matrix 2) a) == unit i 2 a)
    && (row (inverse i) (spread (matrix 3) a) == unit i 3 a)

row_table : (i : ℕ) → i < 4 → passes_below (row_tests i) 256 ≡ true
unfolding passes_below row_tests inverse matrix unit row_times xor_four gmul gmul_loop xtime
row_table zero h = refl
row_table (suc zero) h = refl
row_table (suc (suc zero)) h = refl
row_table (suc (suc (suc zero))) h = refl
row_table (suc (suc (suc (suc i)))) h = absurd (omega arith)

row-spread :
    (i : ℕ) (a : ℕ)
    → i < 4
    → a < 256
    → (row (inverse i) (spread (matrix 0) a) ≡ unit i 0 a)
      × (row (inverse i) (spread (matrix 1) a) ≡ unit i 1 a)
      × (row (inverse i) (spread (matrix 2) a) ≡ unit i 2 a)
      × (row (inverse i) (spread (matrix 3) a) ≡ unit i 3 a)
unfolding row_tests
row-spread i a h k =
    let e : row_tests i a ≡ true = passes_below-at (row_tests i) (row_table i h) a k in
    ground (arith, e)

mixed : Column → Column
mixed x =
    add (add (add (spread (matrix 0) x.b0) (spread (matrix 1) x.b1)) (spread (matrix 2) x.b2))
      (spread (matrix 3) x.b3)

nth : ℕ → Column → ℕ
nth zero x = x.b0
nth (suc zero) x = x.b1
nth (suc (suc zero)) x = x.b2
nth (suc (suc (suc n))) x = x.b3

units :
    (i : ℕ) (x : Column)
    → i < 4
    → xor_four (unit i 0 x.b0) (unit i 1 x.b1) (unit i 2 x.b2) (unit i 3 x.b3) ≡ nth i x
unfolding xor_four unit nth
units zero x h = rw (xor_none x.b0, xor_none x.b0) (xor_none x.b0)
units (suc zero) x h = rw (xor_nothing x.b1, xor_none x.b1) (xor_none x.b1)
units (suc (suc zero)) x h = rw (xor_none 0, xor_nothing x.b2) (xor_none x.b2)
units (suc (suc (suc zero))) x h = rw (xor_none 0, xor_none 0) (xor_nothing x.b3)
units (suc (suc (suc (suc i)))) x h = absurd (omega arith)

row-mixed : (i : ℕ) (x : Column) → i < 4 → IsColumn x → row (inverse i) (mixed x) ≡ nth i x
unfolding mixed
row-mixed i x h (k0, k1, k2, k3) =
    row-four (inverse i) _ _ _ _ (spread-IsColumn (matrix 0) x.b0 k0)
      (spread-IsColumn (matrix 1) x.b1 k1) (spread-IsColumn (matrix 2) x.b2 k2)
      (spread-IsColumn (matrix 3) x.b3 k3)
    ∙ rw
        (
          (row-spread i x.b0 h k0).0,
          (row-spread i x.b1 h k1).1,
          (row-spread i x.b2 h k2).2,
          (row-spread i x.b3 h k3).3,
        )
        (units i x h)

-- The step with the products that gmul computes.
gmul_columns : List ℕ → List ℕ
gmul_columns (a0 ∷ a1 ∷ a2 ∷ a3 ∷ s) =
    row_times 2 3 1 1 a0 a1 a2 a3
    ∷ row_times 1 2 3 1 a0 a1 a2 a3
    ∷ row_times 1 1 2 3 a0 a1 a2 a3
    ∷ row_times 3 1 1 2 a0 a1 a2 a3
    ∷ gmul_columns s
gmul_columns s = s

cons_columns :
    {a b c d a' b' c' d' : ℕ} {s t : List ℕ}
    → a ≡ a'
    → b ≡ b'
    → c ≡ c'
    → d ≡ d'
    → s ≡ t
    → a ∷ b ∷ c ∷ d ∷ s ≡ a' ∷ b' ∷ c' ∷ d' ∷ t
cons_columns p q r u v = cc

inv_mix_columns-gmul_columns :
    (n : ℕ) (s : List ℕ)
    → length s ≡ n * 4
    → every is_byte s ≡ true
    → inv_mix_columns (gmul_columns s) ≡ s
unfolding inv_mix_columns gmul_columns mixed nth inverse matrix row_times xor_four gmul
inv_mix_columns-gmul_columns n [] h k = refl
inv_mix_columns-gmul_columns zero (a ∷ s) h k = absurd (omega arith)
inv_mix_columns-gmul_columns (suc n) (a ∷ []) h k = absurd (omega arith)
inv_mix_columns-gmul_columns (suc n) (a ∷ b ∷ []) h k = absurd (omega arith)
inv_mix_columns-gmul_columns (suc n) (a ∷ b ∷ c ∷ []) h k = absurd (omega arith)
inv_mix_columns-gmul_columns (suc n) (a ∷ b ∷ c ∷ d ∷ s) h k =
    let x = column a b c d in
    let ok : IsColumn x = unfold every in ground (arith, k) in
    let rest : every is_byte s ≡ true = unfold every in ground (arith, k) in
    cons_columns (row-mixed 0 x (omega arith) ok) (row-mixed 1 x (omega arith) ok)
      (row-mixed 2 x (omega arith) ok) (row-mixed 3 x (omega arith) ok)
      (inv_mix_columns-gmul_columns n s (omega arith) rest)

-- It keeps the length of whole columns, and gives bytes.
gmul_columns-bytes :
    (n : ℕ) (s : List ℕ)
    → length s ≡ n * 4
    → every is_byte s ≡ true
    → (length (gmul_columns s) ≡ n * 4) × (every is_byte (gmul_columns s) ≡ true)
unfolding gmul_columns every
gmul_columns-bytes n [] h k = (h, k)
gmul_columns-bytes zero (a ∷ s) h k = absurd (omega arith)
gmul_columns-bytes (suc n) (a ∷ []) h k = absurd (omega arith)
gmul_columns-bytes (suc n) (a ∷ b ∷ []) h k = absurd (omega arith)
gmul_columns-bytes (suc n) (a ∷ b ∷ c ∷ []) h k = absurd (omega arith)
gmul_columns-bytes (suc n) (a ∷ b ∷ c ∷ d ∷ s) h k =
    let x = column a b c d in
    let ok : IsColumn x = ground (arith, k) in
    let rest : every is_byte s ≡ true = ground (arith, k) in
    let ih = gmul_columns-bytes n s (omega arith) rest in
    (
      omega (arith, ih.0),
      ground (
        arith,
        ih.1,
        row_bound (column 2 3 1 1) x ok,
        row_bound (column 1 2 3 1) x ok,
        row_bound (column 1 1 2 3) x ok,
        row_bound (column 3 1 1 2) x ok,
      ),
    )

-- The standard's product by x: the byte shifted, less the modulus x^8 + x^4 + x^3 + x + 1, which is
-- 283, where it has grown beyond a byte.
unfoldable pub double : ℕ → ℕ
double b = if ltb b 128 then b * 2 else bit_xor (b * 2) 283

triple : ℕ → ℕ
triple b = bit_xor (double b) b

-- The step as the standard has it: each column times the matrix of 2, 3, 1 and 1.
pub mix_columns : List ℕ → List ℕ
mix_columns (a0 ∷ a1 ∷ a2 ∷ a3 ∷ s) =
    bit_xor (bit_xor (bit_xor (double a0) (triple a1)) a2) a3
    ∷ bit_xor (bit_xor (bit_xor a0 (double a1)) (triple a2)) a3
    ∷ bit_xor (bit_xor (bit_xor a0 a1) (double a2)) (triple a3)
    ∷ bit_xor (bit_xor (bit_xor (triple a0) a1) a2) (double a3)
    ∷ mix_columns s
mix_columns s = s

product_tests : ℕ → Bool
product_tests b = (gmul b 1 == b) && (gmul b 2 == double b) && (gmul b 3 == triple b)

product_table : passes_below product_tests 256 ≡ true
unfolding passes_below product_tests gmul gmul_loop xtime double triple
product_table = refl

products : (b : ℕ) → b < 256 → (gmul b 1 ≡ b) × (gmul b 2 ≡ double b) × (gmul b 3 ≡ triple b)
unfolding product_tests
products b h =
    let e : product_tests b ≡ true = passes_below-at product_tests product_table b h in
    ground (arith, e)

gmul_columns-mix_columns :
    (n : ℕ) (s : List ℕ)
    → length s ≡ n * 4
    → every is_byte s ≡ true
    → gmul_columns s ≡ mix_columns s
unfolding gmul_columns mix_columns row_times xor_four
gmul_columns-mix_columns n [] h k = refl
gmul_columns-mix_columns zero (a ∷ s) h k = absurd (omega arith)
gmul_columns-mix_columns (suc n) (a ∷ []) h k = absurd (omega arith)
gmul_columns-mix_columns (suc n) (a ∷ b ∷ []) h k = absurd (omega arith)
gmul_columns-mix_columns (suc n) (a ∷ b ∷ c ∷ []) h k = absurd (omega arith)
gmul_columns-mix_columns (suc n) (a ∷ b ∷ c ∷ d ∷ s) h k =
    let (ha, hb, hc, hd) : IsColumn (column a b c d) = unfold every in ground (arith, k) in
    let rest : every is_byte s ≡ true = unfold every in ground (arith, k) in
    let (a1, a2, a3) = products a ha in
    let (b1, b2, b3) = products b hb in
    let (c1, c2, c3) = products c hc in
    let (d1, d2, d3) = products d hd in
    rw (
      a1,
      a2,
      a3,
      b1,
      b2,
      b3,
      c1,
      c2,
      c3,
      d1,
      d2,
      d3,
      gmul_columns-mix_columns n s (omega arith) rest,
    )

pub inv_mix_columns-mix_columns :
    (n : ℕ) (s : List ℕ)
    → length s ≡ n * 4
    → every is_byte s ≡ true
    → inv_mix_columns (mix_columns s) ≡ s
inv_mix_columns-mix_columns n s h k =
    rw (gmul_columns-mix_columns n s h k) at (inv_mix_columns-gmul_columns n s h k)

pub mix_columns-bytes :
    (n : ℕ) (s : List ℕ)
    → length s ≡ n * 4
    → every is_byte s ≡ true
    → (length (mix_columns s) ≡ n * 4) × (every is_byte (mix_columns s) ≡ true)
mix_columns-bytes n s h k = rw (gmul_columns-mix_columns n s h k) at (gmul_columns-bytes n s h k)
