-- ===== src/Crypto/Rijndael/Linear.antt =====
-- core/crypto/rijndael256.cpp: the multiplication of bytes and the exclusive or.
use Prim.Native.Nat.{bit_xor, bit_and}
use steam_account_manager.Common.{
  ℕ, zero, suc, ◌+◌, ◌*◌, ◌/◌, ◌%◌, ◌^◌, ◌<◌, ◌≡◌, refl, sym, ◌∙◌, true, arith, ◌==◌, ==_iff,
  Bool-cases, inl, inr,
}
use steam_account_manager.Common.Bits.{passes_below, passes_below-at}
use steam_account_manager.Common.Xor.{xor_nothing, xor_fields, xor_bound, xor_interchange}
use steam_account_manager.Crypto.Rijndael.{xtime, gmul_loop, gmul, xor_four, row_times}

xtime_table : passes_below (λ b. xtime b == bit_xor (b % 128 * 2) (b / 128 * 27)) 256 ≡ true
unfolding passes_below xtime
xtime_table = refl

xtime_split : (b : ℕ) → b < 256 → xtime b ≡ bit_xor (b % 128 * 2) (b / 128 * 27)
xtime_split b h = (==_iff _ _).0 (passes_below-at _ xtime_table b h)

xor_at_7 : (a b : ℕ) → bit_xor a b ≡ bit_xor (a / 128) (b / 128) * 128 + bit_xor (a % 128) (b % 128)
xor_at_7 a b =
    let e : a / 128 * 2 ^ 7 + a % 128 ≡ a = omega arith in
    let f : b / 128 * 2 ^ 7 + b % 128 ≡ b = omega arith in
    rw (e, f) at (xor_fields 7 (a / 128) (a % 128) (b / 128) (b % 128) (omega arith) (omega arith))

xor_double : (a b : ℕ) → bit_xor (a * 2) (b * 2) ≡ bit_xor a b * 2
xor_double a b =
    let e : a * 2 ^ 1 + 0 ≡ a * 2 = omega arith in
    let f : b * 2 ^ 1 + 0 ≡ b * 2 = omega arith in
    rw (e, f) at (xor_fields 1 a 0 b 0 (omega arith) (omega arith)) ∙ omega (arith, xor_nothing 0)

xor_flag : (a b : ℕ) → a < 2 → b < 2 → bit_xor a b * 27 ≡ bit_xor (a * 27) (b * 27)
xor_flag zero b h k = rw (xor_nothing b, xor_nothing (b * 27)) refl
xor_flag (suc zero) zero h k = refl
xor_flag (suc zero) (suc zero) h k = refl
xor_flag (suc zero) (suc (suc b)) h k = absurd (omega arith)
xor_flag (suc (suc a)) b h k = absurd (omega arith)

xtime-xor : (a b : ℕ) → a < 256 → b < 256 → xtime (bit_xor a b) ≡ bit_xor (xtime a) (xtime b)
xtime-xor a b h k =
    let low = xor_bound 7 (a % 128) (b % 128) (omega arith) (omega arith) in
    let high : bit_xor a b / 128 ≡ bit_xor (a / 128) (b / 128) = omega (arith, xor_at_7 a b, low) in
    let rest : bit_xor a b % 128 ≡ bit_xor (a % 128) (b % 128) = omega (arith, xor_at_7 a b, low) in
    xtime_split (bit_xor a b) (xor_bound 8 a b h k)
    ∙ rw
        (
          high,
          rest,
          xtime_split a h,
          xtime_split b k,
          sym (xor_double (a % 128) (b % 128)),
          xor_flag (a / 128) (b / 128) (omega arith) (omega arith),
        )
        (xor_interchange _ _ _ _)

xtime_bound : (a : ℕ) → xtime a < 256
unfolding xtime
xtime_bound a = omega arith

gmul_loop-xor :
    (n r s a b m : ℕ)
    → a < 256
    → b < 256
    → gmul_loop n (bit_xor r s) (bit_xor a b) m ≡ bit_xor (gmul_loop n r a m) (gmul_loop n s b m)
unfolding gmul_loop
gmul_loop-xor zero r s a b m h k = refl
gmul_loop-xor (suc n) r s a b m h k = elim (Bool-cases (bit_and m 1 == 0)) [
  | inl e ↦
      rw (e, xtime-xor a b h k)
        (gmul_loop-xor n r s (xtime a) (xtime b) (m / 2) (xtime_bound a) (xtime_bound b))
  | inr e ↦
      rw (e, xtime-xor a b h k, xor_interchange r s a b)
        (gmul_loop-xor n (bit_xor r a) (bit_xor s b) (xtime a) (xtime b) (m / 2) (xtime_bound a)
          (xtime_bound b))
]

pub gmul-xor :
    (m a b : ℕ) → a < 256 → b < 256 → gmul (bit_xor a b) m ≡ bit_xor (gmul a m) (gmul b m)
unfolding gmul
gmul-xor m a b h k = gmul_loop-xor 8 0 0 a b m h k

gmul_loop_bound : (n r a m : ℕ) → r < 256 → a < 256 → gmul_loop n r a m < 256
unfolding gmul_loop
gmul_loop_bound zero r a m h k = h
gmul_loop_bound (suc n) r a m h k = elim (Bool-cases (bit_and m 1 == 0)) [
  | inl e ↦ rw e (gmul_loop_bound n r (xtime a) (m / 2) h (xtime_bound a))
  | inr e ↦
      rw e (gmul_loop_bound n (bit_xor r a) (xtime a) (m / 2) (xor_bound 8 r a h k) (xtime_bound a))
]

pub gmul_bound : (a m : ℕ) → a < 256 → gmul a m < 256
unfolding gmul
gmul_bound a m h = gmul_loop_bound 8 0 a m (omega arith) h

pub xor_four_bound : (a b c d : ℕ) → a < 256 → b < 256 → c < 256 → d < 256 → xor_four a b c d < 256
unfolding xor_four
xor_four_bound a b c d h k l m = xor_bound 8 _ d (xor_bound 8 _ c (xor_bound 8 a b h k) l) m

xor_four-xor :
    (a b c d e f g h : ℕ)
    → xor_four (bit_xor a e) (bit_xor b f) (bit_xor c g) (bit_xor d h)
      ≡ bit_xor (xor_four a b c d) (xor_four e f g h)
unfolding xor_four
xor_four-xor a b c d e f g h =
    rw (xor_interchange a e b f, xor_interchange (bit_xor a b) (bit_xor e f) c g)
      (xor_interchange _ _ d h)

-- A row of the matrix times a sum of columns.
row_times-xor :
    (m0 m1 m2 m3 a b c d e f g h : ℕ)
    → a < 256
    → b < 256
    → c < 256
    → d < 256
    → e < 256
    → f < 256
    → g < 256
    → h < 256
    → row_times m0 m1 m2 m3 (bit_xor a e) (bit_xor b f) (bit_xor c g) (bit_xor d h)
      ≡ bit_xor (row_times m0 m1 m2 m3 a b c d) (row_times m0 m1 m2 m3 e f g h)
unfolding row_times
row_times-xor m0 m1 m2 m3 a b c d e f g h ha hb hc hd he hf hg hh =
    rw (gmul-xor m0 a e ha he, gmul-xor m1 b f hb hf, gmul-xor m2 c g hc hg, gmul-xor m3 d h hd hh)
      (xor_four-xor _ _ _ _ _ _ _ _)

-- Four bytes, or four entries of the matrix.
pub record Column : Type 0 where
  pub b0 : ℕ
  pub b1 : ℕ
  pub b2 : ℕ
  pub b3 : ℕ

abbrev pub column : ℕ → ℕ → ℕ → ℕ → Column
column a b c d = record { b0 = a; b1 = b; b2 = c; b3 = d }

abbrev pub IsColumn : Column → Type 0
IsColumn x = (x.b0 < 256) × (x.b1 < 256) × (x.b2 < 256) × (x.b3 < 256)

abbrev pub add : Column → Column → Column
add x y = column (bit_xor x.b0 y.b0) (bit_xor x.b1 y.b1) (bit_xor x.b2 y.b2) (bit_xor x.b3 y.b3)

-- A row of the matrix times a column, and the column a byte makes of a column of the matrix.
abbrev pub row : Column → Column → ℕ
row m x = row_times m.b0 m.b1 m.b2 m.b3 x.b0 x.b1 x.b2 x.b3

abbrev pub spread : Column → ℕ → Column
spread n a = column (gmul a n.b0) (gmul a n.b1) (gmul a n.b2) (gmul a n.b3)

add-IsColumn : (x y : Column) → IsColumn x → IsColumn y → IsColumn (add x y)
add-IsColumn x y (h0, h1, h2, h3) (k0, k1, k2, k3) =
    (xor_bound 8 _ _ h0 k0, xor_bound 8 _ _ h1 k1, xor_bound 8 _ _ h2 k2, xor_bound 8 _ _ h3 k3)

row-add : (m x y : Column) → IsColumn x → IsColumn y → row m (add x y) ≡ bit_xor (row m x) (row m y)
row-add m x y (h0, h1, h2, h3) (k0, k1, k2, k3) =
    row_times-xor m.b0 m.b1 m.b2 m.b3 x.b0 x.b1 x.b2 x.b3 y.b0 y.b1 y.b2 y.b3 h0 h1 h2 h3 k0 k1 k2
      k3

pub spread-IsColumn : (n : Column) (a : ℕ) → a < 256 → IsColumn (spread n a)
spread-IsColumn n a h =
    (gmul_bound a n.b0 h, gmul_bound a n.b1 h, gmul_bound a n.b2 h, gmul_bound a n.b3 h)

pub row-four :
    (m x y z w : Column)
    → IsColumn x
    → IsColumn y
    → IsColumn z
    → IsColumn w
    → row m (add (add (add x y) z) w) ≡ xor_four (row m x) (row m y) (row m z) (row m w)
unfolding xor_four
row-four m x y z w hx hy hz hw =
    let xy = add-IsColumn x y hx hy in
    rw
      (
        row-add m (add (add x y) z) w (add-IsColumn (add x y) z xy hz) hw,
        row-add m (add x y) z xy hz,
        row-add m x y hx hy,
      )
      refl

pub row_bound : (m x : Column) → IsColumn x → row m x < 256
unfolding row_times
row_bound m x (h, k, l, n) =
    xor_four_bound _ _ _ _ (gmul_bound x.b0 m.b0 h) (gmul_bound x.b1 m.b1 k)
      (gmul_bound x.b2 m.b2 l) (gmul_bound x.b3 m.b3 n)
