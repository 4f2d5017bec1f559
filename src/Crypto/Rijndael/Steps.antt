-- ===== src/Crypto/Rijndael/Steps.antt =====
-- core/crypto/rijndael256.cpp: the other steps of a round, undone.
use steam_account_manager.Common.{
  ℕ, zero, suc, ◌+◌, ◌*◌, ◌%◌, ◌≤◌, ◌<◌, ◌≡◌, refl, ◌∙◌, ap, true, ◌&&◌, arith, ◌==◌, ltb, ==_iff,
  List, [], ◌∷◌, ◌++◌, length, length-map, get_or, map, lt→ltb, ltb→lt,
}
use steam_account_manager.Common.Every.{every, both, every-map, every-get_or}
use steam_account_manager.Common.Bits.{passes_below, passes_below-at}
use steam_account_manager.Common.Xor.{xor_cancel, xor_bound}
use steam_account_manager.Crypto.Rijndael.{
  s_box, inv_s_box, inv_sub_bytes, gather, inv_source, inv_sources, inv_shift_rows, xor_bytes,
}
use steam_account_manager.Crypto.Rijndael.Inverse.{is_byte}

-- 32 bytes.
abbrev pub IsBlock : List ℕ → Type 0
IsBlock s = (length s ≡ 32) × (every is_byte s ≡ true)

unfoldable pub sub_bytes : List ℕ → List ℕ
sub_bytes s = map (λ b. get_or s_box b 0) s

s_box_table :
    passes_below (λ b. get_or inv_s_box (get_or s_box b 0) 0 == b && is_byte (get_or s_box b 0)) 256
    ≡ true
unfolding passes_below
s_box_table = refl

s_box_lem :
    (b : ℕ) → b < 256 → (get_or inv_s_box (get_or s_box b 0) 0 ≡ b) × (get_or s_box b 0 < 256)
s_box_lem b h =
    let e : (get_or inv_s_box (get_or s_box b 0) 0 == b && is_byte (get_or s_box b 0)) ≡ true =
      passes_below-at
        (λ b. get_or inv_s_box (get_or s_box b 0) 0 == b && is_byte (get_or s_box b 0)) s_box_table
        b h in
    let (p, q) = both _ _ e in ((==_iff _ _).0 p, ltb→lt _ _ q)

cons-both : {x y : ℕ} {s t : List ℕ} → x ≡ y → s ≡ t → x ∷ s ≡ y ∷ t
cons-both p q = cc

pub inv_sub_bytes-sub_bytes :
    (s : List ℕ) → every is_byte s ≡ true → inv_sub_bytes (sub_bytes s) ≡ s
unfolding inv_sub_bytes sub_bytes every
inv_sub_bytes-sub_bytes [] h = refl
inv_sub_bytes-sub_bytes (b ∷ s) h =
    let (p, q) = both (is_byte b) (every is_byte s) h in
    cons-both (s_box_lem b (ltb→lt b 256 p)).0 (inv_sub_bytes-sub_bytes s q)

pub sub_bytes-IsBlock : (s : List ℕ) → IsBlock s → IsBlock (sub_bytes s)
unfolding sub_bytes
sub_bytes-IsBlock s (h, k) = (
  length-map s _ ∙ h,
  every-map (λ b. get_or s_box b 0) is_byte is_byte s
      (λ b e. lt→ltb _ _ (s_box_lem b (ltb→lt _ _ e)).1) k,
)

-- Bytes taken twice are taken from the places of the places.
get_or-gather :
    (s p : List ℕ) (i : ℕ) → i < length p → get_or (gather s p) i 0 ≡ get_or s (get_or p i 0) 0
unfolding gather
get_or-gather s [] i h = absurd (omega arith)
get_or-gather s (j ∷ p) zero h = refl
get_or-gather s (j ∷ p) (suc i) h = get_or-gather s p i (omega arith)

gather-gather :
    (s p q : List ℕ)
    → every (λ i. ltb i (length p)) q ≡ true
    → gather (gather s p) q ≡ gather s (gather p q)
unfolding every gather
gather-gather s p [] h = refl
gather-gather s p (i ∷ q) h =
    ground (arith, get_or-gather s p i (ground (arith, h)), gather-gather s p q)

-- The places the standard takes a column from: the rows of a block of 256 bits are shifted by 0, 1,
-- 3 and 4.
sources : ℕ → ℕ → List ℕ
sources zero c = []
sources (suc n) c =
    (c * 4)
    ∷ ((c + 1) % 8 * 4 + 1)
    ∷ ((c + 3) % 8 * 4 + 2)
    ∷ ((c + 4) % 8 * 4 + 3)
    ∷ sources n (suc c)

pub shift_rows : List ℕ → List ℕ
shift_rows s = gather s (sources 8 0)

places : ℕ → ℕ → List ℕ
places zero i = []
places (suc n) i = i ∷ places n (suc i)

get_or-append :
    (front : List ℕ) (x : ℕ) (s : List ℕ) → get_or (front ++ (x ∷ s)) (length front) 0 ≡ x
get_or-append [] x s = refl
get_or-append (y ∷ front) x s = get_or-append front x s

places-gathered : (front s : List ℕ) → gather (front ++ s) (places (length s) (length front)) ≡ s
unfolding gather places
places-gathered front [] = refl
places-gathered front (x ∷ s) =
    cons-both (get_or-append front x s)
      (rw (move front x s, length-move front x) at (places-gathered (front ++ (x ∷ [])) s))
  where
    move : (front : List ℕ) (x : ℕ) (s : List ℕ) → (front ++ (x ∷ [])) ++ s ≡ front ++ (x ∷ s)
    move [] x s = refl
    move (y ∷ front) x s = ap (◌∷◌ y) (move front x s)

    length-move : (front : List ℕ) (x : ℕ) → length (front ++ (x ∷ [])) ≡ suc (length front)
    length-move [] x = refl
    length-move (y ∷ front) x = ap suc (length-move front x)

pub inv_shift_rows-shift_rows : (s : List ℕ) → length s ≡ 32 → inv_shift_rows (shift_rows s) ≡ s
unfolding inv_shift_rows shift_rows gather sources inv_sources inv_source places every
inv_shift_rows-shift_rows s h =
    gather-gather s (sources 8 0) (inv_sources 8 0) refl ∙ rw h at (places-gathered [] s)

pub shift_rows-IsBlock : (s : List ℕ) → IsBlock s → IsBlock (shift_rows s)
unfolding shift_rows gather sources every
shift_rows-IsBlock s (h, k) = (
  refl,
  every-map (λ i. get_or s i 0) (λ i. true) is_byte (sources 8 0)
      (λ i e. every-get_or is_byte s i 0 refl k) refl,
)

pub xor_bytes-cancel :
    (s key : List ℕ) → length s ≤ length key → xor_bytes (xor_bytes s key) key ≡ s
unfolding xor_bytes
xor_bytes-cancel [] key h = refl
xor_bytes-cancel (x ∷ s) [] h = absurd (omega arith)
xor_bytes-cancel (x ∷ s) (y ∷ key) h =
    ground (arith, xor_cancel x y, xor_bytes-cancel s key (omega arith))

pub length-xor_bytes :
    (s key : List ℕ) → length s ≤ length key → length (xor_bytes s key) ≡ length s
unfolding xor_bytes
length-xor_bytes [] key h = refl
length-xor_bytes (x ∷ s) [] h = absurd (omega arith)
length-xor_bytes (x ∷ s) (y ∷ key) h = ap suc (length-xor_bytes s key (omega arith))

pub xor_bytes-bytes :
    (s key : List ℕ)
    → every is_byte s ≡ true
    → every is_byte key ≡ true
    → every is_byte (xor_bytes s key) ≡ true
unfolding xor_bytes every
xor_bytes-bytes [] key h k = refl
xor_bytes-bytes (x ∷ s) [] h k = refl
xor_bytes-bytes (x ∷ s) (y ∷ key) h k =
    ground (arith, xor_bound 8 x y (ground (arith, h)) (ground (arith, k)), xor_bytes-bytes s key)
