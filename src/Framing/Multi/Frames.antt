-- ===== src/Framing/Multi/Frames.antt =====
-- core/steam_cm/multi.cpp: the frames that `split_frames` and `expand_multi` return.
use Prim.Native.Nat.{bit_and}
use steam_account_manager.Common.{
  ltb→lt, ◌-◌, ◌%◌, ◌^◌, ℕ, zero, suc, ◌+◌, ◌*◌, ◌≤◌, ◌<◌, List, [], ◌∷◌, ◌++◌, Bool, true, false,
  ◌≡◌, ◌≢◌, ◌↔◌, refl, sym, ◌∙◌, ap, Option, none, some, arith, ltb, length, drop, take,
  length-take, length-append, append_assoc, append-nil, take-append-drop, Bool-cases, inl, inr,
  get_elem?, not, if◌then◌else◌, ◌>>=◌, ◌==◌, ◌||◌,
}
use steam_account_manager.Common.Int.{ℤ}
use steam_account_manager.Common.Every.{every}
use steam_account_manager.Framing.{Bytes}
use steam_account_manager.Framing.Words.{word, are_bytes, four, word-bytes}
use steam_account_manager.Framing.Multi.{
  split_frames, skip_extra, end_of_text, skip_text, skip_fields, inflate, gunzip, expand_multi,
}
use steam_account_manager.Framing.Multi.Split.{
  slice-fits, split, at_len, join, are_short, split_loop-split, split-join, split-ne-none,
}

abbrev frames_of : Option (Bool × List Bytes) → List Bytes
frames_of none = []
frames_of (some (ok, fs)) = fs

are_bytes-drop : (n : ℕ) (s : Bytes) → are_bytes s ≡ true → are_bytes (drop n s) ≡ true
unfolding every
are_bytes-drop zero s h = h
are_bytes-drop (suc n) [] h = refl
are_bytes-drop (suc n) (x ∷ s) h = ground (arith, are_bytes-drop n s, h)

module _ (len : ℕ) (rest : Bytes) (out : List Bytes)
    (next : Bytes → List Bytes → Option (Bool × List Bytes)) where
  at_len-short : ltb (length rest) len ≡ true → at_len len rest out next ≡ some (false, out)
  unfolding at_len
  at_len-short e = rw (e, at_len)

  at_len-fits :
      ltb (length rest) len ≡ false
      → at_len len rest out next ≡ next (drop len rest) (out ++ (take len rest ∷ []))
  unfolding at_len
  at_len-fits e = rw (e, at_len)

-- What a run that succeeds has taken apart.
record IsSplit (s : Bytes) (out fs : List Bytes) : Type 0 where
  l : List Bytes
  all : fs ≡ out ++ l
  joined : s ≡ join l
  short : are_short l ≡ true

split-only :
    (fuel : ℕ) (s : Bytes) (out fs : List Bytes)
    → split fuel s out ≡ some (true, fs)
    → are_bytes s ≡ true
    → IsSplit s out fs
unfolding split at_len join every
split-only zero s out fs h b = absurd cc
split-only (suc fuel) [] out fs h b = record {
  l = [];
  all = sym (ap frames_of h) ∙ sym (append-nil out);
  joined = refl;
  short = refl;
}
split-only (suc fuel) (a ∷ []) out fs h b = absurd cc
split-only (suc fuel) (a ∷ b₁ ∷ []) out fs h b = absurd cc
split-only (suc fuel) (a ∷ b₁ ∷ c ∷ []) out fs h b = absurd cc
split-only (suc fuel) (a ∷ b₁ ∷ c ∷ d ∷ rest) out fs h b =
    let ha : a < 256 = ground (arith, b) in
    let hb : b₁ < 256 = ground (arith, b) in
    let hc : c < 256 = ground (arith, b) in
    let hd : d < 256 = ground (arith, b) in
    let hr : are_bytes rest ≡ true = ground (arith, b) in
    let len : ℕ = a + b₁ * 256 + c * 65536 + d * 16777216 in
    let cut : at_len len rest out (split fuel) ≡ some (true, fs) =
      ap (λ n. at_len n rest out (split fuel)) (sym (four a b₁ c d ha hb hc)) ∙ h in
    elim (Bool-cases (ltb (length rest) len)) [
      | inl e ↦ let failed = sym (at_len-short len rest out (split fuel) e) ∙ cut in absurd cc
      | inr e ↦
          let next = sym (at_len-fits len rest out (split fuel) e) ∙ cut in
          let r =
            split-only fuel (drop len rest) (out ++ (take len rest ∷ [])) fs next
              (are_bytes-drop len rest hr) in
          let n : length (take len rest) ≡ len = ground (arith, length-take len rest, e) in
          let tail : rest ≡ take len rest ++ join r.l =
            sym (take-append-drop len rest) ∙ ap (λ t. take len rest ++ t) r.joined in
          record {
            l = take len rest ∷ r.l;
            all = r.all ∙ append_assoc out (take len rest ∷ []) r.l;
            joined =
                ap (λ t. a ∷ b₁ ∷ c ∷ d ∷ t) tail
                ∙ ap (λ w. w ++ (take len rest ++ join r.l))
                    (sym (word-bytes a b₁ c d ha hb hc hd) ∙ ap word (sym n));
            short = ground (arith, n, r.short, hd, ha, hb, hc);
          }
    ]

length-join : (fs : List Bytes) → length fs ≤ length (join fs)
unfolding join
length-join [] = omega arith
length-join (f ∷ fs) = omega (arith, length-join fs, length-append f (join fs))

split_frames-split :
    (blob : Bytes) (out : List Bytes) → split_frames blob out ≡ split (suc (length blob)) blob out
unfolding split_frames
split_frames-split blob out = split_loop-split (suc (length blob)) blob 0 out (omega arith)

-- On every sequence of bytes, split_frames succeeds with some frames exactly if the bytes are
-- these frames with their lengths in front as little-endian words, each length fitting its word.
pub split_frames_iff :
    (blob : Bytes) (fs : List Bytes)
    → are_bytes blob ≡ true
    → (split_frames blob [] ≡ some (true, fs)) ↔ ((blob ≡ join fs) × (are_short fs ≡ true))
split_frames_iff blob fs b = (
  (λ h.
      let r = split-only (suc (length blob)) blob [] fs (sym (split_frames-split blob []) ∙ h) b in
      (rw r.all r.joined, rw r.all r.short)),
  (λ (e, short).
      split_frames-split blob []
      ∙ rw e (split-join fs (suc (length (join fs))) [] (omega (arith, length-join fs)) short)),
)

byte-inside_of : (xs : Bytes) (i : ℕ) → i < length xs → (c : ℕ) × (get_elem? xs i ≡ some c)
byte-inside_of [] i h = absurd (omega (arith, h))
byte-inside_of (x ∷ xs) zero h = (x, refl)
byte-inside_of (x ∷ xs) (suc i) h = byte-inside_of xs i (omega (arith, h))

data IsSome {A : Type 0} : Option A → Type 0 where
  is : {a : A} → IsSome (some a)

-- Where every branch and every step of a chain has a result, the whole has one.
if-IsSome :
    {A : Type 0} (c : Bool) {x y : Option A} → IsSome x → IsSome y → IsSome (if c then x else y)
if-IsSome true hx hy = hx
if-IsSome false hx hy = hy

elim-IsSome :
    {A : Type 0} (c : Bool) {x y : Option A}
    → IsSome x
    → IsSome y
    → IsSome (elim c [ true ↦ x | false ↦ y ])
elim-IsSome true hx hy = hx
elim-IsSome false hx hy = hy

bind-IsSome :
    {A B : Type 0} {o : Option B} {f : B → Option A}
    → IsSome o
    → ((b : B) → IsSome (f b))
    → IsSome (o >>= f)
bind-IsSome (is {a = b}) hf = hf b

IsSome-of : {A : Type 0} (o : Option A) → o ≢ none → IsSome o
IsSome-of none h = absurd (h refl)
IsSome-of (some a) h = is

ne-none : {A : Type 0} {o : Option A} → IsSome o → o ≢ none
ne-none is = cc

-- Reads of the header of a gzip file.
module _ (input : Bytes) where
  byte-inside : (i : ℕ) → i < length input → (c : ℕ) × (get_elem? input i ≡ some c)
  byte-inside i h = byte-inside_of input i h

  skip_extra-ne-none : (flags : ℕ) → 18 ≤ length input → skip_extra input flags 10 ≢ none
  unfolding skip_extra
  skip_extra-ne-none flags h =
      let (low, l) = byte-inside 10 (omega (arith, h)) in
      let (high, g) = byte-inside 11 (omega (arith, h)) in ground (arith, l, g)

  skip_extra-IsSome : (flags : ℕ) → 18 ≤ length input → IsSome (skip_extra input flags 10)
  skip_extra-IsSome flags h = IsSome-of (skip_extra input flags 10) (skip_extra-ne-none flags h)

  end_of_text-IsSome :
      (fuel off : ℕ) → length input ≤ off + fuel → IsSome (end_of_text (suc fuel) input off)
  unfolding end_of_text
  end_of_text-IsSome zero off h =
      let e : ltb off (length input) ≡ false = ground (arith, h) in rw (e, end_of_text) is
  end_of_text-IsSome (suc fuel) off h =
      let rest = end_of_text-IsSome fuel (off + 1) (omega (arith, h)) in
      elim (Bool-cases (ltb off (length input))) [
        | inr e ↦ rw (e, end_of_text) is
        | inl e ↦
            let (c, p) = byte-inside off (ltb→lt _ _ e) in
            let read : IsSome (get_elem? input off) = rw p is in
            rw (e, end_of_text) (bind-IsSome read λ c. elim-IsSome (c == 0) is rest)
      ]

  skip_text-IsSome : (flags mask off : ℕ) → IsSome (skip_text input flags mask off)
  unfolding skip_text
  skip_text-IsSome flags mask off =
      if-IsSome (bit_and flags mask == 0) is
        (bind-IsSome (end_of_text-IsSome (length input) off (omega arith)) λ end. is)

  skip_fields-IsSome : (flags : ℕ) (off : Option ℕ) → IsSome (skip_fields input flags off)
  unfolding skip_fields
  skip_fields-IsSome flags none = is
  skip_fields-IsSome flags (some off) =
      bind-IsSome (skip_text-IsSome flags 8 off)
        λ off₁. bind-IsSome (skip_text-IsSome flags 16 off₁) λ off₂. is

  inflate-IsSome :
      (puff : ℕ → Bytes → ℕ → ℤ × ℕ × Bytes) (out_size : ℕ) (out : Bytes) (off : Option ℕ)
      → IsSome (inflate puff input out_size out off)
  unfolding inflate
  inflate-IsSome puff out_size out none = is
  inflate-IsSome puff out_size out (some off) = elim (Bool-cases (ltb (length input) (off + 8))) [
    | inl e ↦ rw (e, inflate) is
    | inr e ↦
        let size : ℕ = (length input - off - 8) % 2 ^ 32 in
        let inside : ltb (length input) (off + size) ≡ false = ground (arith, e) in
        rw (e, slice-fits input off size inside, inflate) is
  ]

  gunzip-IsSome :
      (puff : ℕ → Bytes → ℕ → ℤ × ℕ × Bytes) (out_size : ℕ) (out : Bytes)
      → IsSome (gunzip puff input out_size out)
  unfolding gunzip
  gunzip-IsSome puff out_size out = elim (Bool-cases (ltb (length input) 18)) [
    | inl e ↦ rw (e, gunzip) is
    | inr e ↦
        let h : 18 ≤ length input = ground (arith, e) in
        let (b0, e0) = byte-inside 0 (omega (arith, h)) in
        let (b1, e1) = byte-inside 1 (omega (arith, h)) in
        let (b2, e2) = byte-inside 2 (omega (arith, h)) in
        let (b3, e3) = byte-inside 3 (omega (arith, h)) in
        rw (e, gunzip, e0, e1, e2, e3)
          (if-IsSome (not (b0 == 31) || not (b1 == 139) || not (b2 == 8)) is (
            bind-IsSome (skip_extra-IsSome b3 h) λ off.
              bind-IsSome (skip_fields-IsSome b3 off)
                λ start. inflate-IsSome puff out_size out start))
  ]

split_frames-IsSome : (blob : Bytes) (out : List Bytes) → IsSome (split_frames blob out)
split_frames-IsSome blob out =
    let never = split-ne-none (suc (length blob)) blob out (omega arith) in
    IsSome-of (split_frames blob out) λ e. never (sym (split_frames-split blob out) ∙ e)

-- Whatever its payload holds and puff returns, expand_multi ends, and none of its own reads and
-- copies, the bytes it lets puff read among them, goes beyond the end of the payload or of the
-- decompressed data.
pub expand_multi-ne-none :
    (puff : ℕ → Bytes → ℕ → ℤ × ℕ × Bytes) (payload : Bytes) (size_unzipped : ℕ) (out : List Bytes)
    → expand_multi puff payload size_unzipped out ≢ none
unfolding expand_multi
expand_multi-ne-none puff payload size_unzipped out = ne-none (
    if-IsSome (size_unzipped == 0) (split_frames-IsSome payload out) (
      bind-IsSome (gunzip-IsSome payload puff size_unzipped [])
        λ (unzipped, raw). if-IsSome (not unzipped) is (split_frames-IsSome raw out)))
