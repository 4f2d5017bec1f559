-- ===== src/Framing/Multi/Split.antt =====
-- core/steam_cm/multi.cpp: the loop of `split_frames`, by what is left of its input.
use Prim.Native.Nat.{bit_or}
use steam_account_manager.Common.{
  ℕ, zero, suc, ◌+◌, ◌*◌, ◌/◌, ◌%◌, ◌^◌, ◌≤◌, ◌<◌, List, [], ◌∷◌, ◌++◌, Bool, true, false, ◌≡◌, ◌≢◌,
  refl, ◌∙◌, ap, Option, none, some, arith, ltb, ◌==◌, length, drop, take, get_elem?, ◌>>=◌,
  length-drop, take-append, drop-append, length-append, append_assoc, append-nil, Bool-cases, inl,
  inr,
}
use steam_account_manager.Common.Every.{every}
use steam_account_manager.Framing.{Bytes, read_u32}
use steam_account_manager.Framing.Words.{word, four, word_value}
use steam_account_manager.Framing.Multi.{slice, split_loop}

get_elem?-drop : (xs : Bytes) (n i : ℕ) → get_elem? xs (n + i) ≡ get_elem? (drop n xs) i
get_elem?-drop xs zero i = let e : 0 + i ≡ i = omega arith in rw e
get_elem?-drop [] (suc n) i = refl
get_elem?-drop (x ∷ xs) (suc n) i =
    let e : suc n + i ≡ suc (n + i) = omega arith in rw e (get_elem?-drop xs n i)

read_u32-drop : (xs : Bytes) (n : ℕ) → read_u32 xs n ≡ read_u32 (drop n xs) 0
unfolding read_u32
read_u32-drop xs n =
    let e : n + 0 ≡ n = omega arith in
    rw
      (
        rw e at (get_elem?-drop xs n 0),
        get_elem?-drop xs n 1,
        get_elem?-drop xs n 2,
        get_elem?-drop xs n 3,
      )
      refl

drop-drop : (xs : Bytes) (m n : ℕ) → drop (m + n) xs ≡ drop n (drop m xs)
drop-drop xs zero n = let e : 0 + n ≡ n = omega arith in rw e
drop-drop [] (suc m) zero = let e : suc m + 0 ≡ suc m = omega arith in rw e
drop-drop [] (suc m) (suc n) = let e : suc m + suc n ≡ suc (m + suc n) = omega arith in rw e
drop-drop (x ∷ xs) (suc m) n =
    let e : suc m + n ≡ suc (m + n) = omega arith in rw e (drop-drop xs m n)

-- A frame of `len` bytes cut off, and what follows.
unfoldable pub at_len :
    ℕ
    → Bytes
    → List Bytes
    → (Bytes → List Bytes → Option (Bool × List Bytes))
    → Option (Bool × List Bytes)
at_len len rest out next = elim (ltb (length rest) len) [
  | true ↦ some (false, out)
  | false ↦ next (drop len rest) (out ++ (take len rest ∷ []))
]

-- The loop by what is left of the input.
unfoldable pub split : ℕ → Bytes → List Bytes → Option (Bool × List Bytes)
split zero s out = none
split (suc fuel) [] out = some (true, out)
split (suc fuel) (a ∷ []) out = some (false, out)
split (suc fuel) (a ∷ b ∷ []) out = some (false, out)
split (suc fuel) (a ∷ b ∷ c ∷ []) out = some (false, out)
split (suc fuel) (a ∷ b ∷ c ∷ d ∷ rest) out =
    at_len (bit_or (bit_or (bit_or a (b * 2 ^ 8)) (c * 2 ^ 16)) (d * 2 ^ 24)) rest out (split fuel)

-- At `off` the loop goes on with what is left there, of a blob of a size.
loop_on : ℕ → ℕ → ℕ → List Bytes → Bytes → Option (Bool × List Bytes)
loop_on fuel size off out s = elim (ltb size (off + 4)) [
  | true ↦ some (off == size, out)
  | false ↦ read_u32 s 0 >>= λ len. elim (ltb size (off + 4 + len)) [
    | true ↦ some (false, out)
    | false ↦ split fuel (drop len (drop 4 s)) (out ++ (take len (drop 4 s) ∷ []))
  ]
]

loop_on-split :
    (fuel size off : ℕ) (out : List Bytes) (s : Bytes)
    → size ≡ off + length s
    → loop_on fuel size off out s ≡ split (suc fuel) s out
unfolding loop_on split at_len read_u32
loop_on-split fuel size off out [] h = ground (arith, h)
loop_on-split fuel size off out (a ∷ []) h = ground (arith, h)
loop_on-split fuel size off out (a ∷ b ∷ []) h = ground (arith, h)
loop_on-split fuel size off out (a ∷ b ∷ c ∷ []) h = ground (arith, h)
loop_on-split fuel size off out (a ∷ b ∷ c ∷ d ∷ rest) h = ground (arith, h)

pub slice-fits :
    (s : Bytes) (off len : ℕ)
    → ltb (length s) (off + len) ≡ false
    → slice s off len ≡ some (take len (drop off s))
unfolding slice
slice-fits s off len h = rw h refl

bind_same :
    (o : Option ℕ) {f g : ℕ → Option (Bool × List Bytes)}
    → ((n : ℕ) → f n ≡ g n)
    → (o >>= f) ≡ (o >>= g)
bind_same none h = refl
bind_same (some n) h = h n

pub split_loop-split :
    (fuel : ℕ) (blob : Bytes) (off : ℕ) (out : List Bytes)
    → off ≤ length blob
    → split_loop fuel blob off out ≡ split fuel (drop off blob) out
unfolding split_loop split loop_on
split_loop-split zero blob off out h = refl
split_loop-split (suc fuel) blob off out h =
    let same : split_loop (suc fuel) blob off out
        ≡ loop_on fuel (length blob) off out (drop off blob) =
      elim (Bool-cases (ltb (length blob) (off + 4))) [
        | inl e ↦ rw (e, loop_on, split_loop)
        | inr e ↦
            rw (e, loop_on, split_loop, read_u32-drop blob off)
              (bind_same (read_u32 (drop off blob) 0) λ len.
                elim (Bool-cases (ltb (length blob) (off + 4 + len))) [
                  | inl k ↦ rw k
                  | inr k ↦
                      let next =
                        split_loop-split fuel blob (off + 4 + len)
                          (out ++ (take len (drop (off + 4) blob) ∷ [])) (ground (arith, k)) in
                      rw (
                        k,
                        slice-fits blob (off + 4) len k,
                        next,
                        drop-drop blob (off + 4) len,
                        drop-drop blob off 4,
                      )
                ])
      ] in
    same
    ∙ loop_on-split fuel (length blob) off out (drop off blob)
        (omega (arith, length-drop off blob, h))

-- Frames with their lengths in front.
unfoldable pub join : List Bytes → Bytes
join [] = []
join (f ∷ fs) = word (length f) ++ (f ++ join fs)

-- Each length fits its word.
abbrev pub are_short : List Bytes → Bool
are_short = every (λ f. ltb (length f) (2 ^ 32))

pub split-join :
    (fs : List Bytes) (fuel : ℕ) (out : List Bytes)
    → length fs < fuel
    → are_short fs ≡ true
    → split fuel (join fs) out ≡ some (true, out ++ fs)
unfolding split at_len join every
split-join fs zero out h k = absurd (omega (arith, h))
split-join [] (suc fuel) out h k = rw (append-nil out)
split-join (f ∷ fs) (suc fuel) out h k =
    let n = length f in
    let small : n < 2 ^ 32 = ground (arith, k) in
    let rest : are_short fs ≡ true = ground (arith, k) in
    let value =
      four (n % 256) (n / 2 ^ 8 % 256) (n / 2 ^ 16 % 256) (n / 2 ^ 24 % 256) (omega arith)
        (omega arith) (omega arith) in
    let fits : ltb (length (f ++ join fs)) n ≡ false = ground (arith, length-append f (join fs)) in
    ap (λ len. at_len len (f ++ join fs) out (split fuel)) (value ∙ word_value n small)
    ∙ rw
        (
          at_len,
          fits,
          take-append f (join fs),
          drop-append f (join fs),
          split-join fs fuel (out ++ (f ∷ [])) (omega (arith, h)) rest,
        )
        (ap (λ l. some (true, l)) (append_assoc out (f ∷ []) fs))

pub split-ne-none :
    (fuel : ℕ) (s : Bytes) (out : List Bytes) → length s < fuel → split fuel s out ≢ none
unfolding split at_len
split-ne-none zero s out h = absurd (omega (arith, h))
split-ne-none (suc fuel) [] out h = cc
split-ne-none (suc fuel) (a ∷ []) out h = cc
split-ne-none (suc fuel) (a ∷ b ∷ []) out h = cc
split-ne-none (suc fuel) (a ∷ b ∷ c ∷ []) out h = cc
split-ne-none (suc fuel) (a ∷ b ∷ c ∷ d ∷ rest) out h =
    let len = bit_or (bit_or (bit_or a (b * 2 ^ 8)) (c * 2 ^ 16)) (d * 2 ^ 24) in
    elim (Bool-cases (ltb (length rest) len)) [
      | inl e ↦ rw (e, split, at_len) cc
      | inr e ↦
          rw (e, split, at_len)
            (split-ne-none fuel (drop len rest) (out ++ (take len rest ∷ []))
              (omega (arith, length-drop len rest, h)))
    ]
