-- ===== src/Framing/Multi.antt =====
-- core/steam_cm/multi.{hpp,cpp}: the messages that a CMsgMulti bundles, compressed by gzip or not. The
-- decompressor of third_party is a parameter: `puff` at the size of the destination, the source and its
-- size, with its result, how much it wrote, and the destination. A read or a copy of the code's own that
-- goes beyond the end of its input is `none`, and so is a loop that runs out of fuel.
pub mod Split
pub mod Frames
use Prim.Native.Nat.{bit_and, bit_or}
use steam_account_manager.Common.{
  ℕ, zero, suc, ◌+◌, ◌-◌, ◌*◌, ◌%◌, ◌^◌, List, [], ◌∷◌, ◌++◌, Bool, true, false, not, ◌||◌, Option,
  none, some, if◌then◌else◌, ltb, ◌==◌, length, drop, take, get_elem?, ◌>>=◌,
}
use steam_account_manager.Common.Int.{ℤ, pos, eq_ℤ}
use steam_account_manager.Framing.{Bytes, read_u32}

-- The field of extra bytes, if `flags` has it: the offset behind it, or a failure.
unfoldable pub skip_extra : Bytes → ℕ → ℕ → Option (Option ℕ)
skip_extra input flags off =
    if bit_and flags 4 == 0
    then some (some off)
    else if ltb (length input) (off + 2)
    then some none
    else do
      low ← get_elem? input off
      high ← get_elem? input (off + 1)
      some (some (off + (2 + bit_or low (high * 2 ^ 8))))

-- `std::vector(p + off, p + off + len)`, or `p + off` where `len` bytes are read.
unfoldable pub slice : Bytes → ℕ → ℕ → Option Bytes
slice s off len = if ltb (length s) (off + len) then none else some (take len (drop off s))

-- `while (off < in.size() && p[off] != 0) ++off;`.
unfoldable pub end_of_text : ℕ → Bytes → ℕ → Option ℕ
end_of_text zero input off = none
end_of_text (suc fuel) input off = elim (ltb off (length input)) [
  | false ↦ some off
  | true ↦ get_elem? input off >>= λ c. elim (c == 0) [
    | true ↦ some off
    | false ↦ end_of_text fuel input (off + 1)
  ]
]

unfoldable pub skip_text : Bytes → ℕ → ℕ → ℕ → Option ℕ
skip_text input flags mask off =
    if bit_and flags mask == 0
    then some off
    else do off ← end_of_text (suc (length input)) input off; some (off + 1)

-- puff is given the bytes it may read.
unfoldable pub inflate :
    (ℕ → Bytes → ℕ → ℤ × ℕ × Bytes) → Bytes → ℕ → Bytes → Option ℕ → Option (Bool × Bytes)
inflate puff input out_size out none = some (false, out)
inflate puff input out_size out (some off) =
    let size = (length input - off - 8) % 2 ^ 32 in
    if ltb (length input) (off + 8) then some (false, out) else do
      source ← slice input off size
      let (rc, destlen, raw) = puff out_size source size in
          some (
            if not (eq_ℤ rc (pos 0)) || not (destlen == out_size)
            then (false, raw)
            else (true, raw))

-- The offset of the compressed data, the fields of `flags` skipped.
unfoldable pub skip_fields : Bytes → ℕ → Option ℕ → Option (Option ℕ)
skip_fields input flags none = some none
skip_fields input flags (some off) = do
  off ← skip_text input flags 8 off
  off ← skip_text input flags 16 off
  some (some (if bit_and flags 2 == 0 then off else off + 2))

unfoldable pub gunzip : (ℕ → Bytes → ℕ → ℤ × ℕ × Bytes) → Bytes → ℕ → Bytes → Option (Bool × Bytes)
gunzip puff input out_size out = if ltb (length input) 18 then some (false, out) else do
  p0 ← get_elem? input 0
  p1 ← get_elem? input 1
  p2 ← get_elem? input 2
  if not (p0 == 31) || not (p1 == 139) || not (p2 == 8) then some (false, out) else do
    flags ← get_elem? input 3
    off ← skip_extra input flags 10
    start ← skip_fields input flags off
    inflate puff input out_size out start

-- The loop at `off`.
unfoldable pub split_loop : ℕ → Bytes → ℕ → List Bytes → Option (Bool × List Bytes)
split_loop zero blob off out = none
split_loop (suc fuel) blob off out = elim (ltb (length blob) (off + 4)) [
  | true ↦ some (off == length blob, out)
  | false ↦ read_u32 blob off >>= λ len.
      let off = off + 4 in
      elim (ltb (length blob) (off + len)) [
        | true ↦ some (false, out)
        | false ↦
            slice blob off len >>= λ frame. split_loop fuel blob (off + len) (out ++ (frame ∷ []))
      ]
]

unfoldable pub split_frames : Bytes → List Bytes → Option (Bool × List Bytes)
split_frames blob out = split_loop (suc (length blob)) blob 0 out

unfoldable pub expand_multi :
    (ℕ → Bytes → ℕ → ℤ × ℕ × Bytes) → Bytes → ℕ → List Bytes → Option (Bool × List Bytes)
expand_multi puff payload size_unzipped out =
    if size_unzipped == 0 then split_frames payload out else do
      (unzipped, raw) ← gunzip puff payload size_unzipped []
      if not unzipped then some (false, out) else split_frames raw out
