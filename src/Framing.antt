-- ===== src/Framing.antt =====
-- Little-endian words in a buffer: put_u32 and read_u32 of core/steam_cm/message.cpp and of
-- core/cs2_gc/gc_message.cpp, and the same loads in core/steam_cm/multi.cpp. A read beyond the end of
-- its buffer, which C++ leaves undefined, is `none`.
pub mod Words
pub mod Message
pub mod GcMessage
pub mod Multi
use Prim.Native.Nat.{bit_and, bit_or}
use steam_account_manager.Common.{
  ℕ, ◌+◌, ◌*◌, ◌/◌, ◌^◌, List, [], ◌∷◌, Option, some, get_elem?, ◌>>=◌,
}

abbrev pub Bytes : Type 0
Bytes = List ℕ

unfoldable pub put_u32 : Bytes → ℕ → Bytes
put_u32 [] v =
    bit_and v 255
    ∷ bit_and (v / 2 ^ 8) 255
    ∷ bit_and (v / 2 ^ 16) 255
    ∷ bit_and (v / 2 ^ 24) 255
    ∷ []
put_u32 (b ∷ buf) v = b ∷ put_u32 buf v

unfoldable pub read_u32 : Bytes → ℕ → Option ℕ
read_u32 p off = do
  a ← get_elem? p off
  b ← get_elem? p (off + 1)
  c ← get_elem? p (off + 2)
  d ← get_elem? p (off + 3)
  some (bit_or (bit_or (bit_or a (b * 2 ^ 8)) (c * 2 ^ 16)) (d * 2 ^ 24))
