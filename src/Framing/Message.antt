-- ===== src/Framing/Message.antt =====
-- core/steam_cm/message.{hpp,cpp}: a protobuf message in the frame that a connection manager expects.
-- protobuf is a parameter: `serialize_as_string` and `parse_from_array` of CMsgProtoBufHeader, the
-- latter at a buffer and a size, with what it returns and the header it leaves.
pub mod RoundTrip
use Prim.Native.Nat.{bit_and, bit_or}
use steam_account_manager.Common.{
  ℕ, ◌+◌, ◌-◌, ◌%◌, ◌^◌, List, [], ◌++◌, Bool, true, false, not, Option, some, if◌then◌else◌, ltb,
  ◌==◌, length, drop, ◌>>=◌,
}
use steam_account_manager.Common.Int.{ℤ, pos, negsuc}
use steam_account_manager.Framing.{Bytes, put_u32, read_u32}

-- `kProtoMask` of emsg.hpp.
abbrev pub proto_mask : ℕ
proto_mask = 2147483648

-- `~kProtoMask`.
abbrev pub id_mask : ℕ
id_mask = 2147483647

pub record DecodedMessage (Header : Type 0) : Type 0 where
  pub emsg : ℕ
  pub header : Header
  pub body : Bytes

-- `static_cast<int>` of a 32-bit word.
abbrev pub to_int : ℕ → ℤ
to_int n = if ltb n 2147483648 then pos n else negsuc (4294967295 - n)

module _ {Header : Type 0} where
  unfoldable pub encode : (Header → Bytes) → ℕ → Header → Bytes → Bytes
  encode serialize_as_string emsg header body =
      let header_bytes = serialize_as_string header in
      let out = put_u32 [] (bit_or emsg proto_mask) in
      put_u32 out (length header_bytes % 2 ^ 32) ++ header_bytes ++ body

  -- `frame` is the `len` bytes at `data`. `out` is changed on failures too.
  unfoldable pub decode :
      (Bytes → ℤ → Bool × Header)
      → Bytes
      → DecodedMessage Header
      → Option (Bool × DecodedMessage Header)
  decode parse_from_array frame out = if ltb (length frame) 8 then some (false, out) else do
    raw ← read_u32 frame 0
    if bit_and raw proto_mask == 0
        then some (false, out)
        else let out = record out { emsg = bit_and raw id_mask } in
          do
            header_len ← read_u32 frame 4
            if ltb (length frame) (8 + header_len)
                then some (false, out)
                else let (parsed, header) = parse_from_array (drop 8 frame) (to_int header_len) in
                  let out = record out { header = header } in
                  if not parsed
                  then some (false, out)
                  else let body_off = (8 + header_len) % 2 ^ 32 in
                    some (true, record out { body = drop body_off frame })
