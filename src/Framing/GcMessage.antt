-- ===== src/Framing/GcMessage.antt =====
-- core/cs2_gc/gc_message.{hpp,cpp}: messages of the CS2 game coordinator inside a CMsgGCClient, of which
-- the fields are kept that the code reads or sets. `header_bytes` stands for what
-- `SerializeAsString` gives at a fresh CMsgProtoBufHeader.
pub mod RoundTrip
use Prim.Native.Nat.{bit_and, bit_or}
use steam_account_manager.Common.{
  ℕ, ◌+◌, ◌%◌, ◌^◌, List, [], ◌++◌, Bool, true, false, Option, some, if◌then◌else◌, ltb, length,
  drop, ◌>>=◌,
}
use steam_account_manager.Framing.{Bytes, put_u32, read_u32}
use steam_account_manager.Framing.Message.{proto_mask, id_mask}

-- `kCs2AppId` of gc_emsg.hpp.
abbrev pub cs2_app_id : ℕ
cs2_app_id = 730

-- `kGcProtoMask` and its complement: the marks of a frame.
abbrev pub gc_proto_mask : ℕ
gc_proto_mask = proto_mask

abbrev pub gc_id_mask : ℕ
gc_id_mask = id_mask

pub record GcClient : Type 0 where
  pub appid : ℕ
  pub msgtype : ℕ
  pub payload : Bytes

unfoldable pub build_gc_client : Bytes → ℕ → Bytes → GcClient
build_gc_client header_bytes gc_emsg gc_body =
    let msgtype = bit_or gc_emsg gc_proto_mask in
    let payload = put_u32 [] msgtype in
    let payload = put_u32 payload (length header_bytes % 2 ^ 32) in
    record { appid = cs2_app_id; msgtype = msgtype; payload = payload ++ header_bytes ++ gc_body }

-- The result, and what `gc_emsg` and `gc_body` are then.
unfoldable pub parse_gc_client : GcClient → ℕ → Bytes → Option (Bool × ℕ × Bytes)
parse_gc_client msg gc_emsg gc_body =
    let payload = msg.payload in
    if ltb (length payload) 8 then some (false, gc_emsg, gc_body) else do
      raw ← read_u32 payload 0
      header_len ← read_u32 payload 4
      if ltb (length payload) (8 + header_len)
          then some (false, bit_and raw gc_id_mask, gc_body)
          else some (true, bit_and raw gc_id_mask, drop ((8 + header_len) % 2 ^ 32) payload)
