-- ===== src/Tests/Framed.antt =====
-- Runs of core/steam_cm/message.cpp, multi.cpp and core/cs2_gc/gc_message.cpp, with headers that are
-- their own bytes and a decompressor of stored data.
use steam_account_manager.Common.{
  ℕ, [], ◌∷◌, Bool, true, false, ◌≡◌, ◌≢◌, ◌↔◌, refl, ap, none, some, take, take-append, arith,
}
use steam_account_manager.Common.Int.{ℤ, pos, negsuc}
use steam_account_manager.Common.Every.{every}
use steam_account_manager.Framing.{Bytes, put_u32, read_u32}
use steam_account_manager.Framing.Message.{encode, decode}
use steam_account_manager.Framing.Message.RoundTrip.{decode-encode}
use steam_account_manager.Framing.Multi.{slice, split_frames, split_loop, expand_multi}
use steam_account_manager.Framing.Multi.Split.{join, are_short}
use steam_account_manager.Framing.Multi.Frames.{split_frames_iff, expand_multi-ne-none}

abbrev as_bytes : Bytes → Bytes
as_bytes h = h

abbrev first_bytes : Bytes → ℤ → Bool × Bytes
first_bytes s (pos n) = (true, take n s)
first_bytes s (negsuc n) = (false, [])

abbrev header : Bytes
header = 9 ∷ 8 ∷ 7 ∷ []

encoded :
    encode as_bytes 5452 header (1 ∷ 2 ∷ [])
    ≡ 76 ∷ 21 ∷ 0 ∷ 128 ∷ 3 ∷ 0 ∷ 0 ∷ 0 ∷ 9 ∷ 8 ∷ 7 ∷ 1 ∷ 2 ∷ []
unfolding encode put_u32
encoded = refl

decode-encode_example :
    decode first_bytes
      (encode as_bytes 5452 header (1 ∷ 2 ∷ []))
      (record { emsg = 0; header = []; body = [] })
    ≡ some (true, record { emsg = 5452; header = header; body = 1 ∷ 2 ∷ [] })
decode-encode_example =
    decode-encode as_bytes first_bytes (λ h rest. ap (λ b. (true, b)) (take-append h rest)) 5452
      header (1 ∷ 2 ∷ []) (record { emsg = 0; header = []; body = [] }) (omega arith) (omega arith)

abbrev blob : Bytes
blob = 1 ∷ 0 ∷ 0 ∷ 0 ∷ 7 ∷ 0 ∷ 0 ∷ 0 ∷ 0 ∷ 2 ∷ 0 ∷ 0 ∷ 0 ∷ 5 ∷ 6 ∷ []

splits : split_frames blob [] ≡ some (true, (7 ∷ []) ∷ [] ∷ (5 ∷ 6 ∷ []) ∷ [])
unfolding split_frames split_loop read_u32 slice
splits = refl

split_frames_iff_example :
    (split_frames blob [] ≡ some (true, (7 ∷ []) ∷ [] ∷ (5 ∷ 6 ∷ []) ∷ [])) ↔ (
      (blob ≡ join ((7 ∷ []) ∷ [] ∷ (5 ∷ 6 ∷ []) ∷ []))
      × (are_short ((7 ∷ []) ∷ [] ∷ (5 ∷ 6 ∷ []) ∷ []) ≡ true))
unfolding every
split_frames_iff_example = split_frames_iff blob ((7 ∷ []) ∷ [] ∷ (5 ∷ 6 ∷ []) ∷ []) refl

abbrev stored : ℕ → Bytes → ℕ → ℤ × ℕ × Bytes
stored size source n = (pos 0, size, take size source)

-- A gzip header whose name never ends.
abbrev unended : Bytes
unended = 31 ∷ 139 ∷ 8 ∷ 8 ∷ 1 ∷ 1 ∷ 1 ∷ 1 ∷ 1 ∷ 1 ∷ 1 ∷ 1 ∷ 1 ∷ 1 ∷ 1 ∷ 1 ∷ 1 ∷ 1 ∷ []

expand_multi-ne-none_example : expand_multi stored unended 4 [] ≢ none
expand_multi-ne-none_example = expand_multi-ne-none stored unended 4 []
