-- ===== src/Cs2/FriendCode/Decoded.antt =====
-- core/cs2/friend_code.cpp: which accounts a code can stand for.
use steam_account_manager.Common.{
  ℕ, ◌*◌, ◌%◌, ◌^◌, ◌<◌, ◌≡◌, ◌≢◌, refl, sym, ◌∙◌, ap, false, arith, List, Option, ◌==◌,
}
use steam_account_manager.Cs2.FriendCode.{friend_code, id_loop, hash_steam_id, byteswap64}
use steam_account_manager.Cs2.FriendCode.Rounds.{
  id_loop_inj, id_loop_bound, nibbles, nibbles_lem, byteswap64_lem, swapped, swapped_bound,
  swapped_inj,
}
use steam_account_manager.Cs2.FriendCode.Letters.{
  unread, last_letters, unread-last_letters, without_prefix-letter_loop,
}

-- The number behind a code.
number : (List ℕ → Option (List ℕ)) → ℕ → ℕ
number md5 id = id_loop 8 0 (hash_steam_id md5 id) id 0

number_bound : (md5 : List ℕ → Option (List ℕ)) (id : ℕ) → number md5 id < 2 ^ 40
unfolding number
number_bound md5 id = id_loop_bound 8 0 (hash_steam_id md5 id) id 0 refl (omega arith)

friend_code_lem :
    (md5 : List ℕ → Option (List ℕ)) (id : ℕ)
    → id ≢ 0
    → friend_code md5 id ≡ last_letters (swapped (number md5 id) * 16)
unfolding friend_code number
friend_code_lem md5 id h =
    let e : (id == 0) ≡ false = ground (arith, h) in
    let n : ℕ = number md5 id in
    let f : byteswap64 n ≡ swapped n * 16 * 2 ^ 20 =
      byteswap64_lem n (number_bound md5 id) ∙ omega arith in
    rw (e, f) (without_prefix-letter_loop (swapped n * 16))

both_nibbles :
    (md5 : List ℕ → Option (List ℕ)) (a b : ℕ)
    → number md5 a ≡ number md5 b
    → nibbles 8 a ≡ nibbles 8 b
unfolding number
both_nibbles md5 a b e =
    (id_loop_inj 8 0 (hash_steam_id md5 a) (hash_steam_id md5 b) a b 0 0 refl (omega arith)
      (omega arith) e).1

-- Two SteamIDs that are not 0 and have the same friend code have the same account id, their low
-- 32 bits, whatever digests MD5 gives or fails to give.
pub friend_code_inj :
    (md5 : List ℕ → Option (List ℕ)) (a b : ℕ)
    → a ≢ 0
    → b ≢ 0
    → friend_code md5 a ≡ friend_code md5 b
    → a % 2 ^ 32 ≡ b % 2 ^ 32
friend_code_inj md5 a b h k same =
    let letters = sym (friend_code_lem md5 a h) ∙ same ∙ friend_code_lem md5 b k in
    let x : unread (last_letters (swapped (number md5 a) * 16)) ≡ swapped (number md5 a) * 16 =
      unread-last_letters _ (omega (arith, swapped_bound (number md5 a))) in
    let y : unread (last_letters (swapped (number md5 b) * 16)) ≡ swapped (number md5 b) * 16 =
      unread-last_letters _ (omega (arith, swapped_bound (number md5 b))) in
    let numbers : number md5 a ≡ number md5 b =
      swapped_inj (number md5 a) (number md5 b) (number_bound md5 a) (number_bound md5 b)
        (omega (arith, x, y, ap unread letters)) in
    sym (nibbles_lem a) ∙ both_nibbles md5 a b numbers ∙ nibbles_lem b
