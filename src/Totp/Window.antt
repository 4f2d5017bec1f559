-- ===== src/Totp/Window.antt =====
-- core/sda/totp.cpp: how long a code stays.
use steam_account_manager.Common.{
  ℕ, ◌+◌, ◌-◌, ◌/◌, ◌%◌, ◌<◌, List, [], ◌≡◌, ◌≢◌, refl, ap, sym, ◌∙◌, arith, get_or,
}
use steam_account_manager.Common.Int.{pos, pos_part, ◌-ℤ◌}
use steam_account_manager.Codec.Base64.{base64_decode}
use steam_account_manager.Totp.{generate_code, code_of, seconds_remaining, time_buf, time_loop}

remaining : (n r : ℕ) → seconds_remaining (pos n) ≡ pos r → r ≡ 30 - n % 30
unfolding seconds_remaining ◌-ℤ◌
remaining n r h = ground (arith, ap pos_part h)

last_byte : (c : ℕ) → get_or (time_loop 8 (pos c) []) 7 0 ≡ c % 256
unfolding time_loop
last_byte c = refl

-- From a time that is not negative on, the code stays the same for as many seconds as
-- seconds_remaining says, and then the HMAC is asked for another message.
pub generate_code-window :
    (hmac_sha1 : List ℕ → List ℕ → List ℕ) (shared_secret : List ℕ) (n r : ℕ)
    → seconds_remaining (pos n) ≡ pos r
    → ((k : ℕ)
        → k < r
        → generate_code hmac_sha1 shared_secret (pos (n + k))
          ≡ generate_code hmac_sha1 shared_secret (pos n))
      × (time_buf (pos (n + r)) ≢ time_buf (pos n))
unfolding generate_code
generate_code-window hmac_sha1 shared_secret n r h =
    let e = remaining n r h in
    (
      λ k l.
          let same : (n + k) / 30 ≡ n / 30 = omega (arith, e, l) in
          ap (λ c. code_of hmac_sha1 (base64_decode shared_secret) (time_loop 8 (pos c) [])) same,
      λ q.
          let next : (n + r) / 30 ≡ n / 30 + 1 = omega (arith, e) in
          let bytes =
            sym (last_byte ((n + r) / 30)) ∙ ap (λ b. get_or b 7 0) q ∙ last_byte (n / 30) in
          omega (arith, bytes, next),
    )
