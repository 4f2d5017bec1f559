-- ===== src/Tests/Guarding.antt =====
-- Runs of core/sda/totp.cpp with a constant HMAC, the one that RFC 4226 takes for its example.
use steam_account_manager.Common.{
  ℕ, ◌+◌, ◌%◌, ◌^◌, ◌<◌, List, [], ◌∷◌, ◌≡◌, ◌≢◌, refl, sym, ◌∙◌, some, length,
}
use steam_account_manager.Common.Int.{pos, ◌-ℤ◌}
use steam_account_manager.Codec.Base64.{
  codes, base64_decode, decode_loop, is_skipped, build_decode_table, fill_table,
}
use steam_account_manager.Totp.{generate_code, truncated, time_buf, seconds_remaining}
use steam_account_manager.Totp.Code.{generate_code-digits, code_value, truncation}
use steam_account_manager.Totp.Window.{generate_code-window}

abbrev mac : List ℕ → List ℕ → List ℕ
mac key message =
    31 ∷ 134 ∷ 152 ∷ 105 ∷ 14 ∷ 2 ∷ 202 ∷ 22 ∷ 97 ∷ 133 ∷ 80 ∷ 239 ∷ 127 ∷ 25 ∷ 218 ∷ 142 ∷ 148 ∷ 91
    ∷ 85 ∷ 90 ∷ []

abbrev secret : List ℕ
secret = codes "c2VjcmV0"

decoded : base64_decode secret ≡ 115 ∷ 101 ∷ 99 ∷ 114 ∷ 101 ∷ 116 ∷ []
unfolding base64_decode decode_loop is_skipped build_decode_table fill_table
decoded = refl

ne_nil : (c : ℕ) (cs : List ℕ) → c ∷ cs ≢ []
ne_nil c cs = cc

has_key : base64_decode secret ≢ []
has_key e = ne_nil _ _ (sym decoded ∙ e)

rfc_number : truncated (mac [] []) ≡ some 1357872921
unfolding truncated
rfc_number = refl

generate_code-digits_example :
    (code : List ℕ) × (generate_code mac secret (pos 1700000000) ≡ some code)
    × (length code ≡ 5)
    × (code_value code
        ≡ truncation (mac (base64_decode secret) (time_buf (pos 1700000000))) % 26 ^ 5)
generate_code-digits_example =
    generate_code-digits mac secret (pos 1700000000) (λ key message. refl) has_key

generate_code-window_example :
    ((k : ℕ)
      → k < 10
      → generate_code mac secret (pos (1700000000 + k)) ≡ generate_code mac secret (pos 1700000000))
    × (time_buf (pos (1700000000 + 10)) ≢ time_buf (pos 1700000000))
unfolding seconds_remaining ◌-ℤ◌
generate_code-window_example = generate_code-window mac secret 1700000000 10 refl
