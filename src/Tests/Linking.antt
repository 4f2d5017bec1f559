-- ===== src/Tests/Linking.antt =====
-- Friend codes, trade links, proxies and the game's texts at concrete inputs.
use steam_account_manager.Common.{
  ℕ, ◌%◌, ◌^◌, ◌≤◌, ◌↔◌, ◌≡◌, refl, true, List, [], ◌∷◌, ◌++◌, Option, some, replicate, arith, not,
  text_eq,
}
use steam_account_manager.Common.Every.{every}
use steam_account_manager.Codec.Base64.{codes}
use steam_account_manager.SteamLocal.{to_string}
use steam_account_manager.Crypto.{ok, strip_padding}
use steam_account_manager.Crypto.Padding.{strip_padding_iff}
use steam_account_manager.Cs2.FriendCode.{
  friend_code, hash_steam_id, strange_bytes, first_word, id_loop, next_r, byteswap64, swap_loop,
  letter_loop, without_prefix,
}
use steam_account_manager.Cs2.FriendCode.Decoded.{friend_code_inj}
use steam_account_manager.Cs2.Kv.{
  KvNodes, kv_node, nil, next_to, skip_ws, read_quoted, read_bare, token_at, next, parse_block,
  add_node, answer, has_bom, is_nil, parse_kv,
}
use steam_account_manager.Cs2.Kv.Total.{parse_kv_total}
use steam_account_manager.Trade.Links.{parse_trade_url, account_id_to_steam_id_64}
use steam_account_manager.Trade.Links.RoundTrip.{trade_link, parse_trade_url-trade_link}
use steam_account_manager.Trade.Links.Accounts.{steamid64_to_account_id-account_id_to_steam_id_64}
use steam_account_manager.Cleaner.Catalog.{steamid64_to_account_id}
use steam_account_manager.Http.Proxy.{
  ProxyEndpoint, parse_proxy, Bridges, upstream_key, socks_bridge_address,
}
use steam_account_manager.Http.Proxy.RoundTrip.{IsPlain, proxy_text, parse_proxy-proxy_text}
use steam_account_manager.Http.Proxy.Bridged.{
  IsBarless, IsAnswered, socks_bridge_address-IsAnswered,
}

strip_padding_iff_example :
    (strip_padding 16 (codes "token" ++ replicate 11 11) ≡ ok (codes "token")) ↔ (
      (n : ℕ) × (1 ≤ n)
      × (n ≤ 16)
      × (codes "token" ++ replicate 11 11 ≡ codes "token" ++ replicate n n))
strip_padding_iff_example = strip_padding_iff 16 (codes "token" ++ replicate 11 11) (codes "token")

-- A digest that is no digest, as the theorem asks nothing of it.
abbrev echo : List ℕ → Option (List ℕ)
echo bytes = some (bytes ++ bytes)

friend_code_run : friend_code echo 76561197960287930 ≡ friend_code echo 22202
unfolding friend_code hash_steam_id strange_bytes first_word id_loop next_r byteswap64 swap_loop
    letter_loop without_prefix text_eq
friend_code_run = refl

friend_code_inj_example : 76561197960287930 % 2 ^ 32 ≡ 22202 % 2 ^ 32
friend_code_inj_example =
    friend_code_inj echo 76561197960287930 22202 (λ e. ground (arith, e)) (λ e. ground (arith, e))
      friend_code_run

parse_trade_url-trade_link_example :
    parse_trade_url (trade_link 22202 (codes "xY-3_b=?"))
    ≡ record { partner_account_id = 22202; token = codes "xY-3_b=?"; ok = true }
unfolding every
parse_trade_url-trade_link_example =
    parse_trade_url-trade_link 22202 (codes "xY-3_b=?") (omega arith) (omega arith)
      (λ e. ground (arith, e)) refl

steamid64_to_account_id_example :
    steamid64_to_account_id (to_string (account_id_to_steam_id_64 22202)) ≡ 22202
steamid64_to_account_id_example =
    steamid64_to_account_id-account_id_to_steam_id_64 22202 (omega arith)

abbrev office : ProxyEndpoint
office = record {
  scheme = codes "socks5";
  user = codes "ann";
  pass = codes "p@ss:w";
  host = codes "10.0.0.7";
  port = 1080;
}

office-IsPlain : IsPlain office
unfolding every
office-IsPlain = record {
  scheme_named = λ e. ground (arith, e);
  scheme_plain = refl;
  user_plain = refl;
  pass_plain = refl;
  host_named = λ e. ground (arith, e);
  host_plain = refl;
  some_port = omega arith;
  small_port = omega arith;
}

parse_proxy-proxy_text_example : parse_proxy (proxy_text office) ≡ some office
parse_proxy-proxy_text_example = parse_proxy-proxy_text office office-IsPlain

abbrev one_bridge : Bridges
one_bridge = record { ports = (upstream_key office, 50001) ∷ []; loops = (50001, office) ∷ [] }

office-IsBarless : IsBarless office
unfolding every
office-IsBarless = (refl, refl, omega arith)

socks_bridge_address-IsAnswered_example :
    IsAnswered office (socks_bridge_address (some 50002) office one_bridge)
socks_bridge_address-IsAnswered_example =
    socks_bridge_address-IsAnswered (some 50002) office one_bridge office-IsBarless
      (refl, (office-IsBarless, tt))

-- Two logins that differ are given the same key.
abbrev bar_user : ProxyEndpoint
bar_user = record office { user = codes "a|b"; pass = codes "c" }

abbrev bar_pass : ProxyEndpoint
bar_pass = record office { user = codes "a"; pass = codes "b|c" }

upstream_key_run : upstream_key bar_user ≡ upstream_key bar_pass
unfolding upstream_key
upstream_key_run = refl

-- A comment that is not closed leaves its last character, as a key.
parse_kv_run :
    parse_kv (codes "a{b c}/* x")
    ≡ some (
      true,
      next_to
          (kv_node (codes "a") [] (next_to (kv_node (codes "b") (codes "c") nil) nil))
          (next_to (kv_node (codes "x") [] nil) nil),
    )
unfolding parse_kv parse_block answer has_bom is_nil next token_at read_bare read_quoted skip_ws
    add_node
parse_kv_run = refl

parse_kv_total_example :
    (nodes : KvNodes) × (parse_kv (codes "\"items_game\" { \"a\" 1 } // end")
      ≡ some (not (is_nil nodes), nodes))
parse_kv_total_example = parse_kv_total (codes "\"items_game\" { \"a\" 1 } // end")
