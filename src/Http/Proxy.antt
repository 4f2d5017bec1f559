-- ===== src/Http/Proxy.antt =====
-- core/http/proxy.{hpp,cpp}: the address of a proxy, and the bridges to SOCKS5 proxies. A bridge's
-- listener is the operating system's: the port it got is an argument, `none` where a call failed.
pub mod RoundTrip
pub mod Bridged
use steam_account_manager.Common.{
  ℕ, List, [], ◌∷◌, ◌++◌, Bool, true, false, not, ◌&&◌, ◌||◌, Option, none, some, ◌>>=◌,
  if◌then◌else◌, ltb, leb, ◌==◌, text_eq, drop,
}
use steam_account_manager.Common.Int.{ℤ, pos, negsuc}
use steam_account_manager.Common.Text.{
  is_space, skip_spaces, Halves, push_front, split_first, split_last, stoi,
}
use steam_account_manager.Codec.Base64.{codes}
use steam_account_manager.Codec.Hex.{to_lower}
use steam_account_manager.SteamLocal.{to_string}

pub record ProxyEndpoint : Type 0 where
  pub scheme : List ℕ
  pub user : List ℕ
  pub pass : List ℕ
  pub host : List ℕ
  pub port : ℕ

unfoldable pub is_socks : ProxyEndpoint → Bool
is_socks p =
    text_eq p.scheme (codes "socks5")
    || text_eq p.scheme (codes "socks5h")
    || text_eq p.scheme (codes "socks")

-- The second loop of `trim`.
unfoldable pub trim_end : List ℕ → List ℕ
trim_end [] = []
trim_end (c ∷ s) = let rest = trim_end s in if text_eq rest [] && is_space c then [] else c ∷ rest

unfoldable pub trim : List ℕ → List ℕ
trim s = trim_end (skip_spaces s)

unfoldable pub slashes_first : List ℕ → Bool
slashes_first (c ∷ d ∷ s) = c == b'/' && d == b'/'
slashes_first s = false

-- `find("://")`, with what stands before and behind it.
unfoldable pub split_scheme : List ℕ → Halves
split_scheme [] = none
split_scheme (c ∷ s) =
    let rest = split_scheme s in
    if c == b':' && slashes_first s then some ([], drop 2 s) else push_front c rest

-- `rest` without the path.
unfoldable pub without_path : List ℕ → List ℕ
without_path rest = elim (split_first b'/' rest) [ none ↦ rest | some (front, path) ↦ front ]

-- The user and the password.
unfoldable pub parse_userinfo : List ℕ → List ℕ × List ℕ
parse_userinfo userinfo = elim (split_first b':' userinfo) [
  | none ↦ (userinfo, [])
  | some (user, pass) ↦ (user, pass)
]

-- The user, the password and `hostport`.
unfoldable pub split_userinfo : List ℕ → (List ℕ × List ℕ) × List ℕ
split_userinfo rest = elim (split_last b'@' rest) [
  | none ↦ (([], []), rest)
  | some (userinfo, hostport) ↦ (parse_userinfo userinfo, hostport)
]

unfoldable pub port_of : Option ℤ → Option ℕ
port_of none = none
port_of (some (negsuc n)) = none
port_of (some (pos n)) = if n == 0 || ltb 65535 n then none else some n

unfoldable pub parse_hostport : List ℕ → (List ℕ × List ℕ) × List ℕ → Option ProxyEndpoint
parse_hostport scheme (login, hostport) = do
  (host, number) ← split_last b':' hostport
  let unnamed = text_eq scheme [] || text_eq host []
  port ← if unnamed then none else port_of (stoi number)
  some (record { scheme = scheme; user = login.0; pass = login.1; host = host; port = port })

unfoldable pub parse_proxy : List ℕ → Option ProxyEndpoint
parse_proxy raw = split_scheme (trim raw) >>= λ halves.
    parse_hostport (to_lower halves.0) (split_userinfo (without_path halves.1))

unfoldable pub upstream_key : ProxyEndpoint → List ℕ
upstream_key p = p.host ++ (b':' ∷ (to_string p.port ++ (b'|' ∷ (p.user ++ (b'|' ∷ p.pass)))))

-- `g_ports`, and each `accept_loop` that was started: its port and its `upstream`.
pub record Bridges : Type 0 where
  pub ports : List (List ℕ × ℕ)
  pub loops : List (ℕ × ProxyEndpoint)

unfoldable pub find_port : List ℕ → List (List ℕ × ℕ) → Option ℕ
find_port key [] = none
find_port key ((k, port) ∷ rest) =
    let found = find_port key rest in if text_eq k key then some port else found

-- The port a call answers with, where it answers, and what it leaves behind.
unfoldable pub bridge_port : Option ℕ → ProxyEndpoint → Bridges → Option ℕ → Bridges × Option ℕ
bridge_port listener upstream bridges (some port) = (bridges, some port)
bridge_port none upstream bridges none = (bridges, none)
bridge_port (some port) upstream bridges none = (
  record {
    ports = (upstream_key upstream, port) ∷ bridges.ports;
    loops = (port, upstream) ∷ bridges.loops;
  },
  some port,
)

-- The answer is `127.0.0.1:` and this port.
unfoldable pub socks_bridge_address : Option ℕ → ProxyEndpoint → Bridges → Bridges × Option ℕ
socks_bridge_address listener upstream bridges =
    bridge_port listener upstream bridges (find_port (upstream_key upstream) bridges.ports)
