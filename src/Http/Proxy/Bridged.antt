-- ===== src/Http/Proxy/Bridged.antt =====
-- core/http/proxy.cpp: what parse_proxy accepts, and whose bridge an address is.
use steam_account_manager.Common.{
  ℕ, ◌≤◌, ◌<◌, ◌≡◌, ◌≢◌, refl, sym, ◌∙◌, ap, true, false, ◌||◌, arith, List, [], ◌∷◌, ◌++◌,
  append_assoc, ◌⊎◌, Option, none, some, text_eq, text_eq_iff, Option-cases, Bool-cases, inl, inr,
  map,
}
use steam_account_manager.Common.Int.{ℤ, pos, negsuc}
use steam_account_manager.Common.Text.{stoi, split_last, read_digits}
use steam_account_manager.Common.Text.Split.{lacks, lacks_join, split_first_inj, split_last_inj}
use steam_account_manager.SteamLocal.{to_string}
use steam_account_manager.SteamLocal.Decimal.{to_string-lacks, to_string-read}
use steam_account_manager.Http.Proxy.{
  ProxyEndpoint, trim, split_scheme, without_path, split_userinfo, port_of, parse_hostport,
  parse_proxy, upstream_key, Bridges, find_port, bridge_port, socks_bridge_address,
}
use steam_account_manager.Codec.Hex.{to_lower}

-- What an answer of the parser is good for.
abbrev pub IsUsable : Option ProxyEndpoint → Type 0
IsUsable none = Unit
IsUsable (some p) = (p.scheme ≢ []) × (p.host ≢ []) × (1 ≤ p.port) × (p.port < 65536)

is_empty : (s : List ℕ) → text_eq s [] ≡ false → s ≢ []
unfolding text_eq
is_empty [] h = ground (arith, h)
is_empty (c ∷ s) h = λ e. ground (arith, e)

port_range : (z : Option ℤ) (n : ℕ) → port_of z ≡ some n → (1 ≤ n) × (n < 65536)
unfolding port_of
port_range none n h = ground (arith, h)
port_range (some (negsuc k)) n h = ground (arith, h)
port_range (some (pos k)) n h = ground (arith, h)

parse_hostport-IsUsable :
    (scheme : List ℕ) (rest : (List ℕ × List ℕ) × List ℕ) → IsUsable (parse_hostport scheme rest)
unfolding parse_hostport
parse_hostport-IsUsable scheme (login, hostport) = elim (Option-cases (split_last b':' hostport)) [
  | inl e ↦ rw e tt
  | inr ((host, number), e) ↦ elim (Bool-cases (text_eq scheme [] || text_eq host [])) [
    | inl f ↦ rw (e, f) tt
    | inr f ↦ elim (Option-cases (port_of (stoi number))) [
      | inl g ↦ rw (e, f, g) tt
      | inr (n, g) ↦
          let (low, high) = port_range (stoi number) n g in
          rw (e, f, g)
            (is_empty scheme (ground (arith, f)), is_empty host (ground (arith, f)), low, high)
    ]
  ]
]

-- Whatever the text is, an endpoint that is found has a scheme, a host and a port from 1 to 65535.
pub parse_proxy-IsUsable : (raw : List ℕ) → IsUsable (parse_proxy raw)
unfolding parse_proxy
parse_proxy-IsUsable raw = elim (Option-cases (split_scheme (trim raw))) [
  | inl e ↦ rw e tt
  | inr (halves, e) ↦
      rw e (parse_hostport-IsUsable (to_lower halves.0) (split_userinfo (without_path halves.1)))
]

-- No `|` in the host and the user.
abbrev pub IsBarless : ProxyEndpoint → Type 0
IsBarless p = (lacks b'|' p.host ≡ true) × (lacks b'|' p.user ≡ true) × (p.port < 65536)

-- The same proxy, up to the name of its scheme.
abbrev pub SameUpstream : ProxyEndpoint → ProxyEndpoint → Type 0
SameUpstream p q = (p.host ≡ q.host) × (p.port ≡ q.port) × (p.user ≡ q.user) × (p.pass ≡ q.pass)

-- The host and the port, which stand before the first bar.
address : ProxyEndpoint → List ℕ
address p = p.host ++ (b':' ∷ to_string p.port)

upstream_key_lem :
    (p : ProxyEndpoint) → upstream_key p ≡ address p ++ (b'|' ∷ (p.user ++ (b'|' ∷ p.pass)))
unfolding upstream_key address
upstream_key_lem p =
    sym (append_assoc p.host (b':' ∷ to_string p.port) (b'|' ∷ (p.user ++ (b'|' ∷ p.pass))))

address-lacks : (p : ProxyEndpoint) → IsBarless p → lacks b'|' (address p) ≡ true
unfolding address
address-lacks p (h, k, l) =
    lacks_join b'|' b':' p.host (to_string p.port) refl h (to_string-lacks b'|' p.port refl)

-- Endpoints without bars share a key only as the same proxy.
pub upstream_key_inj :
    (p q : ProxyEndpoint)
    → IsBarless p
    → IsBarless q
    → upstream_key p ≡ upstream_key q
    → SameUpstream p q
unfolding address
upstream_key_inj p q h k e =
    let (first, login) =
      split_first_inj b'|' (address-lacks p h) (address-lacks q k)
        (sym (upstream_key_lem p) ∙ e ∙ upstream_key_lem q) in
    let (host, number) =
      split_last_inj b':' {a = p.host} {x = q.host} (to_string-lacks b':' p.port refl)
        (to_string-lacks b':' q.port refl) first in
    let (user, pass) = split_first_inj b'|' h.1 k.1 login in
    let port =
      sym (to_string-read p.port (omega (arith, h.2)))
      ∙ ap (read_digits 0) number
      ∙ to_string-read q.port (omega (arith, k.2)) in
    (host, port, user, pass)

abbrev pub key_of : ℕ × ProxyEndpoint → List ℕ × ℕ
key_of (port, p) = (upstream_key p, port)

abbrev pub AllBarless : List (ℕ × ProxyEndpoint) → Type 0
AllBarless [] = Unit
AllBarless ((port, p) ∷ loops) = IsBarless p × AllBarless loops

-- Each port is listed under the key of the loop that listens on it.
abbrev pub IsRouted : Bridges → Type 0
IsRouted bridges = (bridges.ports ≡ map key_of bridges.loops) × AllBarless bridges.loops

-- A loop that listens on the port for the same proxy.
abbrev pub ServedBy : ℕ → ProxyEndpoint → List (ℕ × ProxyEndpoint) → Type 0
ServedBy port p [] = ⊥
ServedBy port p ((n, q) ∷ loops) = ((n ≡ port) × SameUpstream p q) ⊎ ServedBy port p loops

find_port-ServedBy :
    (p : ProxyEndpoint) (port : ℕ) (loops : List (ℕ × ProxyEndpoint))
    → IsBarless p
    → AllBarless loops
    → find_port (upstream_key p) (map key_of loops) ≡ some port
    → ServedBy port p loops
unfolding find_port
find_port-ServedBy p port [] h k e = ground (arith, e)
find_port-ServedBy p port ((n, q) ∷ loops) h (l, k) e =
    let rest = find_port-ServedBy p port loops h k in
    elim (Bool-cases (text_eq (upstream_key q) (upstream_key p))) [
      | inl f ↦
          let same = (text_eq_iff (upstream_key q) (upstream_key p)).0 f in
          inl (ground (arith, rw f at e), upstream_key_inj p q h l (sym same))
      | inr f ↦ inr (rest (rw f at e))
    ]

-- A call and its answer.
abbrev pub IsAnswered : ProxyEndpoint → Bridges × Option ℕ → Type 0
IsAnswered p (bridges, none) = IsRouted bridges
IsAnswered p (bridges, some port) = IsRouted bridges × ServedBy port p bridges.loops

bridge_port-IsAnswered :
    (listener : Option ℕ) (p : ProxyEndpoint) (bridges : Bridges) (found : Option ℕ)
    → IsBarless p
    → IsRouted bridges
    → ((port : ℕ) → found ≡ some port → ServedBy port p bridges.loops)
    → IsAnswered p (bridge_port listener p bridges found)
unfolding bridge_port
bridge_port-IsAnswered listener p bridges (some port) h k served = (k, served port refl)
bridge_port-IsAnswered none p bridges none h k served = k
bridge_port-IsAnswered (some port) p bridges none h (k, l) served =
    ((ap (◌∷◌ (upstream_key p, port)) k, (h, l)), inl (refl, (refl, refl, refl, refl)))

-- Among proxies without `|` in host and user, and where each port is listed under the key of the
-- loop that listens on it: after a call of socks_bridge_address it still is, and the port that
-- the call answers with, a new one or a cached one, belongs to a loop for the same host, port,
-- user and password.
pub socks_bridge_address-IsAnswered :
    (listener : Option ℕ) (p : ProxyEndpoint) (bridges : Bridges)
    → IsBarless p
    → IsRouted bridges
    → IsAnswered p (socks_bridge_address listener p bridges)
unfolding socks_bridge_address
socks_bridge_address-IsAnswered listener p bridges h (k, l) =
    bridge_port-IsAnswered listener p bridges (find_port (upstream_key p) bridges.ports) h (k, l)
      (λ port e.
        find_port-ServedBy p port bridges.loops h l (sym (ap (find_port (upstream_key p)) k) ∙ e))
