-- ===== src/Trade/Links.antt =====
-- core/trade/trade_url.{hpp,cpp}: the links that trade offers are sent to.
pub mod RoundTrip
pub mod Accounts
use Prim.Native.Nat.{bit_or}
use steam_account_manager.Common.{
  ℕ, List, [], ◌∷◌, Bool, true, false, ◌||◌, Option, none, some, if◌then◌else◌, ltb, ◌==◌, text_eq,
}
use steam_account_manager.Codec.Base64.{codes}
use steam_account_manager.Common.Text.{split_first, stoull}

-- core/trade/models.hpp.
pub record TradeUrl : Type 0 where
  pub partner_account_id : ℕ
  pub token : List ℕ
  pub ok : Bool

-- A character in front of the first text.
unfoldable pub push_head : ℕ → List (List ℕ) → List (List ℕ)
push_head c [] = (c ∷ []) ∷ []
push_head c (s ∷ rest) = (c ∷ s) ∷ rest

-- The texts between the `&` of a query, in the order of the loop.
unfoldable pub pairs : List ℕ → List (List ℕ)
pairs [] = [] ∷ []
pairs (c ∷ s) = let rest = pairs s in if c == b'&' then [] ∷ rest else push_head c rest

unfoldable pub pair_value : List ℕ → List ℕ → Option (List ℕ)
pair_value key pair = elim (split_first b'=' pair) [
  | none ↦ none
  | some (name, value) ↦ if text_eq name key then some value else none
]

unfoldable pub first_value : List ℕ → List (List ℕ) → List ℕ
first_value key [] = []
first_value key (pair ∷ rest) = elim (pair_value key pair) [
  | some value ↦ value
  | none ↦ first_value key rest
]

-- `q`: what stands behind the first question mark.
unfoldable pub query_of : List ℕ → List ℕ
query_of url = elim (split_first b'?' url) [ none ↦ url | some (base, query) ↦ query ]

unfoldable pub query_value : List ℕ → List ℕ → List ℕ
query_value url key = first_value key (pairs (query_of url))

abbrev pub no_trade_url : TradeUrl
no_trade_url = record { partner_account_id = 0; token = []; ok = false }

-- The check of the number, and the fields behind it.
unfoldable pub accept_partner : List ℕ → Option ℕ → TradeUrl
accept_partner token none = no_trade_url
accept_partner token (some v) =
    if v == 0 || ltb 0xffffffff v
    then no_trade_url
    else record { partner_account_id = v; token = token; ok = true }

unfoldable pub parse_trade_url : List ℕ → TradeUrl
parse_trade_url url =
    let partner = query_value url (codes "partner") in
    let token = query_value url (codes "token") in
    if text_eq partner [] || text_eq token []
    then no_trade_url
    else accept_partner token (stoull partner)

-- `kIndividualBase`.
abbrev pub individual_base : ℕ
individual_base = 0x0110000100000000

unfoldable pub account_id_to_steam_id_64 : ℕ → ℕ
account_id_to_steam_id_64 account_id = bit_or individual_base account_id
