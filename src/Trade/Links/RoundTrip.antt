-- ===== src/Trade/Links/RoundTrip.antt =====
-- core/trade/trade_url.cpp: a link as Steam gives it, parsed.
use steam_account_manager.Common.{
  ℕ, ◌^◌, ◌≤◌, ◌<◌, ◌≡◌, ◌≢◌, ◌⊎◌, refl, ◌∙◌, ap, true, false, arith, List, [], ◌∷◌, ◌++◌, Option,
  none, some, ◌||◌, ltb, ◌==◌, text_eq, Bool-cases, inl, inr,
}
use steam_account_manager.Common.Every.{every}
use steam_account_manager.Codec.Base64.{codes}
use steam_account_manager.Common.Text.{stoull, split_first}
use steam_account_manager.Common.Text.Split.{lacks, not_empty, split_first-append}
use steam_account_manager.Common.Text.Numbers.{stoull_lem, first_not_empty}
use steam_account_manager.SteamLocal.{to_string}
use steam_account_manager.SteamLocal.Decimal.{to_string-first, to_string-read, to_string-lacks}
use steam_account_manager.Trade.Links.{
  TradeUrl, push_head, pairs, pair_value, first_value, query_of, query_value, accept_partner,
  parse_trade_url,
}

-- A text without `&` is one pair, and one before `&` is the first.
pairs-lacks : (s : List ℕ) → lacks b'&' s ≡ true → pairs s ≡ s ∷ []
unfolding pairs push_head every
pairs-lacks [] h = refl
pairs-lacks (c ∷ s) h = ground (arith, h, pairs-lacks s)

pairs-append : (s rest : List ℕ) → lacks b'&' s ≡ true → pairs (s ++ (b'&' ∷ rest)) ≡ s ∷ pairs rest
unfolding pairs push_head every
pairs-append [] rest h = ground arith
pairs-append (c ∷ s) rest h = ground (arith, h, pairs-append s rest)

-- The link of an account.
abbrev pub trade_link : ℕ → List ℕ → List ℕ
trade_link account_id token =
    codes "https://steamcommunity.com/tradeoffer/new/"
    ++ (b'?' ∷ (codes "partner=" ++ (to_string account_id ++ (b'&' ∷ (codes "token=" ++ token)))))

partner_value :
    (value : List ℕ) → pair_value (codes "partner") (codes "partner=" ++ value) ≡ some value
unfolding pair_value split_first text_eq
partner_value value = refl

partner_token : (value : List ℕ) → pair_value (codes "token") (codes "partner=" ++ value) ≡ none
unfolding pair_value split_first text_eq
partner_token value = refl

token_value : (value : List ℕ) → pair_value (codes "token") (codes "token=" ++ value) ≡ some value
unfolding pair_value split_first text_eq
token_value value = refl

query_of_lem :
    (url base query : List ℕ) → split_first b'?' url ≡ some (base, query) → query_of url ≡ query
unfolding query_of
query_of_lem url base query e = rw (e, query_of) refl

link_pairs :
    (account_id : ℕ) (token : List ℕ)
    → lacks b'&' token ≡ true
    → pairs (query_of (trade_link account_id token))
      ≡ (codes "partner=" ++ to_string account_id) ∷ (codes "token=" ++ token) ∷ []
unfolding every
link_pairs account_id token h =
    let front : lacks b'&' (codes "partner=" ++ to_string account_id) ≡ true =
      to_string-lacks b'&' account_id refl in
    ap pairs (
      query_of_lem (trade_link account_id token)
        (codes "https://steamcommunity.com/tradeoffer/new/")
        (codes "partner=" ++ (to_string account_id ++ (b'&' ∷ (codes "token=" ++ token))))
        (split_first-append b'?' (codes "https://steamcommunity.com/tradeoffer/new/")
          (codes "partner=" ++ (to_string account_id ++ (b'&' ∷ (codes "token=" ++ token)))) refl))
    ∙ pairs-append (codes "partner=" ++ to_string account_id) (codes "token=" ++ token) front
    ∙ ap (◌∷◌ (codes "partner=" ++ to_string account_id)) (pairs-lacks (codes "token=" ++ token) h)

value_found :
    (key pair value : List ℕ) (rest : List (List ℕ))
    → pair_value key pair ≡ some value
    → first_value key (pair ∷ rest) ≡ value
unfolding first_value
value_found key pair value rest e = rw (e, first_value) refl

value_later :
    (key pair : List ℕ) (rest : List (List ℕ))
    → pair_value key pair ≡ none
    → first_value key (pair ∷ rest) ≡ first_value key rest
unfolding first_value
value_later key pair rest e = rw (e, first_value) refl

-- The two values of a link.
link_values :
    (account_id : ℕ) (token : List ℕ)
    → lacks b'&' token ≡ true
    → (query_value (trade_link account_id token) (codes "partner") ≡ to_string account_id)
      × (query_value (trade_link account_id token) (codes "token") ≡ token)
unfolding query_value
link_values account_id token h =
    let shown = link_pairs account_id token h in
    let partner = codes "partner=" ++ to_string account_id in
    (
      ap (first_value (codes "partner")) shown
          ∙ value_found (codes "partner") partner (to_string account_id) _
              (partner_value (to_string account_id)),
      ap (first_value (codes "token")) shown
          ∙ value_later (codes "token") partner _ (partner_token (to_string account_id))
          ∙ value_found (codes "token") (codes "token=" ++ token) token [] (token_value token),
    )

-- parse_trade_url takes the account id and the token back from a trade link as Steam gives it,
-- for every account id from 1 to 2^32 - 1 and every token that is not empty and has no `&`.
pub parse_trade_url-trade_link :
    (account_id : ℕ) (token : List ℕ)
    → 1 ≤ account_id
    → account_id < 2 ^ 32
    → token ≢ []
    → lacks b'&' token ≡ true
    → parse_trade_url (trade_link account_id token)
      ≡ record { partner_account_id = account_id; token = token; ok = true }
unfolding parse_trade_url accept_partner
parse_trade_url-trade_link account_id token some_id small some_token h =
    let (partner, value) = link_values account_id token h in
    let read = to_string-read account_id (omega arith) in
    let first = to_string-first account_id in
    let number : stoull (to_string account_id) ≡ some account_id =
      stoull_lem (to_string account_id) first (omega (arith, read)) ∙ ap some read in
    let zero_test : (account_id == 0 || ltb 0xffffffff account_id) ≡ false =
      ground (arith, some_id, small) in
    rw
      (
        partner,
        value,
        first_not_empty (to_string account_id) first,
        not_empty token some_token,
        number,
        zero_test,
      )
      refl

is_empty : (s : List ℕ) → text_eq s [] ≡ false → s ≢ []
unfolding text_eq
is_empty [] h = ground (arith, h)
is_empty (c ∷ s) h = λ e. ground (arith, e)

-- What the parser gives: the fields of a link in range, or none at all.
abbrev pub IsSound : TradeUrl → Type 0
IsSound out =
    ((out.ok ≡ true)
      × (1 ≤ out.partner_account_id)
      × (out.partner_account_id < 2 ^ 32)
      × (out.token ≢ []))
    ⊎ ((out.ok ≡ false) × (out.partner_account_id ≡ 0) × (out.token ≡ []))

accept_partner-IsSound :
    (token : List ℕ) (v : Option ℕ) → token ≢ [] → IsSound (accept_partner token v)
unfolding accept_partner
accept_partner-IsSound token none h = inr (refl, refl, refl)
accept_partner-IsSound token (some v) h = elim (Bool-cases (v == 0 || ltb 0xffffffff v)) [
  | inl e ↦ rw e (inr (refl, refl, refl))
  | inr e ↦ rw e (inl (refl, ground (arith, e), ground (arith, e), h))
]

-- Whatever the link is, the parser gives an id from 1 to 2^32 - 1 and a token that is not empty, or no
-- id, no token and a failure.
pub parse_trade_url-IsSound : (url : List ℕ) → IsSound (parse_trade_url url)
unfolding parse_trade_url
parse_trade_url-IsSound url =
    let token = query_value url (codes "token") in
    elim (Bool-cases (text_eq (query_value url (codes "partner")) [])) [
      | inl e ↦ rw e (inr (refl, refl, refl))
      | inr e ↦ elim (Bool-cases (text_eq token [])) [
        | inl f ↦ rw (e, f) (inr (refl, refl, refl))
        | inr f ↦
            rw (e, f)
              (accept_partner-IsSound token (stoull (query_value url (codes "partner")))
                (is_empty token f))
      ]
    ]
