-- ===== src/Cs2/Kv/Total.antt =====
-- core/cs2_gc/kv.cpp: how much the tokens take, and `parse_kv` on any text.
use steam_account_manager.Common.{
  ℕ, zero, suc, ◌≤◌, ◌<◌, ◌≡◌, refl, List, [], ◌∷◌, Bool, true, false, not, ◌&&◌, Option, none,
  some, arith, length, drop, ◌==◌, Bool-cases, Option-cases, inl, inr, if◌then◌else◌,
}
use steam_account_manager.Cs2.Kv.{
  KvNode, kv_node, KvNodes, nil, next_to, Place, between, line_start, line, block_start, block,
  is_blank, starts_comment, skip_ws, read_quoted, ends_bare, read_bare, KvToken, open_brace,
  close_brace, word, token_at, next, Block, add_node, parse_block, has_bom, parse_kv, is_nil,
  answer,
}

-- Empty, or begun by no blank.
abbrev begins_bare : List ℕ → Bool
begins_bare [] = true
begins_bare (c ∷ s) = not (is_blank c)

abbrev IsSkipped : List ℕ → List ℕ → Type 0
IsSkipped s rest = (length rest ≤ length s) × (begins_bare rest ≡ true)

skip_ws-IsSkipped : (place : Place) (s : List ℕ) → IsSkipped s (skip_ws place s)
unfolding skip_ws
skip_ws-IsSkipped place [] = (omega arith, refl)
skip_ws-IsSkipped between (c ∷ s) =
    let (h, k) = skip_ws-IsSkipped between s in
    let more = λ (p : Place). skip_ws-IsSkipped p s in
    elim (Bool-cases (is_blank c)) [
      | inl e ↦ rw (e, skip_ws) (omega (arith, h), k)
      | inr e ↦ elim (Option-cases (starts_comment c s)) [
        | inl f ↦ rw (e, skip_ws, f) (omega arith, rw e refl)
        | inr (p, f) ↦ rw (e, skip_ws, f) (omega (arith, (more p).0), (more p).1)
      ]
    ]
skip_ws-IsSkipped line_start (c ∷ s) =
    let (h, k) = skip_ws-IsSkipped line s in (omega (arith, h), k)
skip_ws-IsSkipped line (c ∷ s) =
    let (h, k) = skip_ws-IsSkipped line s in
    let (l, m) = skip_ws-IsSkipped between s in
    elim (Bool-cases (c == b'\n')) [
      | inl e ↦ rw (e, skip_ws) (omega (arith, l), m)
      | inr e ↦ rw (e, skip_ws) (omega (arith, h), k)
    ]
skip_ws-IsSkipped block_start (c ∷ s) =
    let (h, k) = skip_ws-IsSkipped block s in (omega (arith, h), k)
skip_ws-IsSkipped block (c ∷ []) = elim (Bool-cases (is_blank c)) [
  | inl e ↦ rw e (omega arith, refl)
  | inr e ↦ rw e (omega arith, rw e refl)
]
skip_ws-IsSkipped block (c ∷ d ∷ s) =
    let (h, k) = skip_ws-IsSkipped block (d ∷ s) in
    let (l, m) = skip_ws-IsSkipped between s in
    elim (Bool-cases (c == b'*' && d == b'/')) [
      | inl e ↦ rw (e, skip_ws) (omega (arith, l), m)
      | inr e ↦ rw (e, skip_ws) (omega (arith, h), k)
    ]

length-read_quoted : (s : List ℕ) → length (read_quoted s).1 ≤ length s
unfolding read_quoted
length-read_quoted [] = omega arith
length-read_quoted (c ∷ []) = ground arith
length-read_quoted (c ∷ d ∷ s) = ground (arith, length-read_quoted s, length-read_quoted (d ∷ s))

length-read_bare : (s : List ℕ) → length (read_bare s).1 ≤ length s
unfolding read_bare
length-read_bare [] = omega arith
length-read_bare (c ∷ s) = ground (arith, length-read_bare s)

length-read_bare_first :
    (c : ℕ) (s : List ℕ) → ends_bare c ≡ false → length (read_bare (c ∷ s)).1 ≤ length s
unfolding read_bare
length-read_bare_first c s h = rw (h, read_bare) (omega (arith, length-read_bare s))

-- What a token leaves of a text.
abbrev IsShorter : Option (KvToken × List ℕ) → ℕ → Type 0
IsShorter none n = Unit
IsShorter (some (token, rest)) n = length rest < n

token_at-IsShorter : (s : List ℕ) → begins_bare s ≡ true → IsShorter (token_at s) (length s)
unfolding token_at
token_at-IsShorter [] h = tt
token_at-IsShorter (c ∷ s) h = elim (Bool-cases (c == b'{')) [
  | inl e ↦ rw e (omega arith)
  | inr e ↦ elim (Bool-cases (c == b'}')) [
    | inl f ↦ rw (e, f) (omega arith)
    | inr f ↦ elim (Bool-cases (c == b'"')) [
      | inl g ↦ rw (e, f, g) (omega (arith, length-read_quoted s))
      | inr g ↦
          let bare : ends_bare c ≡ false = ground (arith, h, e, f, g) in
          rw (e, f, g) (omega (arith, length-read_bare_first c s bare))
    ]
  ]
]

next-IsShorter : (s : List ℕ) → IsShorter (next s) (length s)
unfolding next
next-IsShorter s =
    let (small, bare) = skip_ws-IsSkipped between s in
    relax (token_at (skip_ws between s)) (token_at-IsShorter (skip_ws between s) bare) small
  where
    relax : (o : Option (KvToken × List ℕ)) {m n : ℕ} → IsShorter o m → m ≤ n → IsShorter o n
    relax none h k = tt
    relax (some (token, rest)) h k = omega (arith, h, k)

-- What a block leaves of a text.
abbrev IsParsed : Block → ℕ → Type 0
IsParsed none n = ⊥
IsParsed (some (nodes, rest)) n = length rest ≤ n

add_node-IsParsed :
    (node : KvNode) (o : Block) (m n : ℕ) → IsParsed o m → m ≤ n → IsParsed (add_node node o) n
unfolding add_node
add_node-IsParsed node none m n h k = absurd h
add_node-IsParsed node (some (nodes, rest)) m n h k = omega (arith, h, k)

longer : (o : Block) {m n : ℕ} → IsParsed o m → m ≤ n → IsParsed o n
longer none h k = h
longer (some (nodes, rest)) h k = omega (arith, h, k)

-- The rounds that are left, with the fuel that is left.
module _ (fuel : ℕ)
    (left : (s : List ℕ) → length s < fuel → IsParsed (parse_block fuel s) (length s)) where
  nested :
      (key inner : List ℕ) (n : ℕ) (o : Block)
      → o ≡ parse_block fuel inner
      → IsParsed o (length inner)
      → length inner < fuel
      → length inner ≤ n
      → IsParsed
          (elim o as (λ x. Block) [
            | none ↦ none
            | some (children, after) ↦ add_node (kv_node key [] children) (parse_block fuel after)
          ])
          n
  nested key inner n none e h k l = absurd h
  nested key inner n (some (children, after)) e h k l =
      add_node-IsParsed (kv_node key [] children) (parse_block fuel after) (length after) n
        (left after (omega (arith, h))) (omega (arith, h))

  module _ (s rest key : List ℕ) (e : next s ≡ some (word key, rest)) where
    key_end :
        next rest ≡ none → parse_block (suc fuel) s ≡ some (next_to (kv_node key [] nil) nil, [])
    unfolding parse_block
    key_end f = rw (e, parse_block, f) refl

    key_close :
        (after : List ℕ)
        → next rest ≡ some (close_brace, after)
        → parse_block (suc fuel) s ≡ some (next_to (kv_node key [] nil) nil, after)
    unfolding parse_block
    key_close after f = rw (e, parse_block, f) refl

    key_value :
        (value after : List ℕ)
        → next rest ≡ some (word value, after)
        → parse_block (suc fuel) s ≡ add_node (kv_node key value nil) (parse_block fuel after)
    unfolding parse_block
    key_value value after f = rw (e, parse_block, f) refl

    key_open :
        (inner : List ℕ)
        → next rest ≡ some (open_brace, inner)
        → parse_block (suc fuel) s ≡ elim (parse_block fuel inner) as (λ x. Block) [
          | none ↦ none
          | some (children, after) ↦ add_node (kv_node key [] children) (parse_block fuel after)
        ]
    unfolding parse_block
    key_open inner f = rw (e, parse_block, f) refl

  keyed :
      (s key rest : List ℕ) (o : Option (KvToken × List ℕ))
      → next s ≡ some (word key, rest)
      → next rest ≡ o
      → IsShorter o (length rest)
      → length rest < length s
      → length s < suc fuel
      → IsParsed (parse_block (suc fuel) s) (length s)
  keyed s key rest none e f h k l = rw (key_end s rest key e f) (omega arith)
  keyed s key rest (some (open_brace, inner)) e f h k l = rw (key_open s rest key e inner f) (
      nested key inner (length s) (parse_block fuel inner) refl (left inner (omega (arith, h)))
        (omega (arith, h)) (omega (arith, h)))
  keyed s key rest (some (close_brace, after)) e f h k l =
      rw (key_close s rest key e after f) (omega (arith, h))
  keyed s key rest (some (word value, after)) e f h k l =
      rw (key_value s rest key e value after f) (
        add_node-IsParsed (kv_node key value nil) (parse_block fuel after) (length after) (length s)
          (left after (omega (arith, h))) (omega (arith, h)))

  round_end : (s : List ℕ) → next s ≡ none → parse_block (suc fuel) s ≡ some (nil, [])
  unfolding parse_block
  round_end s e = rw (e, parse_block) refl

  round_close :
      (s rest : List ℕ)
      → next s ≡ some (close_brace, rest)
      → parse_block (suc fuel) s ≡ some (nil, rest)
  unfolding parse_block
  round_close s rest e = rw (e, parse_block) refl

  round_open :
      (s rest : List ℕ)
      → next s ≡ some (open_brace, rest)
      → parse_block (suc fuel) s ≡ parse_block fuel rest
  unfolding parse_block
  round_open s rest e = rw (e, parse_block) refl

  round :
      (s : List ℕ) (o : Option (KvToken × List ℕ))
      → next s ≡ o
      → IsShorter o (length s)
      → length s < suc fuel
      → IsParsed (parse_block (suc fuel) s) (length s)
  round s none e h k = rw (round_end s e) (omega arith)
  round s (some (close_brace, rest)) e h k = rw (round_close s rest e) (omega (arith, h))
  round s (some (open_brace, rest)) e h k =
      rw (round_open s rest e)
        (longer (parse_block fuel rest) (left rest (omega (arith, h))) (omega (arith, h)))
  round s (some (word key, rest)) e h k =
      keyed s key rest (next rest) e refl (next-IsShorter rest) h k

-- Fuel beyond the length of the text is enough.
parse_block-IsParsed :
    (fuel : ℕ) (s : List ℕ) → length s < fuel → IsParsed (parse_block fuel s) (length s)
parse_block-IsParsed zero s h = absurd (omega arith)
parse_block-IsParsed (suc fuel) s h =
    round fuel (parse_block-IsParsed fuel) s (next s) refl (next-IsShorter s) h

answered :
    (o : Block) (n : ℕ)
    → IsParsed o n
    → (nodes : KvNodes) × (answer o ≡ some (not (is_nil nodes), nodes))
unfolding answer
answered none n h = absurd h
answered (some (nodes, rest)) n h = (nodes, refl)

-- parse_kv reads every text, one unit of fuel for each character and one more being enough, and
-- answers whether the root has children.
pub parse_kv_total :
    (text : List ℕ) → (nodes : KvNodes) × (parse_kv text ≡ some (not (is_nil nodes), nodes))
unfolding parse_kv
parse_kv_total text =
    let begin : List ℕ = if has_bom text then drop 3 text else text in
    answered (parse_block (suc (length begin)) begin) (length begin)
      (parse_block-IsParsed (suc (length begin)) begin (omega arith))
