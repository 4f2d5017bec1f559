-- ===== src/Cs2/Kv.antt =====
-- core/cs2_gc/kv.{hpp,cpp}: the game's KeyValues text. The pointer `p` is the text from it on; a char
-- is a byte.
pub mod Total
use steam_account_manager.Common.{
  ℕ, zero, suc, List, [], ◌∷◌, Bool, true, false, not, ◌&&◌, ◌||◌, Option, none, some, ◌>>=◌,
  if◌then◌else◌, ltb, leb, ◌==◌, text_eq, length, drop,
}
use steam_account_manager.Codec.Hex.{to_lower}

mutual
  pub data KvNode : Type 0 where
    kv_node : List ℕ → List ℕ → KvNodes → KvNode

  pub data KvNodes : Type 0 where
    nil : KvNodes
    next_to : KvNode → KvNodes → KvNodes

-- Where `skip_ws` is: between comments, on the second character of a comment's start, in a comment.
pub data Place : Type 0 where
  between line_start line block_start block : Place

abbrev pub is_blank : ℕ → Bool
is_blank c = leb c b' '

abbrev pub comment_place : ℕ → Option Place
comment_place c =
    if c == b'/' then some line_start else if c == b'*' then some block_start else none

abbrev pub starts_comment : ℕ → List ℕ → Option Place
starts_comment c [] = none
starts_comment c (d ∷ s) = if c == b'/' then comment_place d else none

-- The text from the first character that is not skipped. The end of a line is blank.
unfoldable pub skip_ws : Place → List ℕ → List ℕ
skip_ws place [] = []
skip_ws between (c ∷ s) = elim (is_blank c) [
  | true ↦ skip_ws between s
  | false ↦ elim (starts_comment c s) [ none ↦ c ∷ s | some place ↦ skip_ws place s ]
]
skip_ws line_start (c ∷ s) = skip_ws line s
skip_ws line (c ∷ s) = elim (c == b'\n') [ true ↦ skip_ws between s | false ↦ skip_ws line s ]
skip_ws block_start (c ∷ s) = skip_ws block s
skip_ws block (c ∷ []) = if is_blank c then [] else c ∷ []
skip_ws block (c ∷ d ∷ s) = elim (c == b'*' && d == b'/') [
  | true ↦ skip_ws between s
  | false ↦ skip_ws block (d ∷ s)
]

abbrev pub unescape : ℕ → ℕ
unescape c = if c == b'n' then b'\n' else if c == b't' then b'\t' else c

abbrev pub Read : Type 0
Read = List ℕ × List ℕ

abbrev pub push_read : ℕ → Read → Read
push_read c (out, rest) = (c ∷ out, rest)

-- Behind the opening quote: the word, and the text behind the closing one.
unfoldable pub read_quoted : List ℕ → Read
read_quoted [] = ([], [])
read_quoted (c ∷ []) = if c == b'"' then ([], []) else (c ∷ [], [])
read_quoted (c ∷ d ∷ s) = elim (c == b'"') [
  | true ↦ ([], d ∷ s)
  | false ↦ elim (c == b'\\') [
    | true ↦ push_read (unescape d) (read_quoted s)
    | false ↦ push_read c (read_quoted (d ∷ s))
  ]
]

abbrev pub ends_bare : ℕ → Bool
ends_bare c = is_blank c || c == b'{' || c == b'}' || c == b'"'

unfoldable pub read_bare : List ℕ → Read
read_bare [] = ([], [])
read_bare (c ∷ s) = elim (ends_bare c) [ true ↦ ([], c ∷ s) | false ↦ push_read c (read_bare s) ]

-- A brace, or the text of `out`.
pub data KvToken : Type 0 where
  open_brace close_brace : KvToken
  word : List ℕ → KvToken

abbrev pub as_word : Read → Option (KvToken × List ℕ)
as_word (out, rest) = some (word out, rest)

unfoldable pub token_at : List ℕ → Option (KvToken × List ℕ)
token_at [] = none
token_at (c ∷ s) =
    if c == b'{'
    then some (open_brace, s)
    else if c == b'}'
    then some (close_brace, s)
    else if c == b'"'
    then as_word (read_quoted s)
    else as_word (read_bare (c ∷ s))

-- `none` at the end of the text.
unfoldable pub next : List ℕ → Option (KvToken × List ℕ)
next s = token_at (skip_ws between s)

abbrev pub Block : Type 0
Block = Option (KvNodes × List ℕ)

unfoldable pub add_node : KvNode → Block → Block
add_node node none = none
add_node node (some (nodes, rest)) = some (next_to node nodes, rest)

-- The rounds of `parse_block`, at most one for each step of the fuel; `none` is no fuel.
unfoldable pub parse_block : ℕ → List ℕ → Block
parse_block zero s = none
parse_block (suc fuel) s = elim (next s) [
  | none ↦ some (nil, [])
  | some (close_brace, rest) ↦ some (nil, rest)
  | some (open_brace, rest) ↦ parse_block fuel rest
  | some (word key, rest) ↦ elim (next rest) [
    | none ↦ some (next_to (kv_node key [] nil) nil, [])
    | some (open_brace, inner) ↦ elim (parse_block fuel inner) [
      | none ↦ none
      | some (children, after) ↦ add_node (kv_node key [] children) (parse_block fuel after)
    ]
    | some (close_brace, after) ↦ some (next_to (kv_node key [] nil) nil, after)
    | some (word value, after) ↦ add_node (kv_node key value nil) (parse_block fuel after)
  ]
]

unfoldable pub has_bom : List ℕ → Bool
has_bom (a ∷ b ∷ c ∷ s) = a == 0xef && b == 0xbb && c == 0xbf
has_bom s = false

unfoldable pub is_nil : KvNodes → Bool
is_nil nil = true
is_nil (next_to node nodes) = false

unfoldable pub answer : Block → Option (Bool × KvNodes)
answer none = none
answer (some (nodes, rest)) = some (not (is_nil nodes), nodes)

-- The answer and the children of the root. A round takes a character, so the length is fuel enough.
unfoldable pub parse_kv : List ℕ → Option (Bool × KvNodes)
parse_kv text =
    let begin = if has_bom text then drop 3 text else text in
    answer (parse_block (suc (length begin)) begin)

unfoldable pub iequals : List ℕ → List ℕ → Bool
iequals a b = text_eq (to_lower a) (to_lower b)

unfoldable pub find : List ℕ → KvNodes → Option KvNode
find k nil = none
find k (next_to (kv_node key value children) rest) =
    let found = find k rest in if iequals key k then some (kv_node key value children) else found
