-- ===== src/SteamLocal/Text.antt =====
-- core/steam_local/loginusers.cpp: the reader and the writer of Steam's text files. What the tokenizer
-- has still to read stands for its position. A run of the parser that needs more fuel than it has is
-- `none`.
use steam_account_manager.Common.{
  ℕ, zero, suc, ◌+◌, List, [], ◌∷◌, Bool, true, false, ◌&&◌, ◌||◌, Option, none, some,
  if◌then◌else◌, leb, ◌==◌, length, ◌>>=◌,
}
use steam_account_manager.SteamLocal.{VdfNode, node, VdfNodes, nil, next}

-- `Token`: its kind, and the value of a string.
pub data Token : Type 0 where
  string : List ℕ → Token
  lbrace rbrace end : Token

-- `std::isspace` of the C locale.
abbrev pub is_space : ℕ → Bool
is_space c = c == b' ' || leb 9 c && leb c 13

-- Does a comment begin at this character, in front of these?
abbrev pub starts_with_slash : List ℕ → Bool
starts_with_slash [] = false
starts_with_slash (d ∷ ds) = d == b'/'

abbrev pub is_slash : ℕ → List ℕ → Bool
is_slash c cs = c == b'/' && starts_with_slash cs

-- `skip_ws_and_comments`, between tokens and inside a comment; a newline is skipped as white space.
unfoldable pub skip_from : Bool → List ℕ → List ℕ
skip_from in_comment [] = []
skip_from true (c ∷ cs) =
    let inside = skip_from true cs in
    let outside = skip_from false cs in if c == b'\n' then outside else inside
skip_from false (c ∷ cs) =
    let behind = skip_from false cs in
    let comment = skip_from true cs in
    if is_space c then behind else if is_slash c cs then comment else c ∷ cs

-- The `switch` of `read_quoted`.
unfoldable pub unescape : ℕ → ℕ
unescape e = if e == b'n' then b'\n' else if e == b't' then b'\t' else e

-- `read_quoted`, behind the opening quote.
unfoldable pub read_quoted : List ℕ → List ℕ × List ℕ
read_quoted [] = ([], [])
read_quoted (c ∷ []) = if c == b'"' then ([], []) else (c ∷ [], [])
read_quoted (c ∷ e ∷ cs) =
    let escaped = read_quoted cs in
    let plain = read_quoted (e ∷ cs) in
    if c == b'"'
    then ([], e ∷ cs)
    else if c == b'\\'
    then (unescape e ∷ escaped.0, escaped.1)
    else (c ∷ plain.0, plain.1)

unfoldable pub read_bare : List ℕ → List ℕ × List ℕ
read_bare [] = ([], [])
read_bare (c ∷ cs) =
    let more = read_bare cs in
    if is_space c || c == b'{' || c == b'}' then ([], c ∷ cs) else (c ∷ more.0, more.1)

abbrev pub as_string : List ℕ × List ℕ → Token × List ℕ
as_string (out, rest) = (string out, rest)

unfoldable pub token_at : List ℕ → Token × List ℕ
token_at [] = (end, [])
token_at (c ∷ cs) =
    if c == b'{'
    then (lbrace, cs)
    else if c == b'}'
    then (rbrace, cs)
    else if c == b'"'
    then as_string (read_quoted cs)
    else as_string (read_bare (c ∷ cs))

-- `Tokenizer::next`.
unfoldable pub next_token : List ℕ → Token × List ℕ
next_token s = token_at (skip_from false s)

-- Behind a key: the value, and what `loop` reads of the block or of the rest.
unfoldable pub parse_value :
    (List ℕ → Option (VdfNodes × List ℕ)) → List ℕ → Token × List ℕ → Option (VdfNodes × List ℕ)
parse_value loop key (string value, s) =
    loop s >>= λ more. some (next (node key value false nil) more.0, more.1)
parse_value loop key (lbrace, s) = loop s >>= λ block.
    loop block.1 >>= λ more. some (next (node key [] true block.0) more.0, more.1)
parse_value loop key (rbrace, s) = some (next (node key [] false nil) nil, s)
parse_value loop key (end, s) = some (next (node key [] false nil) nil, s)

unfoldable pub parse_round :
    (List ℕ → Option (VdfNodes × List ℕ)) → Token × List ℕ → Option (VdfNodes × List ℕ)
parse_round loop (string key, s) = parse_value loop key (next_token s)
parse_round loop (lbrace, s) = loop s
parse_round loop (rbrace, s) = some (nil, s)
parse_round loop (end, s) = some (nil, s)

unfoldable pub parse_object_body : ℕ → List ℕ → Option (VdfNodes × List ℕ)
parse_object_body zero s = none
parse_object_body (suc f) s = parse_round (parse_object_body f) (next_token s)

-- The children of the root.
unfoldable pub parse_vdf : List ℕ → Option VdfNodes
parse_vdf text = parse_object_body (suc (length text)) text >>= λ r. some r.0

-- What is written stands in front of what is written after it, `rest`.
unfoldable pub escape : List ℕ → List ℕ → List ℕ
escape [] rest = rest
escape (c ∷ cs) rest =
    let more = escape cs rest in if c == b'\\' || c == b'"' then b'\\' ∷ c ∷ more else c ∷ more

unfoldable pub write_escaped : List ℕ → List ℕ → List ℕ
write_escaped s rest = b'"' ∷ escape s (b'"' ∷ rest)

unfoldable pub indent : ℕ → List ℕ → List ℕ
indent zero rest = rest
indent (suc depth) rest = b'\t' ∷ indent depth rest

unfoldable mutual
  pub serialize_node : VdfNode → ℕ → List ℕ → List ℕ
  serialize_node (node k v b cs) depth rest =
      let children = serialize_nodes cs (depth + 1) (indent depth (b'}' ∷ b'\n' ∷ rest)) in
      indent depth (
        write_escaped k (
          if b
          then b'\n' ∷ indent depth (b'{' ∷ b'\n' ∷ children)
          else b'\t' ∷ b'\t' ∷ write_escaped v (b'\n' ∷ rest)))

  pub serialize_nodes : VdfNodes → ℕ → List ℕ → List ℕ
  serialize_nodes nil depth rest = rest
  serialize_nodes (next n ns) depth rest = serialize_node n depth (serialize_nodes ns depth rest)

-- The text of a file.
unfoldable pub serialize : VdfNodes → List ℕ
serialize root = serialize_nodes root 0 []
