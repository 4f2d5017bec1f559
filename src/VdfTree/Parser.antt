-- ===== src/VdfTree/Parser.antt =====
-- core/cleaner/vdf_tree.cpp, class Parser and `parse`.
-- `src_` and `pos_` are the suffix that is still to be read. The loops of `skip_ws` are one
-- recursion whose mode says in which loop it is. The two loops of `parse_object`, the `while`
-- and the nesting, run on fuel.
use steam_account_manager.Common.{
  ℕ, zero, suc, ◌+◌, List, [], ◌∷◌, ◌||◌, ◌&&◌, Bool, Option, none, some, ◌==◌, if◌then◌else◌,
  length,
}
use steam_account_manager.VdfTree.{Node, object, leaf, Children, nil, entry, Document}

pub record Position : Type 0 where
  pub line : ℕ
  pub col : ℕ

pub record Cursor : Type 0 where
  pub rest : List ℕ
  pub pos : Position

pub data Message : Type 0 where
  expected_root_key expected_open_brace unexpected_end expected_key expected_value : Message

pub record ParseError : Type 0 where
  pub line : ℕ
  pub column : ℕ
  pub message : Message

pub data Result {ℓ} (A : Type ℓ) : Type ℓ where
  ok : A → Result A
  err : ParseError → Result A
  out_of_fuel : Result A

infixl 5 ◌>>=◌
abbrev pub ◌>>=◌ {ℓ κ} : {A : Type ℓ} {B : Type κ} → Result A → (A → Result B) → Result B
ok a >>= f = f a
err e >>= f = err e
out_of_fuel >>= f = out_of_fuel

-- `peek` and, on the tail, `peek_next`: the null character at the end.
abbrev pub peek : List ℕ → ℕ
peek [] = 0
peek (c ∷ cs) = c

abbrev pub start : List ℕ → Cursor
start text = record { rest = text; pos = record { line = 1; col = 1 } }

abbrev pub strip_bom : List ℕ → List ℕ
strip_bom [] = []
strip_bom (c ∷ cs) = if c == 0xfeff then cs else c ∷ cs

-- How `consume` moves the position over the character it returns.
unfoldable pub advance : ℕ → Position → Position
advance ch p =
    if ch == b'\n'
    then record { line = p.line + 1; col = 1 }
    else record { line = p.line; col = p.col + 1 }

-- `consume` is called where there is a character only.
abbrev pub consume_list : List ℕ → Position → Cursor
consume_list [] p = record { rest = []; pos = p }
consume_list (c ∷ cs) p = record { rest = cs; pos = advance c p }

abbrev pub consume : Cursor → Cursor
consume s = consume_list s.rest s.pos

abbrev pub error : Cursor → Message → ParseError
error s m = record { line = s.pos.line; column = s.pos.col; message = m }

-- The loop that `skip_ws` is in: the outer one, that of a `//` comment, that of a `[…]` suffix.
pub data Skip : Type 0 where
  outer in_comment in_suffix : Skip

-- What `iswspace` answers is up to the locale.
module _ (iswspace : ℕ → Bool) where
  -- The loop after the character `c` (with `cs` behind it) is consumed, or `none` at `break`.
  skip_outer : ℕ → List ℕ → Option Skip
  skip_outer c cs =
      if iswspace c
      then some outer
      else if c == b'/' && peek cs == b'/'
      then some in_comment
      else if c == b'['
      then some in_suffix
      else none

  unfoldable pub skip_char : Skip → ℕ → List ℕ → Option Skip
  unfolding skip_outer
  skip_char outer c cs = skip_outer c cs
  skip_char in_comment c cs = if c == b'\n' then skip_outer c cs else some in_comment
  skip_char in_suffix c cs = if c == b']' then some outer else some in_suffix

  unfoldable pub skip_from : Skip → List ℕ → Position → Cursor
  unfolding skip_char
  skip_from m [] p = record { rest = []; pos = p }
  skip_from m (c ∷ cs) p = elim (skip_char m c cs) [
    | none ↦ record { rest = c ∷ cs; pos = p }
    | some m' ↦ skip_from m' cs (advance c p)
  ]

  abbrev pub skip_ws : Cursor → Cursor
  skip_ws s = skip_from outer s.rest s.pos

  -- Characters that end a bare word.
  unfoldable pub ends_bare : ℕ → Bool
  ends_bare ch = iswspace ch || ch == b'{' || ch == b'}' || ch == b'"'

  unfoldable pub read_bare_from : List ℕ → Position → List ℕ × Cursor
  read_bare_from [] p = ([], record { rest = []; pos = p })
  read_bare_from (c ∷ cs) p =
      let more = read_bare_from cs (advance c p) in
      if ends_bare c then ([], record { rest = c ∷ cs; pos = p }) else (c ∷ more.0, more.1)

-- The `switch` on the character behind a backslash.
unfoldable pub unescape : ℕ → ℕ
unescape esc =
    if esc == b'n' then b'\n' else if esc == b'r' then b'\r' else if esc == b't' then b'\t' else esc

abbrev pub prepend : ℕ → Option (List ℕ) × Cursor → Option (List ℕ) × Cursor
prepend c (none, s) = (none, s)
prepend c (some out, s) = (some (c ∷ out), s)

-- `read_quoted` behind the opening quote; a backslash as the last character stands for itself.
unfoldable pub read_quoted_from : List ℕ → Position → Option (List ℕ) × Cursor
unfolding unescape
read_quoted_from [] p = (none, record { rest = []; pos = p })
read_quoted_from (c ∷ []) p =
    (if c == b'"' then some [] else none, record { rest = []; pos = advance c p })
read_quoted_from (c ∷ e ∷ cs) p =
    let escaped = prepend (unescape e) (read_quoted_from cs (advance e (advance c p))) in
    let plain = prepend c (read_quoted_from (e ∷ cs) (advance c p)) in
    if c == b'"'
    then (some [], record { rest = e ∷ cs; pos = advance c p })
    else if c == b'\\'
    then escaped
    else plain

abbrev pub non_empty : List ℕ × Cursor → Option (List ℕ) × Cursor
non_empty ([], s) = (none, s)
non_empty (c ∷ cs, s) = (some (c ∷ cs), s)

module _ (iswspace : ℕ → Bool) where
  -- `read_string` where white space is skipped.
  unfoldable pub read_word : List ℕ → Position → Option (List ℕ) × Cursor
  read_word [] p = (none, record { rest = []; pos = p })
  read_word (c ∷ cs) p =
      if c == b'"'
      then read_quoted_from cs (advance c p)
      else non_empty (read_bare_from iswspace (c ∷ cs) p)

  unfoldable pub read_string : Cursor → Option (List ℕ) × Cursor
  read_string s = let s' = skip_ws iswspace s in read_word s'.rest s'.pos

-- `if (!key) return error(…)`.
abbrev pub require : Option (List ℕ) × Cursor → Message → Result (List ℕ × Cursor)
require (none, s) m = err (error s m)
require (some out, s) m = ok (out, s)

-- `emplace_back` of a child, in front of the children that later rounds append.
abbrev pub emplace : List ℕ → Node → Children × Cursor → Result (Children × Cursor)
emplace key child more = ok (entry key child more.0, more.1)

module _ (iswspace : ℕ → Bool) where
  -- What stands behind a key: a block, which `block` reads, or a string.
  unfoldable pub parse_value :
      (Cursor → Result (Children × Cursor)) → Cursor → Result (Node × Cursor)
  parse_value block s =
      if peek s.rest == b'{'
      then block (consume s) >>= (λ r. ok (object r.0, r.1))
      else require (read_string iswspace s) expected_value >>= (λ r. ok (leaf r.0, r.1))

  -- A round of the `while`, behind its `skip_ws`; `loop` is both the rounds to come and the
  -- nested call.
  unfoldable pub parse_round :
      (Cursor → Result (Children × Cursor)) → Cursor → Result (Children × Cursor)
  parse_round loop s = elim s.rest [
    | [] ↦ err (error s unexpected_end)
    | c ∷ cs ↦
        if c == b'}'
        then ok (nil, consume s)
        else require (read_string iswspace s) expected_key >>= λ k.
            parse_value loop (skip_ws iswspace k.1) >>= λ child.
            loop child.1 >>= emplace k.0 child.0
  ]

  unfoldable pub parse_object : ℕ → Cursor → Result (Children × Cursor)
  parse_object zero s = out_of_fuel
  parse_object (suc f) s = parse_round (parse_object f) (skip_ws iswspace s)

  -- `Parser::parse` behind the root key; what stands behind the root block is not read.
  unfoldable pub parse_root : ℕ → List ℕ → Cursor → Result Document
  parse_root f key s =
      if peek s.rest == b'{'
      then parse_object f (consume s) >>= (λ r. ok (record { root_key = key; root = object r.0 }))
      else err (error s expected_open_brace)

  unfoldable pub parse_document : ℕ → Cursor → Result Document
  parse_document f s = do
    (key, s₁) ← require (read_string iswspace (skip_ws iswspace s)) expected_root_key
    parse_root f key (skip_ws iswspace s₁)

  -- One unit of fuel for each character, and one more.
  unfoldable pub parse : List ℕ → Result Document
  parse text = parse_document (suc (length text)) (start (strip_bom text))
