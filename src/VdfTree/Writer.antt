-- ===== src/VdfTree/Writer.antt =====
-- core/cleaner/vdf_tree.cpp: `escape`, `write_node`, `serialize`. Each gives what it appends to
-- `out`.
use steam_account_manager.Common.{ℕ, ◌+◌, List, [], ◌∷◌, ◌++◌, ◌==◌, if◌then◌else◌, replicate}
use steam_account_manager.VdfTree.{Node, object, leaf, Children, nil, entry, Document}

-- The `switch` of `escape`.
unfoldable pub escape_char : ℕ → List ℕ
escape_char ch =
    if ch == b'\\'
    then b'\\' ∷ b'\\' ∷ []
    else if ch == b'"'
    then b'\\' ∷ b'"' ∷ []
    else if ch == b'\n'
    then b'\\' ∷ b'n' ∷ []
    else if ch == b'\r'
    then b'\\' ∷ b'r' ∷ []
    else if ch == b'\t'
    then b'\\' ∷ b't' ∷ []
    else ch ∷ []

unfoldable pub escape_chars : List ℕ → List ℕ
escape_chars [] = []
escape_chars (ch ∷ s) = escape_char ch ++ escape_chars s

unfoldable pub escape : List ℕ → List ℕ
escape s = b'"' ∷ (escape_chars s ++ b'"' ∷ [])

-- The tab string of an indentation.
abbrev pub pad : ℕ → List ℕ
pad indent = replicate indent b'\t'

-- The loop of `write_node` over the children, and the branch of it on one child.
unfoldable mutual
  pub write_children : Children → ℕ → List ℕ
  write_children nil indent = []
  write_children (entry k v cs) indent =
      pad indent ++ (escape k ++ (write_child v indent ++ write_children cs indent))

  pub write_child : Node → ℕ → List ℕ
  write_child (object cs) indent =
      b'\n'
      ∷ (pad indent
          ++ (b'{'
              ∷ b'\n'
              ∷ (write_children cs (indent + 1) ++ (pad indent ++ (b'}' ∷ b'\n' ∷ [])))))
  write_child (leaf v) indent = b'\t' ∷ b'\t' ∷ (escape v ++ b'\n' ∷ [])

unfoldable pub write_node : Node → ℕ → List ℕ
write_node (object cs) indent = write_children cs indent
write_node (leaf v) indent = []

unfoldable pub serialize : Document → List ℕ
serialize doc =
    escape doc.root_key ++ (b'\n' ∷ b'{' ∷ b'\n' ∷ (write_node doc.root 1 ++ b'}' ∷ b'\n' ∷ []))
