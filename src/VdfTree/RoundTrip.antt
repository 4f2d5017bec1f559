-- ===== src/VdfTree/RoundTrip.antt =====
-- core/cleaner/vdf_tree.cpp: `parse` reads back what `serialize` wrote.
use steam_account_manager.Common.{
  ℕ, zero, suc, ◌+◌, ◌≤◌, ◌<◌, List, [], ◌∷◌, ◌++◌, ◌≡◌, refl, ◌∙◌, append_assoc, Bool, arith,
  length, length-append,
}
use steam_account_manager.VdfTree.{Node, object, leaf, Children, nil, entry, Document}
use steam_account_manager.VdfTree.Parser.{
  Position, Cursor, Result, ok, ◌>>=◌, advance, skip_ws, parse_value, parse_round, parse_object,
  parse_root, parse_document, parse,
}
use steam_account_manager.VdfTree.Writer.{
  escape_chars, escape, pad, write_children, write_child, write_node, serialize,
}
use steam_account_manager.VdfTree.Quoted.{
  walk, behind, IsSpaceTest, skip_newline, skip_tab, skip_pad, skip_open_brace, skip_close_brace,
  skip_escape, read_string-escape,
}

-- How deep the loops of `parse_object` nest on a tree.
mutual
  size : Node → ℕ
  size (object cs) = suc (size_children cs)
  size (leaf v) = 0

  size_children : Children → ℕ
  size_children nil = 0
  size_children (entry k v cs) = suc (size v + size_children cs)

-- The text of a child and of a list of children, with what follows bracketed to the right.
write_children-entry :
    (k : List ℕ) (v : Node) (cs : Children) (n : ℕ) (t : List ℕ)
    → write_children (entry k v cs) n ++ t
      ≡ pad n ++ (escape k ++ (write_child v n ++ (write_children cs n ++ t)))
unfolding write_children
write_children-entry k v cs n t = simp append_assoc

write_child-object :
    (cs : Children) (n : ℕ) (t : List ℕ)
    → write_child (object cs) n ++ t
      ≡ b'\n'
        ∷ (pad n ++ (b'{' ∷ b'\n' ∷ (write_children cs (n + 1) ++ (pad n ++ (b'}' ∷ b'\n' ∷ t)))))
unfolding write_children
write_child-object cs n t = simp append_assoc

-- The text ends at some position.
abbrev Reads {ℓ} : {A : Type ℓ} → Result (A × Cursor) → A → List ℕ → Type ℓ
Reads m a r = (q : Position) × (m ≡ ok (a, record { rest = r; pos = q }))

module _ {iswspace : ℕ → Bool} (w : IsSpaceTest iswspace) where
  object_close :
      (f m : ℕ) (r : List ℕ) (p : Position)
      → Reads (parse_object iswspace (suc f) (record { rest = pad m ++ (b'}' ∷ r); pos = p })) nil r
  unfolding parse_object parse_round
  object_close f m r p = (
    advance b'}' (walk (pad m) p),
    rw (skip_pad w m (b'}' ∷ r) p, skip_close_brace w r (walk (pad m) p)),
  )

  object_newline :
      (f : ℕ) (r : List ℕ) (p : Position)
      → parse_object iswspace f (record { rest = b'\n' ∷ r; pos = p })
        ≡ parse_object iswspace f (record { rest = r; pos = advance b'\n' p })
  unfolding parse_object
  object_newline zero r p = refl
  object_newline (suc f) r p = rw (skip_newline w r p)

  -- One round of the loop: the key, then the child, then the rest of the loop.
  object_entry :
      (f n : ℕ) (k t : List ℕ) (p : Position)
      → parse_object iswspace (suc f) (record { rest = pad n ++ (escape k ++ t); pos = p }) ≡ (
          parse_value iswspace
            (parse_object iswspace f)
            (skip_ws iswspace (behind (escape k) t (walk (pad n) p)))
          >>= λ c. parse_object iswspace f c.1 >>= λ more. ok (entry k c.0 more.0, more.1))
  unfolding parse_object parse_round escape
  object_entry f n k t p = rw (
    skip_pad w n (escape k ++ t) p,
    skip_escape w k t (walk (pad n) p),
    read_string-escape w k t (walk (pad n) p),
  )

  value_leaf :
      (block : Cursor → Result (Children × Cursor)) (v t : List ℕ) (p : Position)
      → Reads
          (parse_value iswspace block
            (skip_ws iswspace (record { rest = b'\t' ∷ b'\t' ∷ (escape v ++ t); pos = p })))
          (leaf v)
          t
  unfolding parse_value escape
  value_leaf block v t p =
      let q : Position = advance b'\t' (advance b'\t' p) in
      (
        walk (escape v) q,
        rw (
          skip_tab w (b'\t' ∷ (escape v ++ t)) p,
          skip_tab w (escape v ++ t) (advance b'\t' p),
          skip_escape w v t q,
          read_string-escape w v t q,
        ),
      )

  value_object :
      (f n : ℕ) (t b : List ℕ) (p : Position)
      → parse_value iswspace
          (parse_object iswspace f)
          (skip_ws iswspace (record { rest = b'\n' ∷ (pad n ++ (b'{' ∷ b'\n' ∷ b)); pos = p }))
        ≡ (parse_object iswspace f (record {
          rest = b;
          pos = advance b'\n' (advance b'{' (walk (pad n) (advance b'\n' p)));
        })
            >>= λ r. ok (object r.0, r.1))
  unfolding parse_value
  value_object f n t b p = rw (
    skip_newline w (pad n ++ (b'{' ∷ b'\n' ∷ b)) p,
    skip_pad w n (b'{' ∷ b'\n' ∷ b) (advance b'\n' p),
    skip_open_brace w (b'\n' ∷ b) (walk (pad n) (advance b'\n' p)),
    object_newline f b (advance b'{' (walk (pad n) (advance b'\n' p))),
  )

  mutual
    unfolding write_children size

    read_child :
        (v : Node) (n f : ℕ) (t : List ℕ) (p : Position)
        → size v ≤ f
        → Reads
            (parse_value iswspace
              (parse_object iswspace f)
              (skip_ws iswspace (record { rest = write_child v n ++ t; pos = p })))
            v
            (b'\n' ∷ t)
    read_child (leaf v) n f t p h =
        rw (append_assoc (escape v) (b'\n' ∷ []) t)
          (value_leaf (parse_object iswspace f) v (b'\n' ∷ t) p)
    read_child (object cs) n f t p h =
        let (q, e) =
          read_children cs (n + 1) n f (b'\n' ∷ t)
            (advance b'\n' (advance b'{' (walk (pad n) (advance b'\n' p)))) (omega arith) in
        (q, rw (write_child-object cs n t) (value_object f n t _ p ∙ rw e))

    read_children :
        (cs : Children) (n m f : ℕ) (r : List ℕ) (p : Position)
        → size_children cs < f
        → Reads
            (parse_object iswspace f
              (record { rest = write_children cs n ++ (pad m ++ (b'}' ∷ r)); pos = p }))
            cs
            r
    read_children nil n m zero r p h = absurd (omega arith)
    read_children nil n m (suc f) r p h = object_close f m r p
    read_children (entry k v cs) n m zero r p h = absurd (omega arith)
    read_children (entry k v cs) n m (suc f) r p h =
        let tail = write_children cs n ++ (pad m ++ (b'}' ∷ r)) in
        let (q, child) = read_child v n f tail (walk (escape k) (walk (pad n) p)) (omega arith) in
        let (q', more) = read_children cs n m f r (advance b'\n' q) (omega arith) in
        (
          q',
          rw (write_children-entry k v cs n (pad m ++ (b'}' ∷ r))) (
              object_entry f n k (write_child v n ++ tail) p
              ∙ rw (child, object_newline f tail q, more)),
        )

-- The nesting is at most the length of the text.
mutual
  unfolding size write_children escape

  size-le : (v : Node) (n : ℕ) → size v ≤ length (write_child v n)
  size-le (leaf v) n = omega arith
  size-le (object cs) n =
      rw (length-append (pad n), length-append (write_children cs (n + 1)))
        (omega (arith, size_children-le cs (n + 1)))

  size_children-le : (cs : Children) (n : ℕ) → size_children cs ≤ length (write_children cs n)
  size_children-le nil n = omega arith
  size_children-le (entry k v cs) n =
      rw
        (
          length-append (pad n),
          length-append (escape_chars k ++ b'"' ∷ []),
          length-append (write_child v n),
        )
        (omega (arith, size-le v n, size_children-le cs n))

abbrev doc_of : List ℕ → Children → Document
doc_of k cs = record { root_key = k; root = object cs }

serialize-text :
    (k : List ℕ) (cs : Children)
    → serialize (doc_of k cs)
      ≡ escape k ++ (b'\n' ∷ b'{' ∷ b'\n' ∷ (write_children cs 1 ++ (pad 0 ++ (b'}' ∷ b'\n' ∷ []))))
unfolding serialize write_node
serialize-text k cs = refl

size-serialize :
    (k : List ℕ) (cs : Children) → size_children cs < suc (length (serialize (doc_of k cs)))
size-serialize k cs =
    rw (serialize-text k cs, length-append (escape k), length-append (write_children cs 1))
      (omega (arith, size_children-le cs 1))

module _ {iswspace : ℕ → Bool} (w : IsSpaceTest iswspace) where
  document-Reads :
      (k : List ℕ) (cs : Children) (f : ℕ) (r : List ℕ) (p : Position)
      → size_children cs < f
      → parse_document iswspace f (record {
        rest = escape k ++ (b'\n' ∷ b'{' ∷ b'\n' ∷ (write_children cs 1 ++ (pad 0 ++ (b'}' ∷ r))));
        pos = p;
      })
        ≡ ok (doc_of k cs)
  unfolding parse_document parse_root
  document-Reads k cs f r p h =
      let body = write_children cs 1 ++ (pad 0 ++ (b'}' ∷ r)) in
      let (q, e) =
        read_children w cs 1 0 f r
          (advance b'\n' (advance b'{' (advance b'\n' (walk (escape k) p)))) h in
      rw (
        skip_escape w k (b'\n' ∷ b'{' ∷ b'\n' ∷ body) p,
        read_string-escape w k (b'\n' ∷ b'{' ∷ b'\n' ∷ body) p,
        skip_newline w (b'{' ∷ b'\n' ∷ body) (walk (escape k) p),
        skip_open_brace w (b'\n' ∷ body) (advance b'\n' (walk (escape k) p)),
        object_newline w f body (advance b'{' (advance b'\n' (walk (escape k) p))),
        e,
      )

  -- Whatever keys, values, duplicate keys and nesting a document whose root is a block holds,
  -- parse gives the same document back from the text that serialize writes, for every iswspace
  -- that takes tab and newline for space and a quote and the braces not.
  pub parse-serialize :
      (k : List ℕ) (cs : Children)
      → parse iswspace (serialize (record { root_key = k; root = object cs }))
        ≡ ok (record { root_key = k; root = object cs })
  unfolding parse escape
  parse-serialize k cs =
      let text = serialize-text k cs in
      rw text (
        document-Reads k cs _ (b'\n' ∷ []) (record { line = 1; col = 1 })
          (rw text at (size-serialize k cs)))
