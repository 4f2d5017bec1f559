-- ===== src/SteamLocal/RoundTrip.antt =====
-- core/steam_local/loginusers.cpp: `parse_vdf` on what `serialize_node` writes.
use steam_account_manager.Common.{
  ℕ, zero, suc, ◌+◌, ◌≤◌, List, [], ◌∷◌, Bool, true, false, ◌&&◌, ◌||◌, ◌≡◌, ◌≢◌, refl, sym, ◌∙◌,
  ap, some, arith, length, Bool-cases, ◌⊎◌, inl, inr, ◌==◌, text_eq, text_eq_iff, ◌>>=◌,
}
use steam_account_manager.SteamLocal.{VdfNode, node, VdfNodes, nil, next}
use steam_account_manager.SteamLocal.Text.{
  string, lbrace, rbrace, end, skip_from, unescape, read_quoted, token_at, next_token, as_string,
  parse_value, parse_round, parse_object_body, parse_vdf, escape, write_escaped, indent,
  serialize_node, serialize_nodes, serialize,
}

-- Blocks have no value and scalars no children.
unfoldable mutual
  pub is_plain : VdfNode → Bool
  is_plain (node k v true cs) = text_eq v [] && are_plain cs
  is_plain (node k v false nil) = true
  is_plain (node k v false (next n ns)) = false

  pub are_plain : VdfNodes → Bool
  are_plain nil = true
  are_plain (next n ns) = is_plain n && are_plain ns

-- Fuel that the parser needs for some children.
mutual
  weight : VdfNode → ℕ
  weight (node k v b cs) = weights cs

  weights : VdfNodes → ℕ
  weights nil = 1
  weights (next n ns) = suc (weight n + weights ns)

-- A character that stands for itself is read in front of whatever text does not end there.
read_quoted-plain :
    (c : ℕ) (more : List ℕ)
    → more ≢ []
    → (c == b'\\' || c == b'"') ≡ false
    → read_quoted (c ∷ more) ≡ (c ∷ (read_quoted more).0, (read_quoted more).1)
unfolding read_quoted
read_quoted-plain c [] h k = absurd (h refl)
read_quoted-plain c (e ∷ cs) h k = ground (arith, k)

escape-ne-nil : (s rest : List ℕ) → escape s (b'"' ∷ rest) ≢ []
unfolding escape
escape-ne-nil [] rest = cc
escape-ne-nil (c ∷ cs) rest = elim (Bool-cases (c == b'\\' || c == b'"')) [
  | inl e ↦ rw (e, escape) cc
  | inr e ↦ rw (e, escape) cc
]

read_quoted-escape : (s rest : List ℕ) → read_quoted (escape s (b'"' ∷ rest)) ≡ (s, rest)
unfolding read_quoted escape unescape
read_quoted-escape [] [] = refl
read_quoted-escape [] (c ∷ rest) = refl
read_quoted-escape (c ∷ cs) rest = elim (Bool-cases (c == b'\\' || c == b'"')) [
  | inl e ↦
      let same : unescape c ≡ c = ground (arith, e) in
      rw (e, escape, read_quoted, read_quoted-escape cs rest) (ap (λ d. (d ∷ cs, rest)) same)
  | inr e ↦
      rw (e, escape)
        (read_quoted-plain c (escape cs (b'"' ∷ rest)) (escape-ne-nil cs rest) e
          ∙ ap (λ r. (c ∷ r.0, r.1)) (read_quoted-escape cs rest))
]

next_token-indent : (depth : ℕ) (s : List ℕ) → next_token (indent depth s) ≡ next_token s
unfolding next_token skip_from indent
next_token-indent zero s = refl
next_token-indent (suc depth) s = next_token-indent depth s

next_token-write : (s rest : List ℕ) → next_token (write_escaped s rest) ≡ (string s, rest)
unfolding next_token skip_from token_at write_escaped
next_token-write s rest = ap as_string (read_quoted-escape s rest)

-- At `s` a block or the text ends, and `s'` is behind it.
Closes : List ℕ → List ℕ → Type 0
Closes s s' = (next_token s ≡ (rbrace, s')) ⊎ (next_token s ≡ (end, s'))

parse-newline : (f : ℕ) (s : List ℕ) → parse_object_body f (b'\n' ∷ s) ≡ parse_object_body f s
unfolding parse_object_body next_token skip_from
parse-newline zero s = refl
parse-newline (suc f) s = refl

parse-Closes : (f : ℕ) (s s' : List ℕ) → Closes s s' → parse_object_body (suc f) s ≡ some (nil, s')
unfolding Closes parse_object_body parse_round
parse-Closes f s s' (inl e) = ap (parse_round (parse_object_body f)) e
parse-Closes f s s' (inr e) = ap (parse_round (parse_object_body f)) e

-- A key is read, whatever stands before it.
parse-key :
    (f depth : ℕ) (key s : List ℕ)
    → parse_object_body (suc f) (indent depth (write_escaped key s))
      ≡ parse_value (parse_object_body f) key (next_token s)
unfolding parse_object_body parse_round
parse-key f depth key s =
    ap (parse_round (parse_object_body f))
      (next_token-indent depth (write_escaped key s) ∙ next_token-write key s)

open_block : (depth : ℕ) (s : List ℕ) → next_token (b'\n' ∷ indent depth (b'{' ∷ s)) ≡ (lbrace, s)
unfolding next_token skip_from token_at
open_block depth s = next_token-indent depth (b'{' ∷ s)

close_block : (depth : ℕ) (s : List ℕ) → Closes (indent depth (b'}' ∷ s)) s
unfolding Closes next_token skip_from token_at
close_block depth s = inl (next_token-indent depth (b'}' ∷ s))

read_scalar :
    (value s : List ℕ) → next_token (b'\t' ∷ b'\t' ∷ write_escaped value s) ≡ (string value, s)
unfolding next_token skip_from
read_scalar value s = next_token-write value s

parse-serialize :
    (ns : VdfNodes) (f depth : ℕ) (s s' : List ℕ)
    → are_plain ns ≡ true
    → weights ns ≤ f
    → Closes s s'
    → parse_object_body f (serialize_nodes ns depth s) ≡ some (ns, s')
unfolding are_plain is_plain weights weight serialize_nodes serialize_node parse_value
parse-serialize nil zero depth s s' p w c = absurd (omega (arith, w))
parse-serialize nil (suc f) depth s s' p w c = parse-Closes f s s' c
parse-serialize (next n ns) zero depth s s' p w c = absurd (omega (arith, w))
parse-serialize (next (node k v false (next m ms)) ns) (suc f) depth s s' p w c = absurd cc
parse-serialize (next (node k v false nil) ns) (suc f) depth s s' p w c =
    let rest = serialize_nodes ns depth s in
    parse-key f depth k (b'\t' ∷ b'\t' ∷ write_escaped v (b'\n' ∷ rest))
    ∙ ap (parse_value (parse_object_body f) k) (read_scalar v (b'\n' ∷ rest))
    ∙ ap (λ r. r >>= λ more. some (next (node k v false nil) more.0, more.1))
        (parse-newline f rest
          ∙ parse-serialize ns f depth s s' (ground (arith, p)) (omega (arith, w)) c)
parse-serialize (next (node k v true cs) ns) (suc f) depth s s' p w c =
    let rest = serialize_nodes ns depth s in
    let children = serialize_nodes cs (depth + 1) (indent depth (b'}' ∷ b'\n' ∷ rest)) in
    let no_value : v ≡ [] = (text_eq_iff v []).0 (ground (arith, p)) in
    let inner : parse_object_body f (b'\n' ∷ children) ≡ some (cs, b'\n' ∷ rest) =
      parse-newline f children
      ∙ parse-serialize cs f (depth + 1) (indent depth (b'}' ∷ b'\n' ∷ rest)) (b'\n' ∷ rest)
          (ground (arith, p)) (omega (arith, w)) (close_block depth (b'\n' ∷ rest)) in
    let outer : parse_object_body f (b'\n' ∷ rest) ≡ some (ns, s') =
      parse-newline f rest
      ∙ parse-serialize ns f depth s s' (ground (arith, p)) (omega (arith, w)) c in
    parse-key f depth k (b'\n' ∷ indent depth (b'{' ∷ b'\n' ∷ children))
    ∙ ap (parse_value (parse_object_body f) k) (open_block depth (b'\n' ∷ children))
    ∙ ap
        (λ r. r >>= λ block. parse_object_body f block.1 >>= λ more.
          some (next (node k [] true block.0) more.0, more.1))
        inner
    ∙ ap (λ r. r >>= λ more. some (next (node k [] true cs) more.0, more.1)) outer
    ∙ ap (λ value. some (next (node k value true cs) ns, s')) (sym no_value)

length-indent : (depth : ℕ) (s : List ℕ) → length s ≤ length (indent depth s)
unfolding indent
length-indent zero s = omega arith
length-indent (suc depth) s = omega (arith, length-indent depth s)

length-escape : (cs s : List ℕ) → length s ≤ length (escape cs s)
unfolding escape
length-escape [] s = omega arith
length-escape (c ∷ cs) s = ground (arith, length-escape cs s)

-- A text is at least as long as what it needs of fuel.
length-serialize :
    (ns : VdfNodes) (depth : ℕ) (s : List ℕ)
    → are_plain ns ≡ true
    → weights ns + length s ≤ suc (length (serialize_nodes ns depth s))
unfolding are_plain is_plain weights weight serialize_nodes serialize_node write_escaped
length-serialize nil depth s p = omega arith
length-serialize (next (node k v false (next m ms)) ns) depth s p = absurd cc
length-serialize (next (node k v false nil) ns) depth s p =
    let rest = serialize_nodes ns depth s in
    let value = b'\t' ∷ b'\t' ∷ b'"' ∷ escape v (b'"' ∷ b'\n' ∷ rest) in
    omega (
      arith,
      length-serialize ns depth s (ground (arith, p)),
      length-indent depth (b'"' ∷ escape k (b'"' ∷ value)),
      length-escape k (b'"' ∷ value),
      length-escape v (b'"' ∷ b'\n' ∷ rest),
    )
length-serialize (next (node k v true cs) ns) depth s p =
    let rest = serialize_nodes ns depth s in
    let behind = indent depth (b'}' ∷ b'\n' ∷ rest) in
    let children = serialize_nodes cs (depth + 1) behind in
    let block = b'\n' ∷ indent depth (b'{' ∷ b'\n' ∷ children) in
    omega (
      arith,
      length-serialize ns depth s (ground (arith, p)),
      length-serialize cs (depth + 1) behind (ground (arith, p)),
      length-indent depth (b'}' ∷ b'\n' ∷ rest),
      length-indent depth (b'{' ∷ b'\n' ∷ children),
      length-escape k (b'"' ∷ block),
      length-indent depth (b'"' ∷ escape k (b'"' ∷ block)),
    )

-- parse_vdf gives back the tree that the edits of loginusers.vdf and config.vdf write, whatever
-- keys and values it holds and however it is nested, where blocks have no value and scalars no
-- children.
pub parse_vdf-serialize :
    (root : VdfNodes) → are_plain root ≡ true → parse_vdf (serialize root) ≡ some root
unfolding parse_vdf serialize next_token skip_from token_at Closes
parse_vdf-serialize root p =
    ap (λ r. r >>= λ (found : VdfNodes × List ℕ). some found.0)
      (parse-serialize root (suc (length (serialize_nodes root 0 []))) 0 [] [] p
        (omega (arith, length-serialize root 0 [] p)) (inr refl))
