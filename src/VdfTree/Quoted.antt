-- ===== src/VdfTree/Quoted.antt =====
-- How the parser reads what `escape` and the indentation of `write_node` write.
use steam_account_manager.Common.{
  ℕ, zero, suc, List, [], ◌∷◌, ◌++◌, ◌≡◌, ◌≢◌, refl, ◌∙◌, append_assoc, Bool, true, false, some,
  arith,
}
use steam_account_manager.VdfTree.Parser.{
  Position, Cursor, advance, outer, skip_from, unescape, prepend, read_quoted_from, read_word,
  read_string,
}
use steam_account_manager.VdfTree.Writer.{escape_char, escape_chars, escape, pad}

-- The position behind a text that is read from `p` on.
abbrev pub walk : List ℕ → Position → Position
walk [] p = p
walk (c ∷ cs) p = walk cs (advance c p)

pub walk-append : (xs ys : List ℕ) (p : Position) → walk (xs ++ ys) p ≡ walk ys (walk xs p)
walk-append [] ys p = refl
walk-append (x ∷ xs) ys p = walk-append xs ys (advance x p)

-- The cursor behind `text`, with `r` to read.
abbrev pub behind : List ℕ → List ℕ → Position → Cursor
behind text r p = record { rest = r; pos = walk text p }

quoted_plain :
    (c : ℕ) (t : List ℕ) (p : Position)
    → c ≢ b'"'
    → c ≢ b'\\'
    → read_quoted_from (c ∷ t) p ≡ prepend c (read_quoted_from t (advance c p))
unfolding read_quoted_from
quoted_plain c [] p h k = ground arith
quoted_plain c (e ∷ t) p h k = ground arith

quoted_char :
    (c : ℕ) (t : List ℕ) (p : Position)
    → read_quoted_from (escape_char c ++ t) p
      ≡ prepend c (read_quoted_from t (walk (escape_char c) p))
unfolding read_quoted_from unescape escape_char
quoted_char c t p = ground (arith, quoted_plain c t p)

-- The closing quote ends the string that was escaped.
pub quoted_chars :
    (s r : List ℕ) (p : Position)
    → read_quoted_from (escape_chars s ++ (b'"' ∷ r)) p
      ≡ (some s, behind (escape_chars s ++ b'"' ∷ []) r p)
unfolding escape_chars
quoted_chars [] [] p = unfold read_quoted_from in refl
quoted_chars [] (x ∷ r) p = unfold read_quoted_from in refl
quoted_chars (c ∷ s) r p = rw (append_assoc (escape_char c) (escape_chars s) (b'"' ∷ r)) (
    quoted_char c (escape_chars s ++ (b'"' ∷ r)) p
    ∙ rw (
      quoted_chars s r (walk (escape_char c) p),
      append_assoc (escape_char c) (escape_chars s) (b'"' ∷ []),
      walk-append (escape_char c),
    ))

-- What the round trip needs of `iswspace`.
pub record IsSpaceTest (iswspace : ℕ → Bool) : Type 0 where
  pub tab : iswspace b'\t' ≡ true
  pub newline : iswspace b'\n' ≡ true
  pub quote : iswspace b'"' ≡ false
  pub open_brace : iswspace b'{' ≡ false
  pub close_brace : iswspace b'}' ≡ false

module _ {iswspace : ℕ → Bool} (w : IsSpaceTest iswspace) where
  pub skip_newline :
      (r : List ℕ) (p : Position)
      → skip_from iswspace outer (b'\n' ∷ r) p ≡ skip_from iswspace outer r (advance b'\n' p)
  unfolding skip_from
  skip_newline r p = ground arith

  pub skip_tab :
      (r : List ℕ) (p : Position)
      → skip_from iswspace outer (b'\t' ∷ r) p ≡ skip_from iswspace outer r (advance b'\t' p)
  unfolding skip_from
  skip_tab r p = ground arith

  pub skip_pad :
      (n : ℕ) (r : List ℕ) (p : Position)
      → skip_from iswspace outer (pad n ++ r) p ≡ skip_from iswspace outer r (walk (pad n) p)
  skip_pad zero r p = refl
  skip_pad (suc n) r p = skip_tab (pad n ++ r) p ∙ skip_pad n r (advance b'\t' p)

  pub skip_quote :
      (r : List ℕ) (p : Position)
      → skip_from iswspace outer (b'"' ∷ r) p ≡ record { rest = b'"' ∷ r; pos = p }
  unfolding skip_from
  skip_quote r p = ground arith

  pub skip_open_brace :
      (r : List ℕ) (p : Position)
      → skip_from iswspace outer (b'{' ∷ r) p ≡ record { rest = b'{' ∷ r; pos = p }
  unfolding skip_from
  skip_open_brace r p = ground arith

  pub skip_close_brace :
      (r : List ℕ) (p : Position)
      → skip_from iswspace outer (b'}' ∷ r) p ≡ record { rest = b'}' ∷ r; pos = p }
  unfolding skip_from
  skip_close_brace r p = ground arith

  pub skip_escape :
      (s r : List ℕ) (p : Position)
      → skip_from iswspace outer (escape s ++ r) p ≡ record { rest = escape s ++ r; pos = p }
  unfolding escape
  skip_escape s r p = skip_quote (escape_chars s ++ b'"' ∷ [] ++ r) p

  -- `read_string` at an escaped string gives that string.
  pub read_string-escape :
      (s r : List ℕ) (p : Position)
      → read_string iswspace (record { rest = escape s ++ r; pos = p })
        ≡ (some s, behind (escape s) r p)
  unfolding read_string read_word escape
  read_string-escape s r p = rw (
    skip_quote (escape_chars s ++ b'"' ∷ [] ++ r) p,
    append_assoc (escape_chars s) (b'"' ∷ []) r,
    quoted_chars s r (advance b'"' p),
  )
