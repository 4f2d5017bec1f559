-- ===== src/VdfTree/ErrorPosition.antt =====
-- core/cleaner/vdf_tree.cpp, class Parser: the place that a `ParseError` names.
use steam_account_manager.Common.{
  ℕ, suc, ◌+◌, List, [], ◌∷◌, ◌++◌, ◌≡◌, refl, ◌∙◌, Bool, not, arith, length, if◌then◌else◌, ◌==◌,
  Bool-cases, inl, inr,
}
use steam_account_manager.VdfTree.Parser.{
  Position, Cursor, Result, ok, err, out_of_fuel, ◌>>=◌, advance, read_string, skip_ws, require,
  parse_object, parse_root, parse_document, parse, start, strip_bom, ParseError, Message, consume,
  peek,
}
use steam_account_manager.VdfTree.Quoted.{walk}
use steam_account_manager.VdfTree.Progress.{
  Explains, read_string-Stops, Follows, Follows-refl, Follows-trans, Lands, Lands-from,
  skip_ws-Follows, read_string-Follows, require-Lands, consume-Follows, parse_object-Lands,
}

-- Where a step that starts at `s` fails, if it does.
abbrev FailsAt {ℓ} : (ℕ → Bool) → {A : Type ℓ} → Cursor → Result A → Type 0
FailsAt iswspace s (err e) =
    (t : Cursor) × Follows s t
    × (e.line ≡ t.pos.line)
    × (e.column ≡ t.pos.col)
    × Explains iswspace e.message t.rest
FailsAt iswspace s _ = Unit

module _ (iswspace : ℕ → Bool) where
  Follows-FailsAt {ℓ} :
      {A : Type ℓ} (m : Result A) {s t : Cursor}
      → Follows s t
      → FailsAt iswspace t m
      → FailsAt iswspace s m
  Follows-FailsAt (ok b) a h = tt
  Follows-FailsAt (err e) a (t, k, x, y, w) = (t, Follows-trans a k, x, y, w)
  Follows-FailsAt out_of_fuel a h = tt

  FailsAt-bind {ℓ κ} :
      {A : Type ℓ} {B : Type κ} (s : Cursor) (m : Result (A × Cursor)) (f : A × Cursor → Result B)
      → Lands iswspace s m
      → ((r : A × Cursor) → FailsAt iswspace r.1 (f r))
      → FailsAt iswspace s (m >>= f)
  FailsAt-bind s (ok r) f l g = Follows-FailsAt (f r) l (g r)
  FailsAt-bind s (err e) f l g = l
  FailsAt-bind s out_of_fuel f l g = tt

module _ (iswspace : ℕ → Bool) where
  parse_root-FailsAt :
      (f : ℕ) (key : List ℕ) (s : Cursor) → FailsAt iswspace s (parse_root iswspace f key s)
  unfolding parse_root
  parse_root-FailsAt f key s = elim (Bool-cases (peek s.rest == b'{')) [
    | inl e ↦ rw e (
        FailsAt-bind iswspace s (parse_object iswspace f (consume s)) _
          (Lands-from iswspace (parse_object iswspace f (consume s)) (consume-Follows s)
            (parse_object-Lands iswspace f (consume s)))
          (λ r. tt))
    | inr e ↦ rw e (s, Follows-refl s, refl, refl, e)
  ]

  parse_document-FailsAt : (f : ℕ) (s : Cursor) → FailsAt iswspace s (parse_document iswspace f s)
  unfolding parse_document
  parse_document-FailsAt f s =
      FailsAt-bind iswspace s
        (require (read_string iswspace (skip_ws iswspace s)) Message.expected_root_key) _
        (require-Lands iswspace (read_string iswspace (skip_ws iswspace s))
          Message.expected_root_key
          (Follows-trans (skip_ws-Follows iswspace s)
            (read_string-Follows iswspace (skip_ws iswspace s)))
          (read_string-Stops iswspace (skip_ws iswspace s)))
        λ k.
          Follows-FailsAt iswspace (parse_root iswspace f k.0 (skip_ws iswspace k.1))
            (skip_ws-Follows iswspace k.1) (parse_root-FailsAt f k.0 (skip_ws iswspace k.1))

-- The lines and columns of a text, apart from any parser.
abbrev pub newlines : List ℕ → ℕ
newlines [] = 0
newlines (c ∷ cs) = if c == b'\n' then suc (newlines cs) else newlines cs

-- What stands behind the last newline.
abbrev pub last_line : List ℕ → List ℕ
last_line [] = []
last_line (c ∷ cs) =
    if not (newlines cs == 0) then last_line cs else if c == b'\n' then cs else c ∷ cs

walk-line : (cs : List ℕ) (p : Position) → (walk cs p).line ≡ p.line + newlines cs
unfolding advance
walk-line [] p = omega arith
walk-line (c ∷ cs) p = ground (arith, walk-line cs (advance c p))

walk-col :
    (cs : List ℕ) (p : Position)
    → (walk cs p).col
      ≡ (if newlines cs == 0 then p.col + length cs else suc (length (last_line cs)))
unfolding advance
walk-col [] p = omega arith
walk-col (c ∷ cs) p = ground (arith, walk-col cs (advance c p))

last_line-id : (cs : List ℕ) → newlines cs ≡ 0 → last_line cs ≡ cs
last_line-id [] h = refl
last_line-id (c ∷ cs) h = ground (arith, last_line-id cs)

col_from_start :
    (cs : List ℕ) → (walk cs (record { line = 1; col = 1 })).col ≡ 1 + length (last_line cs)
col_from_start cs = ground (arith, walk-col cs (record { line = 1; col = 1 }), last_line-id cs)

-- Where parse fails, the text without its byte order mark splits into what was read and what was
-- not: the error's line is one more than the newlines in what was read, its column one more than
-- the characters behind the last of these, and what was not read begins with what the message is
-- about. For an unexpected end it is empty; for a missing opening brace it does not begin with
-- one; for a missing key or value it is empty or begins with a character that ends a bare word
-- and is no quote.
pub parse-err_position :
    (iswspace : ℕ → Bool) (text : List ℕ) {e : ParseError}
    → parse iswspace text ≡ err e
    → (read : List ℕ) × (unread : List ℕ) × (strip_bom text ≡ read ++ unread)
      × (e.line ≡ 1 + newlines read)
      × (e.column ≡ 1 + length (last_line read))
      × Explains iswspace e.message unread
unfolding parse
parse-err_position iswspace text {e} h =
    let (t, a, x, y, w) =
      rw h at (parse_document-FailsAt iswspace (suc (length text)) (start (strip_bom text))) in
    let origin : Position = record { line = 1; col = 1 } in
    (
      a.used,
      t.rest,
      a.splits,
      x ∙ rw (a.moved, walk-line a.used origin),
      y ∙ rw a.moved (col_from_start a.used),
      w,
    )
