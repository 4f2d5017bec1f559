-- ===== src/VdfTree/Progress.antt =====
-- core/cleaner/vdf_tree.cpp, class Parser: how the cursor moves, and where it stands at an error.
use steam_account_manager.Common.{
  ℕ, zero, suc, ◌≤◌, ◌<◌, List, [], ◌∷◌, ◌++◌, ◌≡◌, ◌≢◌, refl, ◌∙◌, ap, append_assoc, Bool, true,
  false, some, none, Option, arith, length, length-append, ◌==◌, Option-cases, Bool-cases, inl, inr,
}
use steam_account_manager.VdfTree.{Children}
use steam_account_manager.VdfTree.Parser.{
  Position, Cursor, Result, ok, err, out_of_fuel, ◌>>=◌, advance, Skip, skip_char, skip_from,
  prepend, unescape, read_quoted_from, read_bare_from, ends_bare, read_word, non_empty, read_string,
  skip_ws, require, parse_value, parse_round, parse_object, Message, consume, consume_list, peek,
}
use steam_account_manager.VdfTree.Quoted.{walk, walk-append}

-- `s'` is where the parser stands after it has read some characters from `s` on.
pub record Follows (s s' : Cursor) : Type 0 where
  pub used : List ℕ
  pub splits : s.rest ≡ used ++ s'.rest
  pub moved : s'.pos ≡ walk used s.pos

pub Follows-refl : (s : Cursor) → Follows s s
Follows-refl s = record { used = []; splits = refl; moved = refl }

pub Follows-trans : {s t u : Cursor} → Follows s t → Follows t u → Follows s u
Follows-trans a b = record {
  used = a.used ++ b.used;
  splits = a.splits ∙ rw (b.splits, append_assoc a.used b.used);
  moved = b.moved ∙ rw (a.moved, walk-append a.used b.used);
}

-- A character more in front.
Follows-cons :
    (c : ℕ) (cs : List ℕ) (p : Position) {s : Cursor}
    → Follows (record { rest = cs; pos = advance c p }) s
    → Follows (record { rest = c ∷ cs; pos = p }) s
Follows-cons c cs p a = record { used = c ∷ a.used; splits = ap (◌∷◌ c) a.splits; moved = a.moved }

pub Follows-le : {s t : Cursor} → Follows s t → length t.rest ≤ length s.rest
Follows-le {s} {t} a = omega (arith, ap length a.splits, length-append a.used t.rest)

module _ (iswspace : ℕ → Bool) where
  skip_from-Follows :
      (m : Skip) (cs : List ℕ) (p : Position)
      → Follows (record { rest = cs; pos = p }) (skip_from iswspace m cs p)
  unfolding skip_from
  skip_from-Follows m [] p = Follows-refl _
  skip_from-Follows m (c ∷ cs) p = elim (Option-cases (skip_char iswspace m c cs)) [
    | inl e ↦ rw (e, skip_from) (Follows-refl _)
    | inr (m', e) ↦ rw (e, skip_from) (Follows-cons c cs p (skip_from-Follows m' cs (advance c p)))
  ]

  read_bare_from-Follows :
      (cs : List ℕ) (p : Position)
      → Follows (record { rest = cs; pos = p }) (read_bare_from iswspace cs p).1
  unfolding read_bare_from
  read_bare_from-Follows [] p = Follows-refl _
  read_bare_from-Follows (c ∷ cs) p = elim (Bool-cases (ends_bare iswspace c)) [
    | inl e ↦ rw e (Follows-refl _)
    | inr e ↦ rw e (Follows-cons c cs p (read_bare_from-Follows cs (advance c p)))
  ]

prepend-cursor : (c : ℕ) (r : Option (List ℕ) × Cursor) → (prepend c r).1 ≡ r.1
prepend-cursor c (none, s) = refl
prepend-cursor c (some x, s) = refl

read_quoted_from-Follows :
    (cs : List ℕ) (p : Position) → Follows (record { rest = cs; pos = p }) (read_quoted_from cs p).1
unfolding read_quoted_from
read_quoted_from-Follows [] p = Follows-refl _
read_quoted_from-Follows (c ∷ []) p = Follows-cons c [] p (Follows-refl _)
read_quoted_from-Follows (c ∷ e ∷ cs) p = elim (Bool-cases (c == b'"')) [
  | inl q ↦ rw q (Follows-cons c (e ∷ cs) p (Follows-refl _))
  | inr q ↦ elim (Bool-cases (c == b'\\')) [
    | inl b ↦
        rw (q, b, prepend-cursor (unescape e))
          (Follows-cons c (e ∷ cs) p (
            Follows-cons e cs (advance c p)
              (read_quoted_from-Follows cs (advance e (advance c p)))))
    | inr b ↦
        rw (q, b, prepend-cursor c)
          (Follows-cons c (e ∷ cs) p (read_quoted_from-Follows (e ∷ cs) (advance c p)))
  ]
]

non_empty-cursor : (r : List ℕ × Cursor) → (non_empty r).1 ≡ r.1
non_empty-cursor ([], s) = refl
non_empty-cursor (c ∷ cs, s) = refl

module _ (iswspace : ℕ → Bool) where
  read_word-Follows :
      (cs : List ℕ) (p : Position)
      → Follows (record { rest = cs; pos = p }) (read_word iswspace cs p).1
  unfolding read_word
  read_word-Follows [] p = Follows-refl _
  read_word-Follows (c ∷ cs) p = elim (Bool-cases (c == b'"')) [
    | inl q ↦ rw q (Follows-cons c cs p (read_quoted_from-Follows cs (advance c p)))
    | inr q ↦
        rw (q, non_empty-cursor (read_bare_from iswspace (c ∷ cs) p))
          (read_bare_from-Follows iswspace (c ∷ cs) p)
  ]

  read_bare-lt :
      (c : ℕ) (cs : List ℕ) (p : Position)
      → (non_empty (read_bare_from iswspace (c ∷ cs) p)).0 ≢ none
      → length (read_bare_from iswspace (c ∷ cs) p).1.rest ≤ length cs
  unfolding read_bare_from
  read_bare-lt c cs p = elim (Bool-cases (ends_bare iswspace c)) [
    | inl e ↦ rw e (λ ne. absurd (ne refl))
    | inr e ↦ rw e (λ ne. Follows-le (read_bare_from-Follows iswspace cs (advance c p)))
  ]

  -- A word that is there takes a character at least.
  read_word-lt :
      (cs : List ℕ) (p : Position)
      → (read_word iswspace cs p).0 ≢ none
      → length (read_word iswspace cs p).1.rest < length cs
  unfolding read_word
  read_word-lt [] p = λ ne. absurd (ne refl)
  read_word-lt (c ∷ cs) p = elim (Bool-cases (c == b'"')) [
    | inl q ↦ rw q (λ ne. omega (arith, Follows-le (read_quoted_from-Follows cs (advance c p))))
    | inr q ↦
        rw (q, non_empty-cursor (read_bare_from iswspace (c ∷ cs) p))
          (λ ne. omega (arith, read_bare-lt c cs p ne))
  ]

  pub skip_ws-Follows : (s : Cursor) → Follows s (skip_ws iswspace s)
  skip_ws-Follows s = skip_from-Follows iswspace Skip.outer s.rest s.pos

  pub read_string-Follows : (s : Cursor) → Follows s (read_string iswspace s).1
  unfolding read_string
  read_string-Follows s =
      Follows-trans (skip_ws-Follows s) (read_word-Follows _ (skip_ws iswspace s).pos)

  pub read_string-lt :
      (s : Cursor)
      → (read_string iswspace s).0 ≢ none
      → length (read_string iswspace s).1.rest < length s.rest
  unfolding read_string
  read_string-lt s ne = omega (
    arith,
    read_word-lt (skip_ws iswspace s).rest (skip_ws iswspace s).pos ne,
    Follows-le (skip_ws-Follows s),
  )

-- Why no word can be read: the text ends, or a character stands there that ends a bare word and opens
-- no quoted one.
abbrev pub Stops : (ℕ → Bool) → List ℕ → Type 0
Stops iswspace [] = Unit
Stops iswspace (c ∷ cs) = (ends_bare iswspace c ≡ true) × ((c == b'"') ≡ false)

-- What is not read yet where an error with this message is reported.
abbrev pub Explains : (ℕ → Bool) → Message → List ℕ → Type 0
Explains iswspace Message.unexpected_end unread = unread ≡ []
Explains iswspace Message.expected_open_brace unread = (peek unread == b'{') ≡ false
Explains iswspace _ unread = Stops iswspace unread

quoted-Stops :
    (cs : List ℕ) (p : Position)
    → (read_quoted_from cs p).0 ≡ none
    → (read_quoted_from cs p).1.rest ≡ []
unfolding read_quoted_from
quoted-Stops [] p = λ h. refl
quoted-Stops (c ∷ []) p = λ h. refl
quoted-Stops (c ∷ e ∷ cs) p = elim (Bool-cases (c == b'"')) [
  | inl q ↦ rw q (λ h. absurd cc)
  | inr q ↦ elim (Bool-cases (c == b'\\')) [
    | inl b ↦
        rw (q, b, prepend-cursor (unescape e))
          (λ h. quoted-Stops cs (advance e (advance c p)) (prepend-none (unescape e) _ h))
    | inr b ↦
        rw (q, b, prepend-cursor c) (λ h. quoted-Stops (e ∷ cs) (advance c p) (prepend-none c _ h))
  ]
]
  where
    prepend-none : (c : ℕ) (r : Option (List ℕ) × Cursor) → (prepend c r).0 ≡ none → r.0 ≡ none
    prepend-none c (none, s) h = refl
    prepend-none c (some x, s) h = absurd cc

module _ (iswspace : ℕ → Bool) where
  ended-Stops : (cs : List ℕ) → cs ≡ [] → Stops iswspace cs
  ended-Stops [] h = tt
  ended-Stops (c ∷ cs) h = absurd cc

  bare-Stops :
      (c : ℕ) (cs : List ℕ) (p : Position)
      → (c == b'"') ≡ false
      → (non_empty (read_bare_from iswspace (c ∷ cs) p)).0 ≡ none
      → Stops iswspace (read_bare_from iswspace (c ∷ cs) p).1.rest
  unfolding read_bare_from
  bare-Stops c cs p q = elim (Bool-cases (ends_bare iswspace c)) [
    | inl e ↦ rw e (λ h. (e, q))
    | inr e ↦ rw e (λ h. absurd cc)
  ]

  word-Stops :
      (cs : List ℕ) (p : Position)
      → (read_word iswspace cs p).0 ≡ none
      → Stops iswspace (read_word iswspace cs p).1.rest
  unfolding read_word
  word-Stops [] p = λ h. tt
  word-Stops (c ∷ cs) p = elim (Bool-cases (c == b'"')) [
    | inl q ↦ rw q (λ h.
        ended-Stops (read_quoted_from cs (advance c p)).1.rest (quoted-Stops cs (advance c p) h))
    | inr q ↦ rw (q, non_empty-cursor (read_bare_from iswspace (c ∷ cs) p)) (bare-Stops c cs p q)
  ]

  pub read_string-Stops :
      (s : Cursor)
      → (read_string iswspace s).0 ≡ none
      → Stops iswspace (read_string iswspace s).1.rest
  unfolding read_string
  read_string-Stops s h = word-Stops (skip_ws iswspace s).rest (skip_ws iswspace s).pos h

-- What a step that starts at `s` leaves: where it stands then, or where it failed.
abbrev pub Lands {ℓ} : (ℕ → Bool) → {A : Type ℓ} → Cursor → Result (A × Cursor) → Type 0
Lands iswspace s (ok r) = Follows s r.1
Lands iswspace s (err e) =
    (t : Cursor) × Follows s t
    × (e.line ≡ t.pos.line)
    × (e.column ≡ t.pos.col)
    × Explains iswspace e.message t.rest
Lands iswspace s out_of_fuel = Unit

module _ (iswspace : ℕ → Bool) where
  pub Lands-from {ℓ} :
      {A : Type ℓ} {s t : Cursor} (m : Result (A × Cursor))
      → Follows s t
      → Lands iswspace t m
      → Lands iswspace s m
  Lands-from (ok r) a l = Follows-trans a l
  Lands-from (err e) a (t, l, x, y, w) = (t, Follows-trans a l, x, y, w)
  Lands-from out_of_fuel a l = tt

  Lands-bind {ℓ κ} :
      {A : Type ℓ} {B : Type κ} (s : Cursor) (m : Result (A × Cursor))
      (f : A × Cursor → Result (B × Cursor))
      → Lands iswspace s m
      → ((r : A × Cursor) → Lands iswspace r.1 (f r))
      → Lands iswspace s (m >>= f)
  Lands-bind s (ok r) f l g = Lands-from (f r) l (g r)
  Lands-bind s (err e) f l g = l
  Lands-bind s out_of_fuel f l g = tt

  pub require-Lands :
      {s : Cursor} (r : Option (List ℕ) × Cursor) (m : Message)
      → Follows s r.1
      → (r.0 ≡ none → Explains iswspace m r.1.rest)
      → Lands iswspace s (require r m)
  require-Lands (none, t) m a w = (t, a, refl, refl, w refl)
  require-Lands (some x, t) m a w = a

pub consume-Follows : (s : Cursor) → Follows s (consume s)
consume-Follows s = go s.rest s.pos
  where
    go : (cs : List ℕ) (p : Position) → Follows (record { rest = cs; pos = p }) (consume_list cs p)
    go [] p = Follows-refl _
    go (c ∷ cs) p = Follows-cons c cs p (Follows-refl _)

module _ (iswspace : ℕ → Bool) where
  pub parse_value-Lands :
      (block : Cursor → Result (Children × Cursor))
      → ((s : Cursor) → Lands iswspace s (block s))
      → (s : Cursor) → Lands iswspace s (parse_value iswspace block s)
  unfolding parse_value
  parse_value-Lands block h s = elim (Bool-cases (peek s.rest == b'{')) [
    | inl e ↦ rw e (
        Lands-bind iswspace s (block (consume s)) _
          (Lands-from iswspace (block (consume s)) (consume-Follows s) (h (consume s)))
          (λ r. Follows-refl _))
    | inr e ↦ rw e (
        Lands-bind iswspace s _ _
          (require-Lands iswspace (read_string iswspace s) Message.expected_value
            (read_string-Follows iswspace s) (read_string-Stops iswspace s))
          (λ r. Follows-refl _))
  ]

  parse_round_at-Lands :
      (loop : Cursor → Result (Children × Cursor))
      → ((s : Cursor) → Lands iswspace s (loop s))
      → (cs : List ℕ) (p : Position)
      → Lands iswspace
          (record { rest = cs; pos = p })
          (parse_round iswspace loop (record { rest = cs; pos = p }))
  unfolding parse_round
  parse_round_at-Lands loop h [] p =
      (record { rest = []; pos = p }, Follows-refl _, refl, refl, refl)
  parse_round_at-Lands loop h (c ∷ cs) p = elim (Bool-cases (c == b'}')) [
    | inl e ↦ rw e (Follows-cons c cs p (Follows-refl _))
    | inr e ↦
        let s : Cursor = record { rest = c ∷ cs; pos = p } in
        rw e (
          Lands-bind iswspace s _ _
            (require-Lands iswspace (read_string iswspace s) Message.expected_key
              (read_string-Follows iswspace s) (read_string-Stops iswspace s))
            λ k.
              Lands-bind iswspace k.1 _ _
                (Lands-from iswspace (parse_value iswspace loop (skip_ws iswspace k.1))
                  (skip_ws-Follows iswspace k.1) (parse_value-Lands loop h (skip_ws iswspace k.1)))
                λ child.
                  Lands-bind iswspace child.1 (loop child.1) _ (h child.1) (λ more. Follows-refl _))
  ]

  pub parse_object-Lands : (f : ℕ) (s : Cursor) → Lands iswspace s (parse_object iswspace f s)
  unfolding parse_object
  parse_object-Lands zero s = tt
  parse_object-Lands (suc f) s =
      Lands-from iswspace (parse_round iswspace (parse_object iswspace f) (skip_ws iswspace s))
        (skip_ws-Follows iswspace s)
        (parse_round_at-Lands (parse_object iswspace f) (parse_object-Lands f)
          (skip_ws iswspace s).rest (skip_ws iswspace s).pos)
