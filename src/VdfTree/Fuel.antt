-- ===== src/VdfTree/Fuel.antt =====
-- core/cleaner/vdf_tree.cpp, class Parser: the loops end on every text.
use steam_account_manager.Common.{
  ℕ, zero, suc, ◌≤◌, ◌<◌, List, [], ◌∷◌, ◌≡◌, ◌≢◌, refl, ap, Bool, true, some, none, Option, arith,
  length, ◌==◌, Bool-cases, inl, inr,
}
use steam_account_manager.VdfTree.{Children}
use steam_account_manager.VdfTree.Parser.{
  Position, Cursor, Result, ok, err, out_of_fuel, ◌>>=◌, read_string, skip_ws, require, parse_value,
  parse_round, parse_object, parse_root, parse_document, parse, start, strip_bom, Message, consume,
  consume_list, peek, emplace,
}
use steam_account_manager.VdfTree.Progress.{
  Lands, Follows-le, read_string-lt, parse_value-Lands, skip_ws-Follows, parse_object-Lands,
}

require-total : (r : Option (List ℕ) × Cursor) (m : Message) → require r m ≢ out_of_fuel
require-total (none, t) m e = cc
require-total (some x, t) m e = cc

-- What a bind needs to end: its first part, and the second on the results of the first.
bind-total {ℓ κ} :
    {A : Type ℓ} {B : Type κ} (m : Result A) (f : A → Result B)
    → m ≢ out_of_fuel
    → ((a : A) → m ≡ ok a → f a ≢ out_of_fuel)
    → (m >>= f) ≢ out_of_fuel
bind-total (ok a) f h k = k a refl
bind-total (err e) f h k = λ x. cc
bind-total out_of_fuel f h k = absurd (h refl)

-- A step that succeeds ends no earlier than it starts.
Lands-le {ℓ} :
    {A : Type ℓ} (iswspace : ℕ → Bool) (s : Cursor) (m : Result (A × Cursor)) (r : A × Cursor)
    → Lands iswspace s m
    → m ≡ ok r
    → length r.1.rest ≤ length s.rest
Lands-le iswspace s m r l e = Follows-le (rw e at l)

require-ok :
    (r : Option (List ℕ) × Cursor) (m : Message) {k : List ℕ × Cursor}
    → require r m ≡ ok k
    → (r.0 ≢ none) × (r.1 ≡ k.1)
require-ok (none, t) m e = cc
require-ok (some x, t) m e = (λ p. cc, cc)

consume-lt :
    (cs : List ℕ) (p : Position)
    → (peek cs == b'{') ≡ true
    → length (consume_list cs p).rest < length cs
consume-lt [] p e = cc
consume-lt (c ∷ cs) p e = omega arith

module _ (iswspace : ℕ → Bool) where
  parse_value-total :
      (block : Cursor → Result (Children × Cursor)) (cs : List ℕ) (p : Position)
      → ((t : Cursor) → length t.rest < length cs → block t ≢ out_of_fuel)
      → parse_value iswspace block (record { rest = cs; pos = p }) ≢ out_of_fuel
  unfolding parse_value
  parse_value-total block cs p h = elim (Bool-cases (peek cs == b'{')) [
    | inl e ↦
        rw e (bind-total (block (consume_list cs p)) _ (h _ (consume-lt cs p e)) (λ a _ x. cc))
    | inr e ↦ rw e (
        bind-total _ _ (require-total (read_string iswspace (record { rest = cs; pos = p })) _)
          (λ a _ x. cc))
  ]

  parse_round-total :
      (loop : Cursor → Result (Children × Cursor)) (cs : List ℕ) (p : Position)
      → ((t : Cursor) → Lands iswspace t (loop t))
      → ((t : Cursor) → length t.rest < length cs → loop t ≢ out_of_fuel)
      → parse_round iswspace loop (record { rest = cs; pos = p }) ≢ out_of_fuel
  unfolding parse_round
  parse_round-total loop [] p l h = λ e. cc
  parse_round-total loop (c ∷ cs) p l h = elim (Bool-cases (c == b'}')) [
    | inl e ↦ rw e (λ x. cc)
    | inr e ↦ rw e (bind-total _ _ (require-total (read_string iswspace s) _) value_total)
  ]
    where
      s : Cursor
      s = record { rest = c ∷ cs; pos = p }

      key-lt :
          {k : List ℕ × Cursor}
          → require (read_string iswspace s) Message.expected_key ≡ ok k
          → length (skip_ws iswspace k.1).rest ≤ length cs
      key-lt {k} e =
          let (ne, q) = require-ok (read_string iswspace s) _ e in
          omega (
            arith,
            read_string-lt iswspace s ne,
            ap (λ (t : Cursor). length t.rest) q,
            Follows-le (skip_ws-Follows iswspace k.1),
          )

      value_total :
          (k : List ℕ × Cursor)
          → require (read_string iswspace s) Message.expected_key ≡ ok k
          → (parse_value iswspace loop (skip_ws iswspace k.1) >>= λ child.
              loop child.1 >>= emplace k.0 child.0)
            ≢ out_of_fuel
      value_total k ek =
          let t : Cursor = skip_ws iswspace k.1 in
          bind-total (parse_value iswspace loop t) _
            (parse_value-total loop t.rest t.pos (λ u lt. h u (omega (arith, key-lt ek))))
            λ child ec.
              bind-total (loop child.1) _
                (h child.1 (
                  omega (
                    arith,
                    key-lt ek,
                    Lands-le iswspace t (parse_value iswspace loop t) child
                        (parse_value-Lands iswspace loop l t) ec,
                  )))
                (λ more _ x. cc)

  parse_object-total :
      (f : ℕ) (s : Cursor) → length s.rest < f → parse_object iswspace f s ≢ out_of_fuel
  unfolding parse_object
  parse_object-total zero s h = absurd (omega arith)
  parse_object-total (suc f) s h =
      parse_round-total (parse_object iswspace f) (skip_ws iswspace s).rest (skip_ws iswspace s).pos
        (parse_object-Lands iswspace f)
        (λ t lt. parse_object-total f t (omega (arith, Follows-le (skip_ws-Follows iswspace s))))

  parse_root-total :
      (f : ℕ) (key : List ℕ) (s : Cursor)
      → length s.rest ≤ f
      → parse_root iswspace f key s ≢ out_of_fuel
  unfolding parse_root
  parse_root-total f key s h = elim (Bool-cases (peek s.rest == b'{')) [
    | inl e ↦ rw e (
        bind-total (parse_object iswspace f (consume s)) _
          (parse_object-total f (consume s) (omega (arith, consume-lt s.rest s.pos e)))
          (λ a _ x. cc))
    | inr e ↦ rw e (λ x. cc)
  ]

length-strip_bom : (text : List ℕ) → length (strip_bom text) ≤ length text
length-strip_bom [] = omega arith
length-strip_bom (c ∷ cs) = ground arith

-- On every text parse gives a document or an error: one unit of fuel for each character, and one
-- more, is enough for its loops.
pub parse-ne-out_of_fuel : (iswspace : ℕ → Bool) (text : List ℕ) → parse iswspace text ≢ out_of_fuel
unfolding parse parse_document
parse-ne-out_of_fuel iswspace text =
    let s : Cursor = start (strip_bom text) in
    let s₁ : Cursor = skip_ws iswspace s in
    bind-total _ _ (require-total (read_string iswspace s₁) _) λ k ek.
      let (ne, q) = require-ok (read_string iswspace s₁) _ ek in
      parse_root-total iswspace (suc (length text)) k.0 (skip_ws iswspace k.1) (
        omega (
          arith,
          length-strip_bom text,
          Follows-le (skip_ws-Follows iswspace s),
          read_string-lt iswspace s₁ ne,
          ap (λ (t : Cursor). length t.rest) q,
          Follows-le (skip_ws-Follows iswspace k.1),
        ))
