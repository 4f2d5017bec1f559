-- ===== src/SteamLocal/Total.antt =====
-- core/steam_local/loginusers.cpp: `parse_vdf` on any text, and how much its tokens take.
use steam_account_manager.Common.{
  ℕ, zero, suc, ◌≤◌, ◌<◌, List, [], ◌∷◌, Bool, true, false, not, ◌≡◌, refl, ◌∙◌, ap, Option, some,
  arith, length, inl, inr, ◌⊎◌, ◌>>=◌, text_eq_self,
}
use steam_account_manager.SteamLocal.{node, VdfNodes, nil, next}
use steam_account_manager.SteamLocal.Text.{
  Token, string, lbrace, rbrace, end, is_space, skip_from, read_quoted, read_bare, token_at,
  next_token, parse_value, parse_round, parse_object_body, parse_vdf, serialize,
}
use steam_account_manager.SteamLocal.RoundTrip.{are_plain, parse_vdf-serialize}

length-skip : (b : Bool) (s : List ℕ) → length (skip_from b s) ≤ length s
unfolding skip_from
length-skip b [] = omega arith
length-skip true (c ∷ cs) = ground (arith, length-skip true cs, length-skip false cs)
length-skip false (c ∷ cs) = ground (arith, length-skip true cs, length-skip false cs)

length-read_quoted : (s : List ℕ) → length (read_quoted s).1 ≤ length s
unfolding read_quoted
length-read_quoted [] = omega arith
length-read_quoted (c ∷ []) = ground arith
length-read_quoted (c ∷ e ∷ cs) = ground (arith, length-read_quoted cs, length-read_quoted (e ∷ cs))

length-read_bare : (s : List ℕ) → length (read_bare s).1 ≤ length s
unfolding read_bare
length-read_bare [] = omega arith
length-read_bare (c ∷ cs) = ground (arith, length-read_bare cs)

-- What stands first when white space is skipped is none.
starts_bare : List ℕ → Bool
starts_bare [] = true
starts_bare (c ∷ cs) = not (is_space c)

starts_bare-skip : (b : Bool) (s : List ℕ) → starts_bare (skip_from b s) ≡ true
unfolding skip_from starts_bare
starts_bare-skip b [] = refl
starts_bare-skip true (c ∷ cs) = ground (arith, starts_bare-skip true cs, starts_bare-skip false cs)
starts_bare-skip false (c ∷ cs) =
    ground (arith, starts_bare-skip true cs, starts_bare-skip false cs)

-- Each token but the end takes a character.
length-token :
    (c : ℕ) (cs : List ℕ) → is_space c ≡ false → length (token_at (c ∷ cs)).1 < suc (length cs)
unfolding token_at read_bare
length-token c cs h = ground (arith, length-read_quoted cs, length-read_bare cs, h)

token-nil : token_at [] ≡ (end, [])
unfolding token_at
token-nil = refl

token-progress :
    (s : List ℕ)
    → starts_bare s ≡ true
    → (token_at s ≡ (end, [])) ⊎ (length (token_at s).1 < length s)
unfolding starts_bare
token-progress [] h = inl (token-nil)
token-progress (c ∷ cs) h = inr (length-token c cs (ground (arith, h)))

next-progress : (s : List ℕ) → (next_token s ≡ (end, [])) ⊎ (length (next_token s).1 < length s)
unfolding next_token
next-progress s = elim (token-progress (skip_from false s) (starts_bare-skip false s)) [
  | inl e ↦ inl e
  | inr l ↦ inr (omega (arith, l, length-skip false s))
]

next-length : (s : List ℕ) → length (next_token s).1 ≤ length s
next-length s = elim (next-progress s) [ inl e ↦ rw e (omega arith) | inr l ↦ omega (arith, l) ]

-- A result with no more text left than there was, and a plain tree.
record Reads (r : Option (VdfNodes × List ℕ)) (bound : ℕ) : Type 0 where
  ns : VdfNodes
  rest : List ℕ
  read : r ≡ some (ns, rest)
  short : length rest ≤ bound
  plain : are_plain ns ≡ true

module _ (loop : List ℕ → Option (VdfNodes × List ℕ)) (f : ℕ)
    (reads : (s : List ℕ) → length s < f → Reads (loop s) (length s)) where
  value-Reads :
      (key : List ℕ) (t : Token × List ℕ)
      → length t.1 < f
      → Reads (parse_value loop key t) (length t.1)
  unfolding parse_value are_plain
  value-Reads key (string v, s) h =
      let r = reads s h in
      record {
        ns = next (node key v false nil) r.ns;
        rest = r.rest;
        read = ap (λ o. o >>= λ more. some (next (node key v false nil) more.0, more.1)) r.read;
        short = r.short;
        plain = r.plain;
      }
  value-Reads key (lbrace, s) h =
      let r = reads s h in
      let q = reads r.rest (omega (arith, h, r.short)) in
      record {
        ns = next (node key [] true r.ns) q.ns;
        rest = q.rest;
        read =
            ap
              (λ o. o >>= λ block.
                loop block.1 >>= λ more. some (next (node key [] true block.0) more.0, more.1))
              r.read
            ∙ ap (λ o. o >>= λ more. some (next (node key [] true r.ns) more.0, more.1)) q.read;
        short = omega (arith, r.short, q.short);
        plain = ground (arith, text_eq_self [], r.plain, q.plain);
      }
  value-Reads key (rbrace, s) h = record {
    ns = _;
    rest = s;
    read = refl;
    short = omega arith;
    plain = refl;
  }
  value-Reads key (end, s) h = record {
    ns = _;
    rest = s;
    read = refl;
    short = omega arith;
    plain = refl;
  }

  round-Reads : (t : Token × List ℕ) → length t.1 < f → Reads (parse_round loop t) (length t.1)
  unfolding parse_round are_plain
  round-Reads (string key, s) h =
      let r = value-Reads key (next_token s) (omega (arith, h, next-length s)) in
      record {
        ns = r.ns;
        rest = r.rest;
        read = r.read;
        short = omega (arith, r.short, next-length s);
        plain = r.plain;
      }
  round-Reads (lbrace, s) h = reads s h
  round-Reads (rbrace, s) h = record {
    ns = nil;
    rest = s;
    read = refl;
    short = omega arith;
    plain = refl;
  }
  round-Reads (end, s) h = record {
    ns = nil;
    rest = s;
    read = refl;
    short = omega arith;
    plain = refl;
  }

parse-Reads : (f : ℕ) (s : List ℕ) → length s < f → Reads (parse_object_body f s) (length s)
unfolding parse_object_body parse_round are_plain
parse-Reads zero s h = absurd (omega (arith, h))
parse-Reads (suc f) s h = elim (next-progress s) [
  | inl e ↦ record {
    ns = nil;
    rest = [];
    read = ap (parse_round (parse_object_body f)) e;
    short = omega arith;
    plain = refl;
  }
  | inr l ↦
      let r =
        round-Reads (parse_object_body f) f (parse-Reads f) (next_token s) (omega (arith, h, l)) in
      record {
        ns = r.ns;
        rest = r.rest;
        read = r.read;
        short = omega (arith, r.short, l);
        plain = r.plain;
      }
]

-- parse_vdf reads every text, one unit of fuel for each character and one more being enough; and
-- the tree it reads is what it reads again where it is written.
pub parse_vdf-again :
    (text : List ℕ)
    → (root : VdfNodes) × (parse_vdf text ≡ some root) × (parse_vdf (serialize root) ≡ some root)
unfolding parse_vdf
parse_vdf-again text =
    let r = parse-Reads (suc (length text)) text (omega arith) in
    (
      r.ns,
      ap (λ o. o >>= λ (found : VdfNodes × List ℕ). some found.0) r.read,
      parse_vdf-serialize r.ns r.plain,
    )
