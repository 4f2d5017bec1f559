-- ===== src/Common/Text/Split.antt =====
-- Where a text is cut.
use steam_account_manager.Common.{
  ℕ, List, [], ◌∷◌, ◌++◌, Bool, true, false, not, ◌≡◌, ◌≢◌, text_eq, refl, sym, ◌∙◌, ap, arith,
  ◌==◌, none, some,
}
use steam_account_manager.Common.Every.{every}
use steam_account_manager.Common.Text.{Halves, split_first, split_last}

-- No `c` in the text.
abbrev pub lacks : ℕ → List ℕ → Bool
lacks c s = every (λ d. not (d == c)) s

pub split_first-append :
    (c : ℕ) (a b : List ℕ) → lacks c a ≡ true → split_first c (a ++ (c ∷ b)) ≡ some (a, b)
unfolding split_first every
split_first-append c [] b h = ground arith
split_first-append c (d ∷ a) b h = ground (arith, h, split_first-append c a b)

pub split_first-none : (c : ℕ) (a : List ℕ) → lacks c a ≡ true → split_first c a ≡ none
unfolding split_first every
split_first-none c [] h = refl
split_first-none c (d ∷ a) h = ground (arith, h, split_first-none c a)

pub split_last-none : (c : ℕ) (a : List ℕ) → lacks c a ≡ true → split_last c a ≡ none
unfolding split_last every
split_last-none c [] h = refl
split_last-none c (d ∷ a) h = ground (arith, h, split_last-none c a)

pub split_last-append :
    (c : ℕ) (a b : List ℕ) → lacks c b ≡ true → split_last c (a ++ (c ∷ b)) ≡ some (a, b)
unfolding split_last
split_last-append c [] b h = ground (arith, split_last-none c b h)
split_last-append c (d ∷ a) b h = ground (arith, split_last-append c a b h)

pub lacks_join :
    (c d : ℕ) (a b : List ℕ)
    → (d == c) ≡ false
    → lacks c a ≡ true
    → lacks c b ≡ true
    → lacks c (a ++ (d ∷ b)) ≡ true
unfolding every
lacks_join c d [] b e h k = rw e k
lacks_join c d (x ∷ a) b e h k = ground (arith, h, lacks_join c d a b e (ground (arith, h)) k)

pub not_empty : (s : List ℕ) → s ≢ [] → text_eq s [] ≡ false
unfolding text_eq
not_empty [] h = absurd (h refl)
not_empty (c ∷ s) h = refl

-- The halves of a cut.
front : Halves → List ℕ
front none = []
front (some (a, b)) = a

back : Halves → List ℕ
back none = []
back (some (a, b)) = b

-- Texts that are the same are cut alike.
pub split_first_inj :
    (c : ℕ) {a b x y : List ℕ}
    → lacks c a ≡ true
    → lacks c x ≡ true
    → a ++ (c ∷ b) ≡ x ++ (c ∷ y)
    → (a ≡ x) × (b ≡ y)
unfolding front back
split_first_inj c {a = a} {b = b} {x = x} {y = y} h k e =
    let same =
      sym (split_first-append c a b h) ∙ ap (split_first c) e ∙ split_first-append c x y k in
    (ap front same, ap back same)

pub split_last_inj :
    (c : ℕ) {a b x y : List ℕ}
    → lacks c b ≡ true
    → lacks c y ≡ true
    → a ++ (c ∷ b) ≡ x ++ (c ∷ y)
    → (a ≡ x) × (b ≡ y)
unfolding front back
split_last_inj c {a = a} {b = b} {x = x} {y = y} h k e =
    let same = sym (split_last-append c a b h) ∙ ap (split_last c) e ∙ split_last-append c x y k in
    (ap front same, ap back same)
