-- ===== src/Common/Every.antt =====
-- A Boolean test that every element of a list passes.
use steam_account_manager.Common.{
  List, [], ◌∷◌, ◌++◌, map, ℕ, zero, suc, get_or, take, drop, Bool, true, ◌&&◌, ◌≡◌, refl, arith,
}

unfoldable pub every {ℓ} : {A : Type ℓ} → (A → Bool) → List A → Bool
every test [] = true
every test (x ∷ xs) = test x && every test xs

pub both : (a b : Bool) → (a && b) ≡ true → (a ≡ true) × (b ≡ true)
both a b h = ground (arith, h)

pub every-append {ℓ} :
    {A : Type ℓ} (test : A → Bool) (xs ys : List A)
    → every test xs ≡ true
    → every test ys ≡ true
    → every test (xs ++ ys) ≡ true
unfolding every
every-append test [] ys h k = k
every-append test (x ∷ xs) ys h k = ground (arith, every-append test xs ys)

module _ {ℓ κ} {A : Type ℓ} {B : Type κ} (f : A → B) (test : A → Bool) (after : B → Bool) where
  pub every-map :
      (xs : List A)
      → ((a : A) → test a ≡ true → after (f a) ≡ true)
      → every test xs ≡ true
      → every after (map f xs) ≡ true
  unfolding every
  every-map [] step h = refl
  every-map (x ∷ xs) step h = ground (arith, every-map xs step, step x, h)

pub every_weaken {ℓ} :
    {A : Type ℓ} (test after : A → Bool) (xs : List A)
    → ((a : A) → test a ≡ true → after a ≡ true)
    → every test xs ≡ true
    → every after xs ≡ true
unfolding every
every_weaken test after [] step h = refl
every_weaken test after (x ∷ xs) step h = ground (arith, every_weaken test after xs step, step x, h)

module _ {ℓ} {A : Type ℓ} (test : A → Bool) where
  pub every-take : (n : ℕ) (xs : List A) → every test xs ≡ true → every test (take n xs) ≡ true
  unfolding every
  every-take zero xs h = refl
  every-take (suc n) [] h = refl
  every-take (suc n) (x ∷ xs) h = ground (arith, every-take n xs)

  pub every-drop : (n : ℕ) (xs : List A) → every test xs ≡ true → every test (drop n xs) ≡ true
  unfolding every
  every-drop zero xs h = h
  every-drop (suc n) [] h = refl
  every-drop (suc n) (x ∷ xs) h = every-drop n xs (ground (arith, h))

  pub every-get_or :
      (xs : List A) (i : ℕ) (a : A)
      → test a ≡ true
      → every test xs ≡ true
      → test (get_or xs i a) ≡ true
  unfolding every
  every-get_or [] i a e h = e
  every-get_or (x ∷ xs) zero a e h = ground (arith, h)
  every-get_or (x ∷ xs) (suc i) a e h = every-get_or xs i a e (ground (arith, h))
