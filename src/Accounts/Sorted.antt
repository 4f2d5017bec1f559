-- ===== src/Accounts/Sorted.antt =====
-- core/account_store/filter.cpp: what `apply_filter` shows, and in which order.
use mathlib.Core.List.{Perm}
use mathlib.Core.List.Perm
use steam_account_manager.Common.{
  ℕ, suc, ◌+◌, ◌<◌, List, [], ◌∷◌, map, Bool, true, false, not, ◌&&◌, ◌||◌, ◌≡◌, refl, ◌∙◌, ap,
  arith, ltb, ◌==◌, zero, none, some, get_elem?,
}
use steam_account_manager.Common.Every.{every}
use steam_account_manager.Codec.Hex.{to_lower}
use steam_account_manager.Accounts.{Account}
use steam_account_manager.Accounts.Filter.{
  AccountFilter, insert, stable_sort, passes, passing_from, passing, shown, apply_filter,
}

module _ {ℓ} {A : Type ℓ} (less : A → A → Bool) (index : A → ℕ) where
  -- May `x` stand before `y`: it is less, or neither is less and it was before.
  unfoldable pub precedes : A → A → Bool
  precedes x y = less x y || not (less y x) && ltb (index x) (index y)

  unfoldable pub is_stably_sorted : List A → Bool
  is_stably_sorted [] = true
  is_stably_sorted (x ∷ xs) = every (precedes x) xs && is_stably_sorted xs

module _ {ℓ} {A : Type ℓ} (index : A → ℕ) where
  -- As the elements stand at first: each index is below those that follow.
  unfoldable pub has_index_below : A → A → Bool
  has_index_below x y = ltb (index x) (index y)

  unfoldable pub is_indexed : List A → Bool
  is_indexed [] = true
  is_indexed (x ∷ xs) = every (has_index_below x) xs && is_indexed xs

module _ {ℓ} {A : Type ℓ} (less : A → A → Bool) where
  every-insert :
      (test : A → Bool) (x : A) (ys : List A) → every test (insert less x ys) ≡ every test (x ∷ ys)
  unfolding every insert
  every-insert test x [] = refl
  every-insert test x (y ∷ ys) = ground (arith, every-insert test x ys)

  every-stable_sort :
      (test : A → Bool) (xs : List A) → every test (stable_sort less xs) ≡ every test xs
  unfolding every stable_sort
  every-stable_sort test [] = refl
  every-stable_sort test (x ∷ xs) =
      ground (arith, every-insert test x (stable_sort less xs), every-stable_sort test xs)

-- Is `i` among the indices?
unfoldable pub shows : List ℕ → ℕ → Bool
shows indices i = not (every (λ j. not (j == i)) indices)

-- Is there an account `i`, and does it pass?
unfoldable pub passes_at : List Account → AccountFilter → ℕ → Bool
passes_at accounts f i = elim (get_elem? accounts i) [
  | none ↦ false
  | some a ↦ passes a f (to_lower f.query)
]

every-map {ℓ ℓ'} :
    {A : Type ℓ} {B : Type ℓ'} (test : B → Bool) (g : A → B) (xs : List A)
    → every test (map g xs) ≡ every (λ x. test (g x)) xs
unfolding every
every-map test g [] = refl
every-map test g (x ∷ xs) = ap (λ b. test (g x) && b) (every-map test g xs)

-- Counted from `k` on.
module _ (f : AccountFilter) where
  passing_from-below :
      (accounts : List Account) (k i : ℕ)
      → i < k
      → every (λ e. not (e.index == i)) (passing_from k accounts f (to_lower f.query)) ≡ true
  unfolding every passing_from
  passing_from-below [] k i h = refl
  passing_from-below (a ∷ as') k i h = ground (arith, passing_from-below as' (k + 1) i, h)

  passing_from-at :
      (accounts : List Account) (k i : ℕ)
      → not (every (λ e. not (e.index == k + i)) (passing_from k accounts f (to_lower f.query)))
        ≡ passes_at accounts f i
  unfolding every passing_from passes_at
  passing_from-at [] k i = refl
  passing_from-at (a ∷ as') k zero =
      let e : k + 0 ≡ k = omega arith in rw e (ground (arith, passing_from-below as' (k + 1) k))
  passing_from-at (a ∷ as') k (suc i) =
      let e : k + 1 + i ≡ k + suc i = omega arith in
      ground (arith, rw e at (passing_from-at as' (k + 1) i))

-- apply_filter shows an index exactly if there is an account of that index and it passes the
-- filter.
pub apply_filter-shows :
    (accounts : List Account) (f : AccountFilter) (i : ℕ)
    → shows (apply_filter accounts f) i ≡ passes_at accounts f i
unfolding shows apply_filter shown passing
apply_filter-shows accounts f i =
    ap not (
      every-map (λ j. not (j == i)) (λ e. e.index) (shown accounts f)
      ∙ every-stable_sort _ (λ e. not (e.index == i)) (passing accounts f))
    ∙ (let e : 0 + i ≡ i = omega arith in rw e at (passing_from-at f accounts 0 i))
