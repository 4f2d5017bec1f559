-- ===== src/Accounts/Order.antt =====
-- core/account_store/filter.cpp: the comparison by which accounts are sorted.
use steam_account_manager.Common.{
  ℕ, List, [], ◌∷◌, Bool, true, false, ◌≡◌, refl, ◌⊎◌, inl, inr, arith, if◌then◌else◌,
}
use steam_account_manager.Common.Int.{ℤ}
use steam_account_manager.Accounts.Filter.{
  SortKey, persona_asc, persona_desc, login_asc, last_login_desc, created_desc, premier_desc,
  steam_level_desc, cs2_level_desc, no_cooldown_first, drop_unclaimed_first, cs2_xp_desc,
  total_spend_desc, cooldown_soonest, AccountFilter, is_lt, differ, compare_text, greater_first,
  less_first, false_first, compare_for_sort, comes_first, is_revoked, has_active_cooldown,
  drop_claimed, cooldown_sort_key,
}

-- A strict weak order: what `std::stable_sort` asks of a comparison. It is asymmetric, and whatever
-- stands between two elements in order is behind the first or before the second.
pub record IsWeakOrder {ℓ} {A : Type ℓ} (less : A → A → Bool) : Type ℓ where
  pub asym : (x y : A) → less x y ≡ true → less y x ≡ false
  pub cotrans : (x y z : A) → less x y ≡ true → (less x z ≡ true) ⊎ (less z y ≡ true)

text_asym : (x y : List ℕ) → is_lt (compare_text x y) ≡ true → is_lt (compare_text y x) ≡ false
unfolding compare_text
text_asym [] [] h = ground arith
text_asym [] (d ∷ y) h = ground arith
text_asym (c ∷ x) [] h = ground arith
text_asym (c ∷ x) (d ∷ y) h = ground (arith, text_asym x y, h)

text_cotrans :
    (x y z : List ℕ)
    → is_lt (compare_text x y) ≡ true
    → (is_lt (compare_text x z) ≡ true) ⊎ (is_lt (compare_text z y) ≡ true)
unfolding compare_text
text_cotrans [] [] z h = ground (arith, h)
text_cotrans [] (d ∷ y) [] h = inr refl
text_cotrans [] (d ∷ y) (e ∷ z) h = inl refl
text_cotrans (c ∷ x) [] z h = ground (arith, h)
text_cotrans (c ∷ x) (d ∷ y) [] h = inr refl
text_cotrans (c ∷ x) (d ∷ y) (e ∷ z) h = ground (arith, text_cotrans x y z, h)

greater_asym : (x y : ℤ) → is_lt (greater_first x y) ≡ true → is_lt (greater_first y x) ≡ false
unfolding greater_first
greater_asym x y h = ground (arith, h)

greater_cotrans :
    (x y z : ℤ)
    → is_lt (greater_first x y) ≡ true
    → (is_lt (greater_first x z) ≡ true) ⊎ (is_lt (greater_first z y) ≡ true)
unfolding greater_first
greater_cotrans x y z h = ground (arith, h)

less_asym : (x y : ℤ) → is_lt (less_first x y) ≡ true → is_lt (less_first y x) ≡ false
unfolding less_first
less_asym x y h = ground (arith, h)

less_cotrans :
    (x y z : ℤ)
    → is_lt (less_first x y) ≡ true
    → (is_lt (less_first x z) ≡ true) ⊎ (is_lt (less_first z y) ≡ true)
unfolding less_first
less_cotrans x y z h = ground (arith, h)

false_asym : (x y : Bool) → is_lt (false_first x y) ≡ true → is_lt (false_first y x) ≡ false
unfolding false_first
false_asym x y h = ground (arith, h)

false_cotrans :
    (x y z : Bool)
    → is_lt (false_first x y) ≡ true
    → (is_lt (false_first x z) ≡ true) ⊎ (is_lt (false_first z y) ≡ true)
unfolding false_first
false_cotrans x y z h = ground (arith, h)

text-IsWeakOrder : IsWeakOrder (λ x y. is_lt (compare_text x y))
text-IsWeakOrder = record { asym = text_asym; cotrans = text_cotrans }

greater-IsWeakOrder : IsWeakOrder (λ x y. is_lt (greater_first x y))
greater-IsWeakOrder = record { asym = greater_asym; cotrans = greater_cotrans }

less-IsWeakOrder : IsWeakOrder (λ x y. is_lt (less_first x y))
less-IsWeakOrder = record { asym = less_asym; cotrans = less_cotrans }

false-IsWeakOrder : IsWeakOrder (λ x y. is_lt (false_first x y))
false-IsWeakOrder = record { asym = false_asym; cotrans = false_cotrans }

module _ {ℓ ℓ'} {A : Type ℓ} {B : Type ℓ'} (key : A → B) {less : B → B → Bool} where
  pub keyed-IsWeakOrder : IsWeakOrder less → IsWeakOrder (λ x y. less (key x) (key y))
  keyed-IsWeakOrder o = record {
    asym = λ x y. o.asym (key x) (key y);
    cotrans = λ x y z. o.cotrans (key x) (key y) (key z);
  }

swap_sides {ℓ} : {P Q : Type ℓ} → P ⊎ Q → Q ⊎ P
swap_sides (inl p) = inr p
swap_sides (inr q) = inl q

flipped-IsWeakOrder {ℓ} :
    {A : Type ℓ} {less : A → A → Bool} → IsWeakOrder less → IsWeakOrder (λ x y. less y x)
flipped-IsWeakOrder o = record {
  asym = λ x y. o.asym y x;
  cotrans = λ x y z h. swap_sides (o.cotrans y x z h);
}

sort_key-IsWeakOrder :
    (k : SortKey) (now : ℤ) → IsWeakOrder (λ a b. is_lt (compare_for_sort k now a b))
unfolding compare_for_sort
sort_key-IsWeakOrder persona_asc now = keyed-IsWeakOrder (λ a. a.web.persona_name) text-IsWeakOrder
sort_key-IsWeakOrder persona_desc now =
    flipped-IsWeakOrder (keyed-IsWeakOrder (λ a. a.web.persona_name) text-IsWeakOrder)
sort_key-IsWeakOrder login_asc now = keyed-IsWeakOrder (λ a. a.login) text-IsWeakOrder
sort_key-IsWeakOrder last_login_desc now =
    keyed-IsWeakOrder (λ a. a.last_login_unix) greater-IsWeakOrder
sort_key-IsWeakOrder created_desc now = keyed-IsWeakOrder (λ a. a.created_unix) greater-IsWeakOrder
sort_key-IsWeakOrder premier_desc now =
    keyed-IsWeakOrder (λ a. a.cs2.premier_rating) greater-IsWeakOrder
sort_key-IsWeakOrder steam_level_desc now =
    keyed-IsWeakOrder (λ a. a.web.steam_level) greater-IsWeakOrder
sort_key-IsWeakOrder cs2_level_desc now =
    keyed-IsWeakOrder (λ a. a.cs2.cs2_player_level) greater-IsWeakOrder
sort_key-IsWeakOrder cs2_xp_desc now =
    keyed-IsWeakOrder (λ a. a.cs2.cs2_player_xp) greater-IsWeakOrder
sort_key-IsWeakOrder no_cooldown_first now =
    keyed-IsWeakOrder (λ a. has_active_cooldown a now) false-IsWeakOrder
sort_key-IsWeakOrder drop_unclaimed_first now =
    keyed-IsWeakOrder (λ a. drop_claimed a now) false-IsWeakOrder
sort_key-IsWeakOrder total_spend_desc now =
    keyed-IsWeakOrder (λ a. a.total_spend_usd_cents) greater-IsWeakOrder
sort_key-IsWeakOrder cooldown_soonest now =
    keyed-IsWeakOrder (λ a. cooldown_sort_key a now) less-IsWeakOrder

-- An order of two classes, refined within a class.
module _ {ℓ} {A : Type ℓ} (first : A → Bool) {less : A → A → Bool} (o : IsWeakOrder less) where
  ranked-IsWeakOrder : IsWeakOrder (λ x y. if differ (first x) (first y) then first x else less x y)
  ranked-IsWeakOrder = record {
    asym = λ x y h. ground (arith, o.asym x y, h);
    cotrans = λ x y z h. ground (arith, o.cotrans x y z, h);
  }

-- The comparison that apply_filter sorts by is a strict weak order for every sort key, as
-- std::stable_sort requires: it is asymmetric, and of two accounts in order, every third is
-- behind the first or before the second.
pub comes_first-IsWeakOrder : (f : AccountFilter) → IsWeakOrder (comes_first f)
unfolding comes_first
comes_first-IsWeakOrder f = ranked-IsWeakOrder is_revoked (sort_key-IsWeakOrder f.sort f.now_unix)
