-- ===== src/Base/Sort/Parts.antt =====
-- Sorting a list by its parts, by two tests that agree, and what it keeps.
use zincha_sdk.Base.{
  suc, ◌≡◌, refl, ap, ◌∙◌, inl, inr, Bool, true, List, [], ◌∷◌, ◌++◌, arith, Bool-cases, length,
  All, nat_eq, list_eq, option_eq,
}
use zincha_sdk.Base.Sort.{insert, sort}

insert-All {ℓ} :
    {A : Type ℓ} (le : A → A → Bool) (P : A → Type 0) (x : A) (xs : List A)
    → P x
    → All P xs
    → All P (insert le x xs)
insert-All le P x [] h k = (h, tt)
insert-All le P x (y ∷ ys) h k = elim (Bool-cases (le x y)) [
  | inl below ↦ rw below (h, k)
  | inr above ↦ rw above (k.0, insert-All le P x ys h k.1)
]

pub sort-All {ℓ} :
    {A : Type ℓ} (le : A → A → Bool) (P : A → Type 0) (xs : List A) → All P xs → All P (sort le xs)
sort-All le P [] h = tt
sort-All le P (x ∷ xs) h = insert-All le P x (sort le xs) h.0 (sort-All le P xs h.1)

insert-length {ℓ} :
    {A : Type ℓ} (le : A → A → Bool) (x : A) (xs : List A)
    → length (insert le x xs) ≡ suc (length xs)
insert-length le x [] = refl
insert-length le x (y ∷ ys) = elim (Bool-cases (le x y)) [
  | inl below ↦ rw below refl
  | inr above ↦ rw above (ap suc (insert-length le x ys))
]

pub sort-length {ℓ} :
    {A : Type ℓ} (le : A → A → Bool) (xs : List A) → length (sort le xs) ≡ length xs
sort-length le [] = refl
sort-length le (x ∷ xs) = insert-length le x (sort le xs) ∙ ap suc (sort-length le xs)

insert-append {ℓ} :
    {A : Type ℓ} (le : A → A → Bool) (x : A) (xs ys : List A)
    → All (λ y. le x y ≡ true) ys
    → insert le x (xs ++ ys) ≡ insert le x xs ++ ys
insert-append le x [] [] h = refl
insert-append le x [] (y ∷ ys) h = rw h.0 refl
insert-append le x (z ∷ xs) ys h = elim (Bool-cases (le x z)) [
  | inl below ↦ rw below refl
  | inr above ↦ rw above (ap (λ l. z ∷ l) (insert-append le x xs ys h))
]

-- Lists all below one another sort part by part.
pub sort-append {ℓ} :
    {A : Type ℓ} (le : A → A → Bool) (xs ys : List A)
    → All (λ x. All (λ y. le x y ≡ true) ys) xs
    → sort le (xs ++ ys) ≡ sort le xs ++ sort le ys
sort-append le [] ys h = refl
sort-append le (x ∷ xs) ys h =
    ap (insert le x) (sort-append le xs ys h.1)
    ∙ insert-append le x (sort le xs) (sort le ys) (sort-All le _ ys h.0)

insert-ext {ℓ} :
    {A : Type ℓ} (le le' : A → A → Bool) (x : A) (xs : List A)
    → All (λ y. le x y ≡ le' x y) xs
    → insert le x xs ≡ insert le' x xs
insert-ext le le' x [] h = refl
insert-ext le le' x (y ∷ ys) h = ground (arith, h.0, insert-ext le le' x ys h.1)

-- Tests that agree within a list sort it alike.
pub sort-ext {ℓ} :
    {A : Type ℓ} (P : A → Type 0) (le le' : A → A → Bool)
    → ((a b : A) → P a → P b → le a b ≡ le' a b)
    → (xs : List A) → All P xs
    → sort le xs ≡ sort le' xs
sort-ext P le le' same [] h = refl
sort-ext P le le' same (x ∷ xs) h =
    ap (insert le x) (sort-ext P le le' same xs h.1)
    ∙ insert-ext le le' x (sort le' xs) (sort-All le' _ xs (agree xs h.1))
  where
    agree : (ys : List _) → All P ys → All (λ y. le x y ≡ le' x y) ys
    agree [] k = tt
    agree (y ∷ ys) k = (same x y h.0 k.0, agree ys k.1)
