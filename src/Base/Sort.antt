-- ===== src/Base/Sort.antt =====
-- Insertion sort by a Boolean order: `sort_by` of the standard library, which is stable. Where the
-- order is total, transitive and antisymmetric, the result depends on the multiset alone.
pub mod Parts
use mathlib.Core.Logic.{∥∥₁_elim, inl, inr}
use mathlib.Core.List.{Perm, Permᴰ, is_set}
use mathlib.Core.List.Perm
use mathlib.Core.Path.{◌≡◌, refl, ap, ◌∙◌}
use mathlib.Core.Bool.{Bool, true, false}
use mathlib.Core.List.{List, [], ◌∷◌}
use native.Mathlib.Omega.{arith}
use zincha_sdk.Base.Tests.{if◌then◌else◌, Bool-cases}

module _ {ℓ} {A : Type ℓ} (le : A → A → Bool) where
  abbrev pub insert : A → List A → List A
  insert x [] = x ∷ []
  insert x (y ∷ ys) = if le x y then x ∷ y ∷ ys else y ∷ insert x ys

  abbrev pub sort : List A → List A
  sort [] = []
  sort (x ∷ xs) = insert x (sort xs)

  -- Every entry is below all that follow it.
  abbrev pub Below : A → List A → Type 0
  Below x [] = Unit
  Below x (y ∷ ys) = (le x y ≡ true) × Below x ys

  abbrev pub IsSorted : List A → Type 0
  IsSorted [] = Unit
  IsSorted (x ∷ xs) = Below x xs × IsSorted xs

-- The laws of a linear order, for a Boolean test.
pub record IsLinear {ℓ} {A : Type ℓ} (le : A → A → Bool) : Type ℓ where
  pub total : (a b : A) → le a b ≡ false → le b a ≡ true
  pub trans : (a b c : A) → le a b ≡ true → le b c ≡ true → le a c ≡ true
  pub antisym : (a b : A) → le a b ≡ true → le b a ≡ true → a ≡ b

module _ {ℓ} {A : Type ℓ} (le : A → A → Bool) (o : IsLinear le) where
  insert-perm : (x : A) (ys : List A) → Perm (insert le x ys) (x ∷ ys)
  insert-perm x [] = Perm.refl (x ∷ [])
  insert-perm x (y ∷ ys) = elim (Bool-cases (le x y)) [
    | inl h ↦ rw h (Perm.refl (x ∷ y ∷ ys))
    | inr h ↦ rw h (Perm.trans (Perm.cons y (insert-perm x ys)) (Perm.swap x y ys))
  ]

  pub sort-perm : (xs : List A) → Perm (sort le xs) xs
  sort-perm [] = Perm.refl []
  sort-perm (x ∷ xs) = Perm.trans (insert-perm x (sort le xs)) (Perm.cons x (sort-perm xs))

  Below-trans : (x y : A) (ys : List A) → le x y ≡ true → Below le y ys → Below le x ys
  Below-trans x y [] h b = tt
  Below-trans x y (z ∷ ys) h b = (o.trans x y z h b.0, Below-trans x y ys h b.1)

  Below-insert :
      (x y : A) (ys : List A) → le y x ≡ true → Below le y ys → Below le y (insert le x ys)
  Below-insert x y [] h b = (h, tt)
  Below-insert x y (z ∷ ys) h b = ground (arith, Below-insert x y ys h b.1)

  insert-IsSorted : (x : A) (ys : List A) → IsSorted le ys → IsSorted le (insert le x ys)
  insert-IsSorted x [] s = (tt, tt)
  insert-IsSorted x (y ∷ ys) s = elim (Bool-cases (le x y)) [
    | inl h ↦ rw h ((h, Below-trans x y ys h s.0), s)
    | inr h ↦ rw h (Below-insert x y ys (o.total x y h) s.0, insert-IsSorted x ys s.1)
  ]

  pub sort-IsSorted : (xs : List A) → IsSorted le (sort le xs)
  sort-IsSorted [] = tt
  sort-IsSorted (x ∷ xs) = insert-IsSorted x (sort le xs) (sort-IsSorted xs)

  insert_comm : (x y : A) (l : List A) → insert le x (insert le y l) ≡ insert le y (insert le x l)
  insert_comm x y [] = ground (arith, o.total x y, o.antisym x y)
  insert_comm x y (z ∷ l) = ground (
    arith,
    insert_comm x y l,
    o.total x y,
    o.antisym x y,
    o.trans x y z,
    o.trans y x z,
    o.total x z,
    o.total y z,
    o.trans x z y,
    o.trans y z x,
  )

  Permᴰ-sort : {xs ys : List A} → Permᴰ xs ys → sort le xs ≡ sort le ys
  Permᴰ-sort Permᴰ.nil = refl
  Permᴰ-sort (Permᴰ.cons {a = x} e p) = rw (← e) (ap (insert le x) (Permᴰ-sort p))
  Permᴰ-sort (Permᴰ.swap {a = x} {b = y} {l = l} e f) = rw (← e, ← f) (insert_comm x y (sort le l))
  Permᴰ-sort (Permᴰ.trans p q) = Permᴰ-sort p ∙ Permᴰ-sort q

  -- Lists of the same entries sort to the same list.
  pub sort-eq_of_perm : IsSet A → {xs ys : List A} → Perm xs ys → sort le xs ≡ sort le ys
  sort-eq_of_perm set p = ∥∥₁_elim p (is_set set _ _) Permᴰ-sort
