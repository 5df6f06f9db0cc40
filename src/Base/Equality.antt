-- ===== src/Base/Equality.antt =====
-- Equality tests as an interface, and the list operations that rest on one (`contains`, a set
-- kept as a list), with their reading by the library's `Mem` and `Nodup`.
use Prim.Native.Nat.{ℕ}
use mathlib.Core.Path.{◌≡◌, refl, sym, ◌∙◌}
use mathlib.Core.Logic.{◌↔◌, inl, inr}
use mathlib.Core.Logic.Or
use mathlib.Core.Bool.{Bool, true, false, not, ◌&&◌, ◌||◌, false≢true}
use mathlib.Core.List.{List, [], ◌∷◌, Mem, Nodup, Pairwise, mem-cons, not-mem-nil, Nodup-cons}
use mathlib.Core.Option.{Option, none, some}
use native.Mathlib.Omega.{arith}
use zincha_sdk.Base.Tests.{eqb, eqb_iff, Bool-cases}

-- `PartialEq`, whose test decides equality
pub record Eq {κ} (T : Type κ) : Type κ where
  pub test : T → T → Bool
  pub decides : (x y : T) → (test x y ≡ true) ↔ (x ≡ y)

abbrev pub ◌==◌ {κ} : {T : Type κ} ⦃e : Eq T⦄ → T → T → Bool
◌==◌ ⦃e⦄ = e.test

infix 50 ◌==◌
Bool_eq_prop : {a b : Bool} → IsProp (a ≡ b)
Bool_eq_prop {a} {b} = Bool_set a b
  where
    Bool_set : IsSet Bool
    Bool_set = hlevel

module _ {ℓ} {A : Type ℓ} ⦃e : Eq A⦄ where
  pub ==_refl : (a : A) → (a == a) ≡ true
  ==_refl a = (e.decides a a).1 refl

  pub ==_iff : (a b : A) → ((a == b) ≡ true) ↔ (a ≡ b)
  ==_iff a b = e.decides a b

  pub ==_comm : (a b : A) → (a == b) ≡ (b == a)
  ==_comm a b = ground (arith, e.decides a b, e.decides b a)

  abbrev pub list_same : List A → List A → Bool
  list_same [] [] = true
  list_same (a ∷ xs) (b ∷ ys) = a == b && list_same xs ys
  list_same _ _ = false

  pub list_same_iff : (xs ys : List A) → (list_same xs ys ≡ true) ↔ (xs ≡ ys)
  list_same_iff [] [] = (λ _. refl, λ _. refl)
  list_same_iff [] (b ∷ ys) = (λ h. cc, λ h. cc)
  list_same_iff (a ∷ xs) [] = (λ h. cc, λ h. cc)
  list_same_iff (a ∷ xs) (b ∷ ys) = ground (arith, e.decides a b, list_same_iff xs ys)

  abbrev pub option_same : Option A → Option A → Bool
  option_same none none = true
  option_same (some a) (some b) = a == b
  option_same _ _ = false

  pub option_same_iff : (a b : Option A) → (option_same a b ≡ true) ↔ (a ≡ b)
  option_same_iff none none = (λ _. refl, λ _. refl)
  option_same_iff none (some b) = (λ h. cc, λ h. cc)
  option_same_iff (some a) none = (λ h. cc, λ h. cc)
  option_same_iff (some a) (some b) = ground (arith, e.decides a b)

  -- `Vec::contains`, and `HashSet::contains` of a set kept as a list
  abbrev pub contains : List A → A → Bool
  contains [] y = false
  contains (x ∷ rest) y = y == x || contains rest y

  pub contains_iff : (xs : List A) (a : A) → (contains xs a ≡ true) ↔ Mem a xs
  contains_iff [] a = (λ h. cc, λ m. absurd (not-mem-nil m))
  contains_iff (x ∷ xs) a = elim (Bool-cases (a == x)) [
    | inl same ↦ (λ _. mem-cons.1 (Or.inl ((e.decides a x).0 same)), λ _. rw same)
    | inr other ↦ (
      λ h. mem-cons.1 (Or.inr ((contains_iff xs a).0 (rw other at h))),
      λ m.
          Or.elim Bool_eq_prop (mem-cons.0 m)
            (λ s. absurd (false≢true (sym other ∙ (e.decides a x).1 s)))
            (λ r. rw other ((contains_iff xs a).1 r)),
    )
  ]

  pub not-contains_iff : (xs : List A) (a : A) → (contains xs a ≡ false) ↔ (¬ Mem a xs)
  not-contains_iff xs a = elim (Bool-cases (contains xs a)) [
    | inl h ↦ (λ f. cc, λ n. absurd (n ((contains_iff xs a).0 h)))
    | inr h ↦ (λ _ m. false≢true (sym h ∙ (contains_iff xs a).1 m), λ _. h)
  ]

  -- A list with no entry twice, by a test: what a loop over a `HashSet` of seen entries accepts.
  abbrev pub distinct : List A → Bool
  distinct [] = true
  distinct (x ∷ xs) = not (contains xs x) && distinct xs

  pub distinct_iff : (xs : List A) → (distinct xs ≡ true) ↔ Nodup xs
  distinct_iff [] = (λ _. Pairwise.nil, λ _. refl)
  distinct_iff (x ∷ xs) = (
    λ h.
        Nodup-cons.1 ((not-contains_iff xs x).0 (ground arith), (distinct_iff xs).0 (ground arith)),
    λ h.
        let (new, rest) = Nodup-cons.0 h in
        rw ((not-contains_iff xs x).1 new, (distinct_iff xs).1 rest),
  )

instance abbrev pub nat_eq : Eq ℕ
nat_eq = record { test = eqb; decides = eqb_iff }

instance abbrev pub list_eq {ℓ} : {A : Type ℓ} ⦃e : Eq A⦄ → Eq (List A)
list_eq = record { test = list_same; decides = list_same_iff }

instance abbrev pub option_eq {ℓ} : {A : Type ℓ} ⦃e : Eq A⦄ → Eq (Option A)
option_eq = record { test = option_same; decides = option_same_iff }
