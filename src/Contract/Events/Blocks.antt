-- ===== src/Contract/Events/Blocks.antt =====
-- contract.rs: the blocks that the loop of the accumulator takes off.
use zincha_sdk.Base.{
  ℕ, ◌≤◌, ◌<◌, ◌≡◌, refl, ap, inl, inr, true, false, Option, none, some, List, [], ◌∷◌, ◌++◌, arith,
  Bool-cases, length, All, ◌==◌, nat_eq, list_eq, option_eq,
}
use zincha_sdk.Crypto.Merkle.{and_then}
use zincha_sdk.Contract.Events.{ContractEvent, split_block}

pub split_block-later :
    (b n : ℕ) (xs ys : List ContractEvent)
    → n < b
    → All (λ e. e.block_number ≡ b) ys
    → split_block n (xs ++ ys) ≡ ((split_block n xs).0, (split_block n xs).1 ++ ys)
unfolding split_block
split_block-later b n [] [] h k = refl
split_block-later b n [] (y ∷ ys) h k =
    let other : (y.block_number == n) ≡ false = ground (arith, k.0) in rw other refl
split_block-later b n (x ∷ xs) ys h k =
    let eq = split_block-later b n xs ys h k in
    elim (Bool-cases (x.block_number == n)) [
      | inl same ↦ rw same (ap (λ r. (x ∷ r.0, r.1)) eq)
      | inr other ↦ rw other refl
    ]

pub split_block-whole :
    (b : ℕ) (ys : List ContractEvent)
    → All (λ e. e.block_number ≡ b) ys
    → split_block b ys ≡ (ys, [])
unfolding split_block
split_block-whole b [] k = refl
split_block-whole b (y ∷ ys) k =
    let same : (y.block_number == b) ≡ true = ground (arith, k.0) in
    rw same (ap (λ r. (y ∷ r.0, r.1)) (split_block-whole b ys k.1))

pub split_block-length : (n : ℕ) (xs : List ContractEvent) → length (split_block n xs).1 ≤ length xs
unfolding split_block
split_block-length n [] = omega arith
split_block-length n (x ∷ xs) = elim (Bool-cases (x.block_number == n)) [
  | inl same ↦ rw same (omega (arith, split_block-length n xs))
  | inr other ↦ rw other (omega arith)
]

pub split_block-All :
    (P : ContractEvent → Type 0) (n : ℕ) (xs : List ContractEvent)
    → All P xs
    → All P (split_block n xs).1
unfolding split_block
split_block-All P n [] h = tt
split_block-All P n (x ∷ xs) h = elim (Bool-cases (x.block_number == n)) [
  | inl same ↦ rw same (split_block-All P n xs h.1)
  | inr other ↦ rw other h
]

pub and_then_assoc {ℓ} :
    {A : Type ℓ} (o : Option A) (f g : A → Option A)
    → and_then (and_then o f) g ≡ and_then o (λ a. and_then (f a) g)
and_then_assoc none f g = refl
and_then_assoc (some a) f g = refl

pub and_then-ext {ℓ} :
    {A : Type ℓ} (o : Option A) (f g : A → Option A)
    → ((a : A) → f a ≡ g a)
    → and_then o f ≡ and_then o g
and_then-ext none f g h = refl
and_then-ext (some a) f g h = h a

pub and_then-some {ℓ} : {A : Type ℓ} (o : Option A) → and_then o (λ a. some a) ≡ o
and_then-some none = refl
and_then-some (some a) = refl
