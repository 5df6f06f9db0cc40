-- ===== src/Contract/Storage/Views.antt =====
-- contract.rs: what the entries of a node hold, by the entries below it.
use zincha_sdk.Base.{
  ℕ, zero, suc, ◌+◌, ◌^◌, ◌<◌, ◌≡◌, refl, sym, ap, ◌∙◌, ◌⊎◌, inl, inr, true, false, Option, none,
  some, List, [], ◌∷◌, ◌++◌, map, arith, if◌then◌else◌, eqb_iff, Bool-cases, length, get_elem?,
  take, drop, replicate, All, length-take, length-drop, ◌==◌, nat_eq, list_eq, option_eq,
}
use mathlib.Core.Path.{subst}
use zincha_sdk.Crypto.Bytes.{Bytes, zero_hash}
use zincha_sdk.Contract.Storage.{Entry, split_value}
use zincha_sdk.Contract.Storage.HexPrefix.{AreNibbles}
use zincha_sdk.Contract.Storage.Order.{drop-drop}
use zincha_sdk.Contract.Storage.Shared.{IsKey, Shares}
use zincha_sdk.Contract.Storage.Groups.{view}
use zincha_sdk.Contract.Storage.Children.{IsSized}

All-take : (n : ℕ) (xs : Bytes) → AreNibbles xs → AreNibbles (take n xs)
All-take zero xs h = tt
All-take (suc n) [] h = tt
All-take (suc n) (x ∷ xs) h = (h.0, All-take n xs h.1)

pub All-drop : (n : ℕ) (xs : Bytes) → AreNibbles xs → AreNibbles (drop n xs)
All-drop zero xs h = h
All-drop (suc n) [] h = tt
All-drop (suc n) (x ∷ xs) h = All-drop n xs h.1

take-drop : (n : ℕ) (xs : Bytes) → take n xs ++ drop n xs ≡ xs
take-drop zero xs = refl
take-drop (suc n) [] = refl
take-drop (suc n) (x ∷ xs) = ap (λ l. x ∷ l) (take-drop n xs)

-- Below what they share, entries hold the same as above, behind the shared prefix.
pub view-shared :
    (offset s : ℕ) (first : Bytes) (es : List Entry)
    → All (Shares s offset first) es
    → view offset es ≡ map (λ e. (take s first ++ e.0, e.1)) (view (offset + s) es)
view-shared offset s first [] h = refl
view-shared offset s first (e ∷ es) h =
    let key = drop offset e.0 in
    let split : key ≡ take s first ++ drop (offset + s) e.0 =
      sym (take-drop s key)
      ∙ ap (λ p. p ++ drop s key) h.0.0
      ∙ ap (λ q. take s first ++ q) (drop-drop offset s e.0 {k = offset + s} refl) in
    ap (λ k. (k, e.1) ∷ view offset es) split
    ∙ ap (λ l. (take s first ++ drop (offset + s) e.0, e.1) ∷ l) (view-shared offset s first es h.1)

-- the shared prefix is part of the first key
pub prefix-fits :
    (fuel offset s : ℕ) (first : Bytes) (e : Entry)
    → IsKey fuel offset e
    → IsSized e
    → Shares s offset first e
    → AreNibbles (take s first) × (suc (length (take s first)) < 256 ^ 4)
prefix-fits fuel offset s first e key z h = (
  subst AreNibbles h.0 (All-take s (drop offset e.0) (All-drop offset e.0 key.2)),
  subst (λ p. suc (length p) < 256 ^ 4) h.0
      (omega (arith, z.0, length-take s (drop offset e.0), length-drop offset e.0)),
)

-- The value of a branch, and the entries below it, keep the sizes.
pub split_value-IsSized :
    (offset : ℕ) (es : List Entry)
    → All IsSized es
    → ((v : Bytes) → (split_value offset es).0 ≡ some v → length v < 256 ^ 4)
      × All IsSized (split_value offset es).1
unfolding split_value
split_value-IsSized offset [] z = (λ v h. cc, tt)
split_value-IsSized offset ((key, value) ∷ es) z = elim (Bool-cases (length key == offset)) [
  | inl whole ↦ rw whole (λ v h. ground (arith, h, z.0.1), z.1)
  | inr more ↦ rw more (λ v h. cc, z)
]

abbrev with_value : Option Bytes → List Entry → List Entry
with_value none es = es
with_value (some v) es = ([], v) ∷ es

abbrev whole_view : ℕ → Option Bytes × List Entry → List Entry
whole_view offset (v, es) = with_value v (view offset es)

drop-whole : (n : ℕ) (xs : Bytes) → length xs ≡ n → drop n xs ≡ []
drop-whole zero [] h = refl
drop-whole zero (x ∷ xs) h = absurd (omega arith)
drop-whole (suc n) [] h = refl
drop-whole (suc n) (x ∷ xs) h = drop-whole n xs (omega arith)

split_value-eq :
    (offset : ℕ) (key value : Bytes) (es : List Entry)
    → split_value offset ((key, value) ∷ es)
      ≡ (if length key == offset then (some value, es) else (none, (key, value) ∷ es))
unfolding split_value
split_value-eq offset key value es = refl

-- A branch holds its value and the entries below it.
split_value-view :
    (offset : ℕ) (es : List Entry)
    → view offset es ≡ with_value (split_value offset es).0 (view offset (split_value offset es).1)
unfolding split_value
split_value-view offset [] = refl
split_value-view offset ((key, value) ∷ es) =
    split (Bool-cases (length key == offset))
    ∙ sym (ap (whole_view offset) (split_value-eq offset key value es))
  where
    split :
        (((length key == offset) ≡ true) ⊎ ((length key == offset) ≡ false))
        → view offset ((key, value) ∷ es)
          ≡ whole_view offset
              (if length key == offset then (some value, es) else (none, (key, value) ∷ es))
    split (inl whole) = rw whole (
        ap (λ d. (d, value) ∷ view offset es)
          (drop-whole offset key ((eqb_iff (length key) offset).0 whole)))
    split (inr more) = rw more refl

pub view-split :
    (offset offset' : ℕ) (es es' : List Entry)
    → (split_value offset es).0 ≡ (split_value offset' es').0
    → view offset (split_value offset es).1 ≡ view offset' (split_value offset' es').1
    → view offset es ≡ view offset' es'
view-split offset offset' es es' h k =
    split_value-view offset es
    ∙ ap (λ v. with_value v (view offset (split_value offset es).1)) h
    ∙ ap (with_value (split_value offset' es').0) k
    ∙ sym (split_value-view offset' es')

pub zeros-hashes : (n : ℕ) → All (λ x. length x ≡ 32) (replicate n zero_hash)
zeros-hashes zero = tt
zeros-hashes (suc n) = (refl, zeros-hashes n)

pub zeros-fresh :
    (n i : ℕ)
    → i < length (replicate n zero_hash)
    → get_elem? (replicate n zero_hash) i ≡ some zero_hash
zeros-fresh zero i h = absurd (omega arith)
zeros-fresh (suc n) zero h = refl
zeros-fresh (suc n) (suc i) h = zeros-fresh n i (omega arith)
