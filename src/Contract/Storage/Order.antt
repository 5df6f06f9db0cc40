-- ===== src/Contract/Storage/Order.antt =====
-- contract.rs: the keys of a storage map in their order, as bytes and as half bytes.
use zincha_sdk.Base.{
  ℕ, zero, suc, ◌+◌, ◌≤◌, ◌<◌, ◌≡◌, refl, sym, ◌∙◌, Bool, true, false, some, List, [], ◌∷◌, map,
  arith, ltb, eqb, if◌then◌else◌, length, get_elem?, take, drop, All, nat_eq, list_eq, option_eq,
}
use zincha_sdk.Crypto.Bytes.{Bytes}
use zincha_sdk.Contract.Nibbles.{bytes_to_nibbles, common_prefix_length}
use zincha_sdk.Contract.Storage.{StorageMap}

-- the strict lexicographic order
abbrev pub lex_lt : Bytes → Bytes → Bool
lex_lt a [] = false
lex_lt [] (y ∷ b) = true
lex_lt (x ∷ a) (y ∷ b) = if ltb x y then true else if eqb x y then lex_lt a b else false

-- Every key is a byte string, and each is below all that follow it.
abbrev pub IsAscending : List Bytes → Type 0
IsAscending [] = Unit
IsAscending (k ∷ ks) = All (λ k'. lex_lt k k' ≡ true) ks × IsAscending ks

abbrev pub IsStorageMap : StorageMap → Type 0
IsStorageMap storage =
    All (λ entry. All (λ byte. byte < 256) entry.0) storage
    × IsAscending (map (λ entry. entry.0) storage)

pub All-map {ℓ} :
    {A : Type ℓ} {P Q : A → Type 0} (xs : List A) → ((x : A) → P x → Q x) → All P xs → All Q xs
All-map [] f h = tt
All-map (x ∷ xs) f h = (f x h.0, All-map xs f h.1)

pub All-get :
    (P : ℕ → Type 0) (xs : Bytes) (i : ℕ) {x : ℕ} → All P xs → get_elem? xs i ≡ some x → P x
All-get P [] i h e = cc
All-get P (x ∷ xs) zero {x = y} h e = let same : x ≡ y = cc in rw (← same) h.0
All-get P (x ∷ xs) (suc i) h e = All-get P xs i h.1 e

pub take-common : (s : ℕ) (a b : Bytes) → s ≤ common_prefix_length a b → take s a ≡ take s b
unfolding common_prefix_length
take-common zero a b h = refl
take-common (suc s) [] b h = absurd (omega arith)
take-common (suc s) (x ∷ a) [] h = absurd (omega arith)
take-common (suc s) (x ∷ a) (y ∷ b) h = ground (arith, take-common s a b)

pub common_prefix_length-le : (a b : Bytes) → common_prefix_length a b ≤ length b
unfolding common_prefix_length
common_prefix_length-le [] b = omega arith
common_prefix_length-le (x ∷ a) [] = omega arith
common_prefix_length-le (x ∷ a) (y ∷ b) = ground (arith, common_prefix_length-le a b)

drop-nil : (n : ℕ) → drop {A = ℕ} n [] ≡ []
drop-nil zero = refl
drop-nil (suc n) = refl

pub drop-drop : (m n : ℕ) (xs : Bytes) {k : ℕ} → k ≡ m + n → drop n (drop m xs) ≡ drop k xs
drop-drop zero n xs {k = k} e = let same : k ≡ n = omega arith in rw same refl
drop-drop (suc m) n [] {k = k} e = drop-nil n ∙ sym (drop-nil k)
drop-drop (suc m) n (x ∷ xs) {k = zero} e = absurd (omega arith)
drop-drop (suc m) n (x ∷ xs) {k = suc k} e = drop-drop m n xs (omega arith)

pub lex_lt-drop :
    (s : ℕ) (a b : Bytes)
    → take s a ≡ take s b
    → s ≤ length a
    → s ≤ length b
    → lex_lt a b ≡ true
    → lex_lt (drop s a) (drop s b) ≡ true
lex_lt-drop zero a b e p q h = h
lex_lt-drop (suc s) [] b e p q h = absurd (omega arith)
lex_lt-drop (suc s) (x ∷ a) [] e p q h = absurd (omega arith)
lex_lt-drop (suc s) (x ∷ a) (y ∷ b) e p q h =
    let same : x ≡ y = cc in lex_lt-drop s a b (cc) (ground arith) (ground arith) (ground arith)

pub lex_lt-length : (a b : Bytes) → lex_lt a b ≡ true → 0 < length b
lex_lt-length a [] h = cc
lex_lt-length a (y ∷ b) h = omega arith

pub drop-get :
    (i : ℕ) (xs : Bytes) {x : ℕ} → get_elem? xs i ≡ some x → drop i xs ≡ x ∷ drop (suc i) xs
drop-get i [] e = cc
drop-get zero (x ∷ xs) e = cc
drop-get (suc i) (x ∷ xs) e = drop-get i xs e

pub bytes_to_nibbles-small :
    (bytes : Bytes) → All (λ byte. byte < 256) bytes → All (λ n. n < 16) (bytes_to_nibbles bytes)
unfolding bytes_to_nibbles
bytes_to_nibbles-small [] h = tt
bytes_to_nibbles-small (b ∷ bs) h =
    (omega (arith, h.0), (omega arith, bytes_to_nibbles-small bs h.1))

pub lex_lt-bytes_to_nibbles :
    (a b : Bytes) → lex_lt a b ≡ true → lex_lt (bytes_to_nibbles a) (bytes_to_nibbles b) ≡ true
unfolding bytes_to_nibbles
lex_lt-bytes_to_nibbles a [] h = cc
lex_lt-bytes_to_nibbles [] (y ∷ b) h = refl
lex_lt-bytes_to_nibbles (x ∷ a) (y ∷ b) h = ground (arith, lex_lt-bytes_to_nibbles a b)
