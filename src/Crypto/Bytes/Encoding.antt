-- ===== src/Crypto/Bytes/Encoding.antt =====
-- The bytes of a number determine it, and a list of known length can be split off.
use zincha_sdk.Base.{
  ℕ, zero, suc, ◌/◌, ◌%◌, ◌^◌, ◌<◌, ◌≡◌, refl, sym, ◌∙◌, [], ◌∷◌, ◌++◌, arith, length,
  length-append, IsU64, nat_eq, list_eq, option_eq,
}
use zincha_sdk.Crypto.Bytes.{Bytes, be_bytes, le_bytes, to_be_bytes}

-- Two lists of one length in front of equal lists are equal, and so is what follows.
pub ++-cancel :
    (xs ys : Bytes) {us vs : Bytes}
    → length xs ≡ length ys
    → xs ++ us ≡ ys ++ vs
    → (xs ≡ ys) × (us ≡ vs)
++-cancel [] [] k e = (refl, e)
++-cancel [] (y ∷ ys) k e = absurd (omega arith)
++-cancel (x ∷ xs) [] k e = absurd (omega arith)
++-cancel (x ∷ xs) (y ∷ ys) {us} {vs} k e =
    let head : x ≡ y = cc in
    let tail : xs ++ us ≡ ys ++ vs = cc in
    let (same, rest) = ++-cancel xs ys {us = us} {vs = vs} (omega arith) tail in
    (rw (head, same) refl, rest)

pub length-be_bytes : (n x : ℕ) → length (be_bytes n x) ≡ n
unfolding be_bytes
length-be_bytes zero x = refl
length-be_bytes (suc n) x =
    omega (arith, length-append (be_bytes n (x / 256)) (x % 256 ∷ []), length-be_bytes n (x / 256))

pub be_bytes-injective :
    (n x y : ℕ) → x < 256 ^ n → y < 256 ^ n → be_bytes n x ≡ be_bytes n y → x ≡ y
unfolding be_bytes
be_bytes-injective zero x y a b e = omega arith
be_bytes-injective (suc n) x y a b e =
    let sizes = length-be_bytes n (x / 256) ∙ sym (length-be_bytes n (y / 256)) in
    let (high, low) = ++-cancel (be_bytes n (x / 256)) (be_bytes n (y / 256)) sizes e in
    let quotients = be_bytes-injective n (x / 256) (y / 256) (omega arith) (omega arith) high in
    let digit : x % 256 ≡ y % 256 = cc in omega arith

-- The next `n` bytes of an encoding are one number, if they are equal.
pub be_bytes-cancel :
    (x y : ℕ) {us vs : Bytes}
    → IsU64 x
    → IsU64 y
    → to_be_bytes x ++ us ≡ to_be_bytes y ++ vs
    → (x ≡ y) × (us ≡ vs)
be_bytes-cancel x y {us} {vs} a b e =
    let sizes = length-be_bytes 8 x ∙ sym (length-be_bytes 8 y) in
    let (same, rest) = ++-cancel (be_bytes 8 x) (be_bytes 8 y) {us = us} {vs = vs} sizes e in
    (be_bytes-injective 8 x y (omega arith) (omega arith) same, rest)

pub length-le_bytes : (n x : ℕ) → length (le_bytes n x) ≡ n
unfolding le_bytes
length-le_bytes zero x = refl
length-le_bytes (suc n) x = omega (arith, length-le_bytes n (x / 256))

pub le_bytes-cancel :
    (n x y : ℕ) {us vs : Bytes}
    → x < 256 ^ n
    → y < 256 ^ n
    → le_bytes n x ++ us ≡ le_bytes n y ++ vs
    → (x ≡ y) × (us ≡ vs)
unfolding le_bytes
le_bytes-cancel zero x y {us} {vs} a b e = (omega arith, e)
le_bytes-cancel (suc n) x y {us} {vs} a b e =
    let digit : x % 256 ≡ y % 256 = cc in
    let tail : le_bytes n (x / 256) ++ us ≡ le_bytes n (y / 256) ++ vs = cc in
    let (quotients, rest) =
      le_bytes-cancel n (x / 256) (y / 256) {us = us} {vs = vs} (omega arith) (omega arith) tail in
    (omega arith, rest)
