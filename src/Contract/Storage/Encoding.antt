-- ===== src/Contract/Storage/Encoding.antt =====
-- contract.rs: what a node hashes is read back from its bytes.
use zincha_sdk.Base.{
  ℕ, zero, suc, ◌%◌, ◌^◌, ◌≤◌, ◌<◌, ◌≡◌, refl, sym, ap, ◌∙◌, inl, inr, Bool, Option, none, some,
  List, [], ◌∷◌, ◌++◌, arith, Bool-cases, Option-cases, length, All, ◌==◌, nat_eq, list_eq,
  option_eq,
}
use zincha_sdk.Crypto.Bytes.{Bytes, Hash256}
use zincha_sdk.Crypto.Bytes.Encoding.{++-cancel, be_bytes-injective, length-be_bytes}
use zincha_sdk.Crypto.Hash.{Crypto}
use zincha_sdk.Contract.Nibbles.{pack_pairs, push_front, encode_odd, hex_prefix_encode}
use zincha_sdk.Contract.Storage.{len_bytes, value_bytes, concat_hashes}

pack_pairs-length : (xs : Bytes) {e : Bytes} → pack_pairs xs ≡ some e → length e ≤ length xs
unfolding pack_pairs
pack_pairs-length [] {e = e} h = let none_left : [] ≡ e = cc in rw (← none_left) (omega arith)
pack_pairs-length (x ∷ []) h = cc
pack_pairs-length (x ∷ y ∷ xs) h = elim (Option-cases (pack_pairs xs)) [
  | inl stuck ↦ let broken = rw stuck at h in cc
  | inr (d, eq) ↦
      let whole = rw eq at h in
      let shorter = pack_pairs-length xs eq in ground (arith, whole, shorter)
]

push_front-length :
    (x : ℕ) (o : Option Bytes) (bound : ℕ) {e : Bytes}
    → ((d : Bytes) → o ≡ some d → length d ≤ bound)
    → push_front x o ≡ some e
    → length e ≤ suc bound
push_front-length x none bound k h = cc
push_front-length x (some d) bound k h = ground (arith, k d refl, h)

encode_odd-length :
    (flag : ℕ) (ys : Bytes) {e : Bytes} → encode_odd flag ys ≡ some e → length e ≤ suc (length ys)
encode_odd-length flag [] k = cc
encode_odd-length flag (y ∷ ys) k =
    let short = push_front-length _ (pack_pairs ys) (length ys) (λ d p. pack_pairs-length ys p) k in
    omega (arith, short)

pub hex_prefix_encode-length :
    (xs : Bytes) (b : Bool) {e : Bytes}
    → hex_prefix_encode xs b ≡ some e
    → length e ≤ suc (length xs)
unfolding hex_prefix_encode
hex_prefix_encode-length xs b h = elim (Bool-cases (length xs % 2 == 0)) [
  | inl even ↦
      push_front-length _ (pack_pairs xs) (length xs) (λ d p. pack_pairs-length xs p) (rw even at h)
  | inr odd ↦ encode_odd-length _ xs (rw odd at h)
]

-- A length and the bytes it counts, in front of others, are read back.
pub len_bytes-cancel :
    (a b : Bytes) {us vs : Bytes}
    → length a < 256 ^ 4
    → length b < 256 ^ 4
    → len_bytes a ++ (a ++ us) ≡ len_bytes b ++ (b ++ vs)
    → (a ≡ b) × (us ≡ vs)
len_bytes-cancel a b {us} {vs} p q e =
    let sizes = length-be_bytes 4 (length a) ∙ sym (length-be_bytes 4 (length b)) in
    let (lengths, rest) =
      ++-cancel (len_bytes a) (len_bytes b) {us = a ++ us} {vs = b ++ vs} sizes e in
    ++-cancel a b (be_bytes-injective 4 (length a) (length b) p q lengths) rest

append_nil : (xs : Bytes) → xs ++ [] ≡ xs
append_nil [] = refl
append_nil (x ∷ xs) = ap (λ l. x ∷ l) (append_nil xs)

append_assoc : (xs ys zs : Bytes) → (xs ++ ys) ++ zs ≡ xs ++ (ys ++ zs)
append_assoc [] ys zs = refl
append_assoc (x ∷ xs) ys zs = ap (λ l. x ∷ l) (append_assoc xs ys zs)

pub len_value :
    (v w : Bytes)
    → length v < 256 ^ 4
    → length w < 256 ^ 4
    → len_bytes v ++ v ≡ len_bytes w ++ w
    → v ≡ w
len_value v w p q e =
    let padded : len_bytes v ++ (v ++ []) ≡ len_bytes w ++ (w ++ []) =
      ap (λ l. len_bytes v ++ l) (append_nil v)
      ∙ e
      ∙ ap (λ l. len_bytes w ++ l) (sym (append_nil w)) in
    (len_bytes-cancel v w {us = []} {vs = []} p q padded).0

pub concat_hashes-cancel :
    (c : Crypto) (xs ys : List Hash256) {us vs : Bytes}
    → length xs ≡ length ys
    → All (λ h. length h ≡ 32) xs
    → All (λ h. length h ≡ 32) ys
    → concat_hashes c xs ++ us ≡ concat_hashes c ys ++ vs
    → (xs ≡ ys) × (us ≡ vs)
concat_hashes-cancel c [] [] k h h' e = (refl, e)
concat_hashes-cancel c [] (y ∷ ys) k h h' e = absurd (omega arith)
concat_hashes-cancel c (x ∷ xs) [] k h h' e = absurd (omega arith)
concat_hashes-cancel c (x ∷ xs) (y ∷ ys) {us} {vs} k h h' e =
    let regrouped =
      sym (append_assoc x (concat_hashes c xs) us) ∙ e ∙ append_assoc y (concat_hashes c ys) vs in
    let (head, tail) = ++-cancel x y (h.0 ∙ sym h'.0) regrouped in
    let (rest, behind) = concat_hashes-cancel c xs ys (omega (arith, k)) h.1 h'.1 tail in
    (ap (λ z. z ∷ xs) head ∙ ap (λ zs. y ∷ zs) rest, behind)

pub value_bytes-injective :
    (c : Crypto) (a b : Option Bytes)
    → ((v : Bytes) → a ≡ some v → length v < 256 ^ 4)
    → ((v : Bytes) → b ≡ some v → length v < 256 ^ 4)
    → value_bytes c a ≡ value_bytes c b
    → a ≡ b
value_bytes-injective c none none p q e = refl
value_bytes-injective c none (some v) p q e =
    let apart : zero ≡ suc zero = cc in absurd (omega (arith, apart))
value_bytes-injective c (some v) none p q e =
    let apart : zero ≡ suc zero = cc in absurd (omega (arith, apart))
value_bytes-injective c (some v) (some w) p q e =
    let tails : len_bytes v ++ v ≡ len_bytes w ++ w = cc in
    ap some (len_value v w (p v refl) (q w refl) tails)
