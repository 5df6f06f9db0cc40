-- ===== src/Contract/Storage/Hashes.antt =====
-- contract.rs: the hashes of the storage trie never index out of bounds.
use zincha_sdk.Base.{
  ℕ, zero, suc, ◌*◌, ◌/◌, ◌%◌, ◌≡◌, refl, inl, inr, Bool, true, false, some, [], ◌∷◌, arith,
  Bool-cases, length, ◌==◌, nat_eq, list_eq, option_eq,
}
use zincha_sdk.Crypto.Bytes.{Bytes, Hash256}
use zincha_sdk.Crypto.Hash.{Crypto}
use zincha_sdk.Contract.Nibbles.{hex_prefix_encode, pack_pairs, encode_odd}
use zincha_sdk.Contract.Storage.{hash_leaf, hash_extension}

pack_pairs-some :
    (half : ℕ) (xs : Bytes) → length xs ≡ half * 2 → (e : Bytes) × (pack_pairs xs ≡ some e)
unfolding pack_pairs
pack_pairs-some half [] h = ([], refl)
pack_pairs-some half (x ∷ []) h = absurd (omega arith)
pack_pairs-some zero (x ∷ y ∷ xs) h = absurd (omega arith)
pack_pairs-some (suc half) (x ∷ y ∷ xs) h =
    let (e, eq) = pack_pairs-some half xs (omega arith) in rw eq (_, refl)

encode_odd-some :
    (flag : ℕ) (xs : Bytes) → length xs % 2 ≡ 1 → (e : Bytes) × (encode_odd flag xs ≡ some e)
encode_odd-some flag [] h = absurd (omega arith)
encode_odd-some flag (x ∷ xs) h =
    let (e, eq) = pack_pairs-some (length xs / 2) xs (omega arith) in rw eq (_, refl)

pub hex_prefix_encode-some :
    (xs : Bytes) (is_leaf : Bool) → (e : Bytes) × (hex_prefix_encode xs is_leaf ≡ some e)
unfolding hex_prefix_encode
hex_prefix_encode-some xs is_leaf = elim (Bool-cases (length xs % 2 == 0)) [
  | inl even ↦
      let (e, eq) = pack_pairs-some (length xs / 2) xs (ground arith) in rw even (rw eq (_, refl))
  | inr odd ↦ rw odd (encode_odd-some _ xs (ground arith))
]

pub hash_leaf-some :
    (c : Crypto) (key_end value : Bytes) → (h : Hash256) × (hash_leaf c key_end value ≡ some h)
unfolding hash_leaf
hash_leaf-some c key_end value =
    let (encoded, eq) = hex_prefix_encode-some key_end true in rw eq (_, refl)

pub hash_extension-some :
    (c : Crypto) (prefix : Bytes) (child : Hash256)
    → (h : Hash256) × (hash_extension c prefix child ≡ some h)
unfolding hash_extension
hash_extension-some c prefix child =
    let (encoded, eq) = hex_prefix_encode-some prefix false in rw eq (_, refl)
