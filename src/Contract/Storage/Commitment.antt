-- ===== src/Contract/Storage/Commitment.antt =====
-- contract.rs: two maps of one storage root are the same map, unless the hash function breaks.
use zincha_sdk.Base.{
  suc, ◌*◌, ◌/◌, ◌%◌, ◌^◌, ◌<◌, ◌≡◌, refl, sym, ap, ◌∙◌, ◌⊎◌, inl, inr, some, [], ◌∷◌, arith,
  length, All, nat_eq, list_eq, option_eq,
}
use zincha_sdk.Crypto.Bytes.{Bytes, zero_hash}
use zincha_sdk.Crypto.Hash.{Crypto}
use zincha_sdk.Contract.Nibbles.{bytes_to_nibbles}
use zincha_sdk.Contract.Storage.{StorageMap, nibble_entries, longest, compute_contract_storage_root}
use zincha_sdk.Contract.Storage.Order.{IsStorageMap}
use zincha_sdk.Contract.Storage.Node.{subtree_root-Node}
use zincha_sdk.Contract.Storage.Groups.{view}
use zincha_sdk.Contract.Storage.Children.{Break, IsSized, or_break}
use zincha_sdk.Contract.Storage.Binding.{subtree_root-binds}
use zincha_sdk.Contract.Storage.Terminates.{storage_root-terminates, entries-IsReady, some_entry}

-- Keys below 2^30 bytes and values below 2^32, within the limits that the code sets on both.
abbrev pub AreSized : StorageMap → Type 0
AreSized storage = All (λ e. (length e.0 < 2 ^ 30) × (length e.1 < 2 ^ 32)) storage

bytes_to_nibbles-length : (bytes : Bytes) → length (bytes_to_nibbles bytes) ≡ 2 * length bytes
unfolding bytes_to_nibbles
bytes_to_nibbles-length [] = refl
bytes_to_nibbles-length (b ∷ bytes) = omega (arith, bytes_to_nibbles-length bytes)

bytes_to_nibbles-injective : (a b : Bytes) → bytes_to_nibbles a ≡ bytes_to_nibbles b → a ≡ b
unfolding bytes_to_nibbles
bytes_to_nibbles-injective [] [] h = refl
bytes_to_nibbles-injective [] (y ∷ b) h = cc
bytes_to_nibbles-injective (x ∷ a) [] h = cc
bytes_to_nibbles-injective (x ∷ a) (y ∷ b) h =
    let upper : x / 16 ≡ y / 16 = cc in
    let lower : x % 16 ≡ y % 16 = cc in
    let rest : bytes_to_nibbles a ≡ bytes_to_nibbles b = cc in
    let head : x ≡ y = omega (arith, upper, lower) in
    ap (λ z. z ∷ a) head ∙ ap (λ l. y ∷ l) (bytes_to_nibbles-injective a b rest)

nibble_entries-IsSized :
    (storage : StorageMap) → AreSized storage → All IsSized (nibble_entries storage)
unfolding nibble_entries
nibble_entries-IsSized [] z = tt
nibble_entries-IsSized (e ∷ es) z = (
  (omega (arith, z.0.0, bytes_to_nibbles-length e.0), omega (arith, z.0.1)),
  nibble_entries-IsSized es z.1,
)

nibble_entries-injective :
    (a b : StorageMap) → view 0 (nibble_entries a) ≡ view 0 (nibble_entries b) → a ≡ b
unfolding nibble_entries
nibble_entries-injective [] [] h = refl
nibble_entries-injective [] (e ∷ b) h = cc
nibble_entries-injective (e ∷ a) [] h = cc
nibble_entries-injective ((k, v) ∷ a) ((k', v') ∷ b) h =
    let keys : bytes_to_nibbles k ≡ bytes_to_nibbles k' = cc in
    let values : v ≡ v' = cc in
    let rest : view 0 (nibble_entries a) ≡ view 0 (nibble_entries b) = cc in
    ap (λ q. (q, v) ∷ a) (bytes_to_nibbles-injective k k' keys)
    ∙ ap (λ w. (k', w) ∷ a) values
    ∙ ap (λ l. (k', v') ∷ l) (nibble_entries-injective a b rest)

-- The root of a map with entries is not the one of no entries.
root-of_entries :
    (c : Crypto) (e : Bytes × Bytes) (es : StorageMap)
    → IsStorageMap (e ∷ es)
    → compute_contract_storage_root c (e ∷ es) ≡ some zero_hash
    → Break c
unfolding compute_contract_storage_root
root-of_entries c e es h eq =
    let entries = nibble_entries (e ∷ es) in
    let (m, node, hashed) =
      subtree_root-Node c (longest entries) 0 entries (some_entry e es) (entries-IsReady e es h)
        eq in
    inr (m, sym hashed)

-- Storage maps of one root are one map, or they exhibit two byte strings of one hash or one of the zero
-- hash: the root that a contract's record commits to determines the whole storage.
pub storage_root-binds :
    (c : Crypto) (a b : StorageMap)
    → IsStorageMap a
    → IsStorageMap b
    → AreSized a
    → AreSized b
    → compute_contract_storage_root c a ≡ compute_contract_storage_root c b
    → (a ≡ b) ⊎ Break c
unfolding compute_contract_storage_root
storage_root-binds c [] [] h h' z z' e = inl refl
storage_root-binds c [] (y ∷ ys) h h' z z' e = inr (root-of_entries c y ys h' (sym e))
storage_root-binds c (x ∷ xs) [] h h' z z' e = inr (root-of_entries c x xs h e)
storage_root-binds c (x ∷ xs) (y ∷ ys) h h' z z' e =
    let a = nibble_entries (x ∷ xs) in
    let b = nibble_entries (y ∷ ys) in
    let (root, eq) = storage_root-terminates c (x ∷ xs) h in
    or_break c
      (subtree_root-binds c (suc (longest a)) 0 (suc (longest b)) 0 a b root (some_entry x xs)
        (some_entry y ys) (entries-IsReady x xs h) (entries-IsReady y ys h')
        (nibble_entries-IsSized (x ∷ xs) z) (nibble_entries-IsSized (y ∷ ys) z') eq (sym e ∙ eq))
      (λ same. inl (nibble_entries-injective (x ∷ xs) (y ∷ ys) same))
