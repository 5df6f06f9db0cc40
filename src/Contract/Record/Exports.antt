-- ===== src/Contract/Record/Exports.antt =====
-- contract.rs: the export metadata that `new` makes, and the functions that it lets be called.
use zincha_sdk.Base.{
  ◌≤◌, ◌>>◌, ◌≡◌, refl, sym, ap, ◌∙◌, inl, inr, Bool, false, not, ◌&&◌, ◌||◌, Option, some, List,
  [], ◌∷◌, arith, ltb, Bool-cases, length, All, ◌==◌, nat_eq, ==_iff, ==_refl, contains, list_eq,
  option_eq, Result, ok, ◌>>=◌,
}
use zincha_sdk.Base.Sort.{insert, sort, Below, IsSorted, IsLinear, sort-IsSorted}
use zincha_sdk.Base.Sort.Parts.{sort-All, sort-length}
use zincha_sdk.Crypto.Bytes.{Bytes, Text, Hash256, bytes_le, is_empty}
use zincha_sdk.Crypto.Bytes.Order.{bytes_le-total, bytes_le_trans, bytes_le-antisym}
use zincha_sdk.Crypto.Hash.{Crypto, hash_bytes}
use zincha_sdk.Contract.Search.{binary_search-contains}
use zincha_sdk.Contract.Record.{
  ContractExportMetadata, ContractError, hash_callable_exports, check_exports, any_unsorted, dedup,
  metadata_of, hashed, new_metadata, validate_for_bytecode_hash, callable,
}

insert-contains :
    (x : Text) (xs : List Text) (y : Text)
    → contains (insert bytes_le x xs) y ≡ (y == x || contains xs y)
insert-contains x [] y = ground arith
insert-contains x (z ∷ xs) y = ground (arith, insert-contains x xs y)

sort-contains : (xs : List Text) (y : Text) → contains (sort bytes_le xs) y ≡ contains xs y
sort-contains [] y = refl
sort-contains (x ∷ xs) y =
    insert-contains x (sort bytes_le xs) y ∙ ap (λ t. y == x || t) (sort-contains xs y)

dedup-contains : (xs : List Text) (y : Text) → contains (dedup xs) y ≡ contains xs y
unfolding dedup
dedup-contains [] y = refl
dedup-contains (x ∷ []) y = refl
dedup-contains (x ∷ z ∷ xs) y = ground (arith, dedup-contains (z ∷ xs) y, ==_iff x z)

bytes_le-IsLinear : IsLinear bytes_le
bytes_le-IsLinear = record {
  total = bytes_le-total;
  trans = bytes_le_trans;
  antisym = bytes_le-antisym;
}

Below-dedup : (y : Text) (xs : List Text) → Below bytes_le y xs → Below bytes_le y (dedup xs)
unfolding dedup
Below-dedup y [] h = h
Below-dedup y (x ∷ []) h = h
Below-dedup y (x ∷ z ∷ xs) h = ground (arith, Below-dedup y (z ∷ xs) h.1)

dedup-IsSorted : (xs : List Text) → IsSorted bytes_le xs → IsSorted bytes_le (dedup xs)
unfolding dedup
dedup-IsSorted [] h = h
dedup-IsSorted (x ∷ []) h = h
dedup-IsSorted (x ∷ z ∷ xs) h = elim (Bool-cases (x == z)) [
  | inl same ↦ rw same (dedup-IsSorted (z ∷ xs) h.1)
  | inr other ↦ rw other (Below-dedup x (z ∷ xs) h.0, dedup-IsSorted (z ∷ xs) h.1)
]

-- the first name stays the first
dedup-head : (x : Text) (xs : List Text) → (rest : List Text) × (dedup (x ∷ xs) ≡ x ∷ rest)
unfolding dedup
dedup-head x [] = ([], refl)
dedup-head x (z ∷ xs) = elim (Bool-cases (x == z)) [
  | inl same ↦
      let (rest, eq) = dedup-head z xs in
      let first = (==_iff x z).0 same in rw same (rest, eq ∙ ap (λ h. h ∷ rest) (sym first))
  | inr other ↦ rw other (dedup (z ∷ xs), refl)
]

-- Sorted names with repetitions dropped pass the test for strict order.
any_unsorted-dedup : (xs : List Text) → IsSorted bytes_le xs → any_unsorted (dedup xs) ≡ false
unfolding dedup any_unsorted
any_unsorted-dedup [] h = refl
any_unsorted-dedup (x ∷ []) h = refl
any_unsorted-dedup (x ∷ z ∷ xs) h = elim (Bool-cases (x == z)) [
  | inl same ↦ rw same (any_unsorted-dedup (z ∷ xs) h.1)
  | inr other ↦
      let (rest, eq) = dedup-head z xs in
      let later : any_unsorted (z ∷ rest) ≡ false =
        ap any_unsorted (sym eq) ∙ any_unsorted-dedup (z ∷ xs) h.1 in
      let greater : bytes_le z x ≡ false =
        ground (arith, bytes_le-antisym x z, h.0.0, ==_iff x z, other) in
      rw other (rw eq (rw greater later))
]

dedup-length : (xs : List Text) → length (dedup xs) ≤ length xs
unfolding dedup
dedup-length [] = omega arith
dedup-length (x ∷ []) = omega arith
dedup-length (x ∷ z ∷ xs) = ground (arith, dedup-length (z ∷ xs))

dedup-All : (P : Text → Type 0) (xs : List Text) → All P xs → All P (dedup xs)
unfolding dedup
dedup-All P [] h = h
dedup-All P (x ∷ []) h = h
dedup-All P (x ∷ z ∷ xs) h = elim (Bool-cases (x == z)) [
  | inl same ↦ rw same (dedup-All P (z ∷ xs) h.1)
  | inr other ↦ rw other (h.0, dedup-All P (z ∷ xs) h.1)
]

-- A name that can be exported: 1 to 128 bytes.
abbrev pub IsName : Text → Type 0
IsName name = (1 ≤ length name) × (length name ≤ 128)

is_empty-name : (name : Text) → 1 ≤ length name → is_empty name ≡ false
is_empty-name [] h = absurd (omega arith)
is_empty-name (x ∷ name) h = refl

check_exports-ok : (names : List Text) → All IsName names → check_exports names ≡ ok tt
unfolding check_exports
check_exports-ok [] h = refl
check_exports-ok (name ∷ names) h =
    let short : ltb 128 (length name) ≡ false = ground (arith, h.0.1) in
    rw (is_empty-name name h.0.0, short) (check_exports-ok names h.1)

-- Up to 256 proper names in strict order are accepted with their hash.
validates :
    (c : Crypto) (serialize : List Text → Option Bytes) (bytecode_hash exports_hash : Hash256)
    (has_memory : Bool) (names : List Text)
    → All IsName names
    → length names ≤ 256
    → any_unsorted names ≡ false
    → hash_callable_exports c serialize names ≡ ok exports_hash
    → validate_for_bytecode_hash c serialize
        (metadata_of exports_hash bytecode_hash has_memory names)
        bytecode_hash
      ≡ ok tt
unfolding validate_for_bytecode_hash
validates c serialize bytecode_hash exports_hash has_memory names h few ordered hash =
    let fits : ltb 256 (length names) ≡ false = ground (arith, few) in
    rw (==_refl bytecode_hash, fits, check_exports-ok names h, ordered, hash, ==_refl exports_hash)
      refl

-- Metadata for up to 256 exports, each with a name of 1 to 128 bytes, in any order and with
-- repetitions, is made where `bincode` writes the names, and the functions that can be called are then
-- exactly, where the code exports its memory, the exports.
pub new_metadata-callable :
    (c : Crypto) (serialize : List Text → Option Bytes) (bytecode_hash : Hash256)
    (has_memory : Bool) (exports : List Text)
    → ((names : List Text) → (encoded : Bytes) × (serialize names ≡ some encoded))
    → All IsName exports
    → length exports ≤ 256
    → (m : ContractExportMetadata) × (new_metadata c serialize bytecode_hash has_memory exports
        ≡ ok m)
      × ((function : Text)
          → callable m function
            ≡ (has_memory && not (is_empty function) && contains exports function))
unfolding new_metadata callable hash_callable_exports
new_metadata-callable c serialize bytecode_hash has_memory exports writes h few =
    let sorted = sort bytes_le exports in
    let names = dedup sorted in
    let (encoded, written) = writes names in
    let exports_hash = hash_bytes c encoded in
    let hash : hash_callable_exports c serialize names ≡ ok exports_hash = ap (hashed c) written in
    let ordered = sort-IsSorted bytes_le bytes_le-IsLinear exports in
    let size : length names ≤ 256 =
      omega (arith, dedup-length sorted, sort-length bytes_le exports, few) in
    let proper = dedup-All IsName sorted (sort-All bytes_le IsName exports h) in
    let accepted =
      validates c serialize bytecode_hash exports_hash has_memory names proper size
        (any_unsorted-dedup sorted ordered) hash in
    let made = metadata_of exports_hash bytecode_hash has_memory names in
    let make : Hash256 → Result ContractError ContractExportMetadata = λ computed.
      validate_for_bytecode_hash c serialize (metadata_of computed bytecode_hash has_memory names)
        bytecode_hash
      >> ok (metadata_of computed bytecode_hash has_memory names) in
    (
      made,
      ap (λ r. r >>= make) hash ∙ ap (λ r. r >> ok made) accepted,
      λ function.
          ap (λ found. has_memory && not (is_empty function) && found)
            (binary_search-contains names function (dedup-IsSorted sorted ordered)
              ∙ dedup-contains sorted function
              ∙ sort-contains exports function),
    )
