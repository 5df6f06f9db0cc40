-- ===== src/Contract/Storage.antt =====
-- contract.rs: the root of a contract's storage, a trie over the half bytes of the keys.
mod Hashes
pub mod Order
mod Shared
mod Runs
mod HexPrefix
mod Node
mod Groups
pub mod Children
mod Encoding
mod Views
mod Binding
pub mod Commitment
pub mod Terminates
use zincha_sdk.Base.{
  ℕ, zero, suc, ◌+◌, min, max, true, false, Option, none, some, List, [], ◌∷◌, ◌++◌, map, ltb, leb,
  if◌then◌else◌, length, get_elem?, set, take, drop, replicate, ◌==◌, nat_eq, list_eq, option_eq,
}
use zincha_sdk.Crypto.Bytes.{Bytes, Hash256, zero_hash, be_bytes}
use zincha_sdk.Crypto.Hash.{Crypto, hash_bytes}
use zincha_sdk.Crypto.Merkle.{and_then}
use zincha_sdk.Contract.Nibbles.{bytes_to_nibbles, common_prefix_length, hex_prefix_encode}

-- A `BTreeMap<Vec<u8>, Vec<u8>>`: its entries in the order of the keys.
abbrev pub StorageMap : Type 0
StorageMap = List (Bytes × Bytes)

-- the half bytes of a key, and its value
abbrev pub Entry : Type 0
Entry = Bytes × Bytes

-- `u32::to_be_bytes` of `len() as u32`
abbrev pub len_bytes : Bytes → Bytes
len_bytes bytes = be_bytes 4 (length bytes)

-- `&key[offset..]`; `none` is the panic of a slice out of bounds, here and below
unfoldable pub slice_from : ℕ → Bytes → Option Bytes
slice_from offset key = if leb offset (length key) then some (drop offset key) else none

-- the loop over `&entries[1..]`, which stops once nothing is shared
unfoldable pub shared_prefix : ℕ → Bytes → ℕ → List Entry → Option ℕ
unfolding slice_from common_prefix_length
shared_prefix offset first shared [] = some shared
shared_prefix offset first shared ((nibbles, value) ∷ rest) =
    and_then (slice_from offset nibbles) (λ suffix.
      let shared' = min shared (common_prefix_length first suffix) in
      let rest' = shared_prefix offset first shared' rest in if shared' == 0 then some 0 else rest')

-- An entry joins the run behind it where that has its half byte.
unfoldable pub join_run : ℕ → Entry → List (ℕ × List Entry) → List (ℕ × List Entry)
join_run nibble entry [] = (nibble, entry ∷ []) ∷ []
join_run nibble entry ((n, run) ∷ runs) =
    if nibble == n then (n, entry ∷ run) ∷ runs else (nibble, entry ∷ []) ∷ (n, run) ∷ runs

-- the two `while` loops: the runs of entries with one half byte at `offset`
unfoldable pub runs : ℕ → List Entry → Option (List (ℕ × List Entry))
unfolding join_run
runs offset [] = some []
runs offset (entry ∷ entries) =
    and_then (get_elem? entry.0 offset)
      (λ nibble. and_then (runs offset entries) (λ rest. some (join_run nibble entry rest)))

-- `children[child_index] = child`
unfoldable pub put_child : List Hash256 → ℕ → Hash256 → Option (List Hash256)
put_child children index child =
    if ltb index (length children) then some (set children index child) else none

-- `branch_value`, and the entries behind it
unfoldable pub split_value : ℕ → List Entry → Option Bytes × List Entry
split_value offset [] = (none, [])
split_value offset ((nibbles, value) ∷ rest) =
    if length nibbles == offset then (some value, rest) else (none, (nibbles, value) ∷ rest)

module _ (c : Crypto) where
  unfoldable pub hash_leaf : Bytes → Bytes → Option Hash256
  unfolding hex_prefix_encode
  hash_leaf key_end value = and_then (hex_prefix_encode key_end true) (λ encoded_key.
      some
        (hash_bytes c (1 ∷ (len_bytes encoded_key ++ (encoded_key ++ (len_bytes value ++ value))))))

  unfoldable pub hash_extension : Bytes → Hash256 → Option Hash256
  unfolding hex_prefix_encode
  hash_extension prefix child = and_then (hex_prefix_encode prefix false) (λ encoded_prefix.
      some (hash_bytes c (2 ∷ (len_bytes encoded_prefix ++ (encoded_prefix ++ child)))))

  abbrev pub value_bytes : Option Bytes → Bytes
  value_bytes none = 0 ∷ []
  value_bytes (some value) = 1 ∷ (len_bytes value ++ value)

  abbrev pub concat_hashes : List Hash256 → Bytes
  concat_hashes [] = []
  concat_hashes (h ∷ hs) = h ++ concat_hashes hs

  unfoldable pub hash_branch : List Hash256 → Option Bytes → Hash256
  hash_branch children value = hash_bytes c (3 ∷ (concat_hashes children ++ value_bytes value))

  -- The children of a branch, each the root of its run by `root_of`.
  unfoldable pub fill_children :
      (List Entry → Option Hash256) → List Hash256 → List (ℕ × List Entry) → Option (List Hash256)
  unfolding put_child
  fill_children root_of children [] = some children
  fill_children root_of children ((index, run) ∷ rest) = and_then (root_of run) (λ child.
      and_then (put_child children index child) (λ filled. fill_children root_of filled rest))

  -- the branch of entries that share nothing
  unfoldable pub branch_root : (List Entry → Option Hash256) → ℕ → List Entry → Option Hash256
  unfolding runs split_value fill_children hash_branch
  branch_root root_of offset entries =
      let (branch_value, below) = split_value offset entries in
      and_then (runs offset below) (λ groups.
        and_then (fill_children root_of (replicate 16 zero_hash) groups)
          (λ children. some (hash_branch children branch_value)))

  -- `contract_storage_subtree_root`, on fuel: each call goes one half byte deeper, so one more than
  -- the length of the longest key is enough. `none` is spent fuel or a panic.
  unfoldable pub subtree_root : ℕ → List Entry → ℕ → Option Hash256
  unfolding slice_from shared_prefix hash_leaf hash_extension branch_root
  subtree_root zero entries offset = none
  subtree_root (suc fuel) [] offset = some zero_hash
  subtree_root (suc fuel) ((nibbles, value) ∷ []) offset =
      and_then (slice_from offset nibbles) (λ key_end. hash_leaf key_end value)
  subtree_root (suc fuel) ((nibbles, value) ∷ entry ∷ entries) offset =
      let all = (nibbles, value) ∷ entry ∷ entries in
      and_then (slice_from offset nibbles) (λ first.
        and_then (shared_prefix offset first (length first) (entry ∷ entries)) (λ shared.
          let below =
            and_then (subtree_root fuel all (offset + shared))
              (λ child. hash_extension (take shared first) child) in
          let branch = branch_root (λ run. subtree_root fuel run (suc offset)) offset all in
          if ltb 0 shared then below else branch))

-- the keys as half bytes
unfoldable pub nibble_entries : StorageMap → List Entry
unfolding bytes_to_nibbles
nibble_entries storage = map (λ entry. (bytes_to_nibbles entry.0, entry.1)) storage

-- the length of the longest key
unfoldable pub longest : List Entry → ℕ
longest [] = 0
longest (entry ∷ entries) = max (length entry.0) (longest entries)

unfoldable pub compute_contract_storage_root : Crypto → StorageMap → Option Hash256
unfolding subtree_root nibble_entries longest
compute_contract_storage_root c [] = some zero_hash
compute_contract_storage_root c (e ∷ es) =
    let entries = nibble_entries (e ∷ es) in subtree_root c (suc (longest entries)) entries 0
