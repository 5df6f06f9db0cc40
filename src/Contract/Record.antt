-- ===== src/Contract/Record.antt =====
-- contract.rs: the record of a deployed contract, and the checks of what it commits to: its exports,
-- its interface and its storage. `bincode` and its bytes are parameters.
pub mod Projection
pub mod Exports
use zincha_sdk.Base.{
  ℕ, zero, ◌%◌, ◌^◌, Bool, false, not, ◌&&◌, ◌||◌, Option, none, some, List, [], ◌∷◌, ltb,
  if◌then◌else◌, length, sum_of, sat_add, ◌==◌, nat_eq, contains, list_eq, option_eq, Result, ok,
  err, ◌>>=◌, ◌>>◌, fail_if, ok_or,
}
use zincha_sdk.Base.Sort.{sort}
use zincha_sdk.Crypto.Bytes.{Bytes, Text, Address, Hash256, zero_hash, bytes_le, is_empty}
use zincha_sdk.Crypto.Hash.{Crypto, hash_bytes}
use zincha_sdk.Contract.Search.{binary_search}
use zincha_sdk.Contract.Storage.{StorageMap, compute_contract_storage_root}

pub record ContractExportMetadata : Type 0 where
  pub profile_id : Text
  pub profile_version : ℕ
  pub bytecode_hash : Hash256
  pub has_memory_export : Bool
  pub callable_exports : List Text
  pub callable_exports_hash : Hash256

pub record AbiParam : Type 0 where
  pub name : Text
  pub ty : Text
  pub description : Text

pub record FunctionSignature : Type 0 where
  pub name : Text
  pub description : Text
  pub params : List AbiParam
  pub returns : List AbiParam
  pub mutates : Bool

pub record ContractAbi : Type 0 where
  pub name : Text
  pub version : Text
  pub functions : List FunctionSignature

-- ContractRecord, without the summary of a source verification, which no modelled code reads
pub record ContractRecord : Type 0 where
  pub address : Address
  pub deployer : Address
  pub bytecode_hash : Hash256
  pub export_metadata : ContractExportMetadata
  pub created_at_block : ℕ
  pub updated_at_block : ℕ
  pub is_active : Bool
  pub abi : Option ContractAbi
  pub abi_hash : Option Hash256
  pub verified : Bool
  pub source_hash : Option Hash256
  pub storage_deposit : ℕ
  pub verified_source_storage_deposit : ℕ
  pub storage_bytes : ℕ
  pub storage_slot_count : ℕ
  pub storage_generation : ℕ
  pub storage_reserve : ℕ
  pub storage_root : Hash256

pub record ContractRouteRecord : Type 0 where
  pub deployer : Address
  pub route_name : Text
  pub target_contract_address : Address
  pub revision : ℕ
  pub created_at_block : ℕ
  pub updated_at_block : ℕ
  pub storage_deposit : ℕ

pub data ContractError : Type 0 where
  wrong_profile_id wrong_profile_version wrong_bytecode_hash too_many_exports empty_export :
      ContractError
  long_export unsorted_exports wrong_exports_hash wrong_abi_hash missing_abi_hash missing_abi :
      ContractError
  wrong_storage_root wrong_storage_bytes wrong_slot_count panicked : ContractError
  no_gas too_much_gas not_found inactive unhashable_exports unhashable_abi : ContractError
  route_not_found invalid_route_name : ContractError

-- b"zincha-wasm-int-v1"
abbrev pub contract_vm_profile_id : Text
contract_vm_profile_id =
    122 ∷ 105 ∷ 110 ∷ 99 ∷ 104 ∷ 97 ∷ 45 ∷ 119 ∷ 97 ∷ 115 ∷ 109 ∷ 45 ∷ 105 ∷ 110 ∷ 116 ∷ 45 ∷ 118
    ∷ 49 ∷ []

abbrev pub contract_vm_profile_version : ℕ
contract_vm_profile_version = 1

-- Vec::dedup: of equal neighbours, one stays
unfoldable pub dedup : List Text → List Text
dedup [] = []
dedup (x ∷ []) = x ∷ []
dedup (x ∷ y ∷ rest) = let kept = dedup (y ∷ rest) in if x == y then kept else x ∷ kept

-- `windows(2).any(|window| window[0] >= window[1])`
unfoldable pub any_unsorted : List Text → Bool
any_unsorted [] = false
any_unsorted (x ∷ []) = false
any_unsorted (x ∷ y ∷ rest) = let later = any_unsorted (y ∷ rest) in bytes_le y x || later

-- the loop over the export names
unfoldable pub check_exports : List Text → Result ContractError (Unit {0})
check_exports [] = ok tt
check_exports (name ∷ rest) =
    fail_if (is_empty name) empty_export
    >> fail_if (ltb 128 (length name)) long_export
    >> check_exports rest

abbrev pub metadata_of : Hash256 → Hash256 → Bool → List Text → ContractExportMetadata
metadata_of exports_hash bytecode_hash has_memory_export exports = record {
  profile_id = contract_vm_profile_id;
  profile_version = contract_vm_profile_version;
  bytecode_hash = bytecode_hash;
  has_memory_export = has_memory_export;
  callable_exports = exports;
  callable_exports_hash = exports_hash;
}

-- `map` and `map_err` of what `bincode` returns
abbrev pub hashed : Crypto → Option Bytes → Result ContractError Hash256
hashed c none = err unhashable_exports
hashed c (some encoded) = ok (hash_bytes c encoded)

module _ (c : Crypto) (serialize_exports : List Text → Option Bytes) where
  unfoldable pub hash_callable_exports : List Text → Result ContractError Hash256
  hash_callable_exports callable_exports = hashed c (serialize_exports callable_exports)

  -- ContractExportMetadata::validate_for_bytecode_hash
  unfoldable pub validate_for_bytecode_hash :
      ContractExportMetadata → Hash256 → Result ContractError (Unit {0})
  unfolding check_exports any_unsorted hash_callable_exports
  validate_for_bytecode_hash m expected = do
    fail_if (not (m.profile_id == contract_vm_profile_id)) wrong_profile_id
    fail_if (not (m.profile_version == contract_vm_profile_version)) wrong_profile_version
    fail_if (not (m.bytecode_hash == expected)) wrong_bytecode_hash
    fail_if (ltb 256 (length m.callable_exports)) too_many_exports
    check_exports m.callable_exports
    fail_if (any_unsorted m.callable_exports) unsorted_exports
    expected_hash ← hash_callable_exports m.callable_exports
    fail_if (not (m.callable_exports_hash == expected_hash)) wrong_exports_hash

  -- ContractExportMetadata::new
  unfoldable pub new_metadata :
      Hash256 → Bool → List Text → Result ContractError ContractExportMetadata
  unfolding validate_for_bytecode_hash hash_callable_exports dedup
  new_metadata bytecode_hash has_memory_export callable_exports =
      let exports = dedup (sort bytes_le callable_exports) in
      hash_callable_exports exports >>= λ exports_hash.
      validate_for_bytecode_hash (metadata_of exports_hash bytecode_hash has_memory_export exports)
        bytecode_hash
      >> ok (metadata_of exports_hash bytecode_hash has_memory_export exports)

  -- ContractExportMetadata::empty_for_bytecode_hash, or none for a panic
  unfoldable pub empty_for_bytecode_hash : Hash256 → Option ContractExportMetadata
  unfolding hash_callable_exports
  empty_for_bytecode_hash bytecode_hash = elim (hash_callable_exports []) [
    | ok exports_hash ↦ some (metadata_of exports_hash bytecode_hash false [])
    | err e ↦ none
  ]

-- ContractExportMetadata::callable
unfoldable pub callable : ContractExportMetadata → Text → Bool
unfolding binary_search
callable m function =
    m.has_memory_export && not (is_empty function) && binary_search m.callable_exports function

module _ (c : Crypto) (serialize_abi : ContractAbi → Option Bytes) where
  unfoldable pub hash_contract_abi : ContractAbi → Option Hash256
  hash_contract_abi abi = elim (serialize_abi abi) [
    | none ↦ none
    | some encoded ↦ some (hash_bytes c encoded)
  ]

  abbrev pub check_abi : Option ContractAbi → Option Hash256 → Result ContractError (Unit {0})
  check_abi none none = ok tt
  check_abi (some abi) (some abi_hash) = do
    computed ← ok_or (hash_contract_abi abi) unhashable_abi
    if computed == abi_hash then ok tt else err wrong_abi_hash
  check_abi (some abi) none = err missing_abi_hash
  check_abi none (some abi_hash) = err missing_abi

  unfoldable pub validate_canonical_abi_state : ContractRecord → Result ContractError (Unit {0})
  unfolding hash_contract_abi
  validate_canonical_abi_state r = check_abi r.abi r.abi_hash

  unfoldable pub authenticated_abi : ContractRecord → Option ContractAbi
  unfolding validate_canonical_abi_state
  authenticated_abi r = elim (validate_canonical_abi_state r) [ ok u ↦ r.abi | err e ↦ none ]

  abbrev put_abi :
      ContractAbi → ContractRecord → Option Hash256 → ContractRecord × Result ContractError Hash256
  put_abi abi r none = (r, err unhashable_abi)
  put_abi abi r (some abi_hash) =
      (record r { abi = some abi; abi_hash = some abi_hash }, ok abi_hash)

  unfoldable pub set_authenticated_abi :
      ContractAbi → ContractRecord → ContractRecord × Result ContractError Hash256
  unfolding hash_contract_abi
  set_authenticated_abi abi r = put_abi abi r (hash_contract_abi abi)

-- `contract_storage_total_bytes`, of u64
unfoldable pub contract_storage_total_bytes : StorageMap → ℕ
contract_storage_total_bytes storage =
    sum_of (λ entry. sat_add (length entry.0) (length entry.1)) storage % 2 ^ 64

-- the map, or none
abbrev pub or_no_entries : Option StorageMap → StorageMap
or_no_entries none = []
or_no_entries (some storage) = storage

module _ (c : Crypto) where
  abbrev pub check_root : Hash256 → Option Hash256 → Result ContractError (Unit {0})
  check_root committed none = err panicked
  check_root committed (some actual) = fail_if (not (committed == actual)) wrong_storage_root

  unfoldable pub verify_contract_storage_projection :
      ContractRecord → Option StorageMap → Result ContractError (Unit {0})
  unfolding contract_storage_total_bytes
  verify_contract_storage_projection r projection =
      let storage = or_no_entries projection in
      check_root r.storage_root (compute_contract_storage_root c storage)
      >> fail_if (not (r.storage_bytes == contract_storage_total_bytes storage)) wrong_storage_bytes
      >> fail_if (not (r.storage_slot_count == length storage)) wrong_slot_count

-- MAX_CONTRACT_GAS
abbrev pub max_contract_gas : ℕ
max_contract_gas = 10000000

unfoldable pub validate_top_level_contract_call_gas_limit : ℕ → Result ContractError (Unit {0})
validate_top_level_contract_call_gas_limit gas_limit = do
  fail_if (gas_limit == 0) no_gas
  fail_if (ltb max_contract_gas gas_limit) too_much_gas

unfoldable pub validate_top_level_contract_call_target :
    ℕ → Option ContractRecord → Result ContractError ContractRecord
unfolding validate_top_level_contract_call_gas_limit
validate_top_level_contract_call_target gas_limit contract = do
  found ← ok_or contract not_found
  fail_if (not found.is_active) inactive
  validate_top_level_contract_call_gas_limit gas_limit
  ok found
