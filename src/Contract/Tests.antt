-- ===== src/Contract/Tests.antt =====
-- contract.rs on concrete storage, events, token writes and exports.
use mathlib.Core.List.Perm
use zincha_sdk.Base.{
  false, not, ◌&&◌, contains, nat_eq, list_eq, Option, ℕ, ◌<◌, ◌≡◌, ◌⊎◌, refl, arith, true, some,
  List, [], ◌∷◌, All, length, replicate, ok,
}
use zincha_sdk.Crypto.Bytes.{is_empty, Bytes, Hash256, Address, Text}
use zincha_sdk.Crypto.Merkle.{and_then}
use zincha_sdk.Crypto.Toy.{toy_crypto}
use zincha_sdk.Contract.Storage.Children.{Break}
use zincha_sdk.Contract.Storage.{StorageMap, compute_contract_storage_root}
use zincha_sdk.Contract.Storage.Order.{IsStorageMap}
use zincha_sdk.Contract.Storage.Terminates.{storage_root-terminates}
use zincha_sdk.Contract.Storage.Commitment.{storage_root-binds, AreSized}
use zincha_sdk.Contract.Events.{
  ContractEvent, compute_contract_event_archive_accumulator,
  advance_contract_event_archive_accumulator,
}
use zincha_sdk.Contract.Events.Accumulator.{accumulator_perm, accumulator-append}
use zincha_sdk.Contract.Writes.{ContractTokenWrites, merge_from}
use zincha_sdk.Contract.Writes.Merge.{
  merge_from-change, merge_from-IsConsistent, IsConsistent, IsMerge,
}
use zincha_sdk.Contract.Record.{ContractExportMetadata, new_metadata, callable}
use zincha_sdk.Contract.Record.Exports.{new_metadata-callable, IsName}
use zincha_sdk.Contract.Search.{binary_search}

-- two slots, whose keys share their first half byte
abbrev storage : StorageMap
storage = (16 ∷ [], 1 ∷ []) ∷ (18 ∷ 5 ∷ [], 2 ∷ []) ∷ []

storage-IsStorageMap : IsStorageMap storage
storage-IsStorageMap =
    (((omega arith, tt), ((omega arith, (omega arith, tt)), tt)), ((refl, tt), (tt, tt)))

storage-AreSized : AreSized storage
storage-AreSized = ((omega arith, omega arith), ((omega arith, omega arith), tt))

storage_root-terminates_example :
    (root : Hash256) × (compute_contract_storage_root toy_crypto storage ≡ some root)
storage_root-terminates_example = storage_root-terminates toy_crypto storage storage-IsStorageMap

storage_root-binds_example : (storage ≡ storage) ⊎ Break toy_crypto
storage_root-binds_example =
    storage_root-binds toy_crypto storage storage storage-IsStorageMap storage-IsStorageMap
      storage-AreSized storage-AreSized refl

abbrev event : ℕ → ℕ → ContractEvent
event block_number log_index = record {
  contract_address = replicate 20 3;
  topic = 116 ∷ [];
  payload = [];
  block_number = block_number;
  tx_hash = replicate 32 1;
  log_index = log_index;
}

abbrev event_bytes : ContractEvent → Bytes
event_bytes e = e.log_index ∷ e.topic

accumulator_perm_example :
    (h : Hash256) × (compute_contract_event_archive_accumulator toy_crypto event_bytes
        (event 2 1 ∷ event 1 0 ∷ [])
      ≡ some h)
    × (compute_contract_event_archive_accumulator toy_crypto event_bytes
          (event 1 0 ∷ event 2 1 ∷ [])
        ≡ some h)
accumulator_perm_example =
    accumulator_perm toy_crypto event_bytes (event 2 1 ∷ event 1 0 ∷ [])
      (event 1 0 ∷ event 2 1 ∷ []) (Perm.swap (event 1 0) (event 2 1) [])

before : All (λ e. e.block_number < 2) (event 1 0 ∷ [])
before = (omega arith, tt)

accumulator-append_example :
    compute_contract_event_archive_accumulator toy_crypto event_bytes (event 1 0 ∷ event 2 1 ∷ [])
    ≡ and_then
        (compute_contract_event_archive_accumulator toy_crypto event_bytes (event 1 0 ∷ []))
        (λ previous.
          advance_contract_event_archive_accumulator toy_crypto event_bytes previous 2
            (event 2 1 ∷ []))
accumulator-append_example =
    accumulator-append toy_crypto event_bytes 2 (event 1 0 ∷ []) (event 2 1 ∷ []) before (refl, tt)

abbrev owner : Hash256 × Address
owner = (replicate 32 1, replicate 20 2)

abbrev no_writes : ContractTokenWrites
no_writes = record {
  tokens = [];
  tokens_removed = [];
  token_balances = [];
  token_balances_removed = [];
  token_balance_storage_deposits = [];
  token_balance_storage_deposits_removed = [];
  token_allowances = [];
  token_allowances_removed = [];
  token_allowance_storage_deposits = [];
  token_allowance_storage_deposits_removed = [];
}

abbrev credited : ContractTokenWrites
credited = record no_writes { token_balances = (owner, 5) ∷ [] }

abbrev emptied : ContractTokenWrites
emptied = record no_writes { token_balances_removed = owner ∷ [] }

credited-IsConsistent : IsConsistent credited
credited-IsConsistent = (
  (refl, λ k h. refl),
  (refl, λ k h. cc),
  (refl, λ k h. refl),
  (refl, λ k h. refl),
  (refl, λ k h. refl),
)

emptied-IsConsistent : IsConsistent emptied
emptied-IsConsistent = (
  (refl, λ k h. refl),
  (refl, λ k h. refl),
  (refl, λ k h. refl),
  (refl, λ k h. refl),
  (refl, λ k h. refl),
)

merge_from-IsConsistent_example : IsConsistent (merge_from credited emptied)
merge_from-IsConsistent_example =
    merge_from-IsConsistent credited emptied credited-IsConsistent emptied-IsConsistent

merge_from-change_example : IsMerge credited emptied (merge_from credited emptied)
merge_from-change_example = merge_from-change credited emptied emptied-IsConsistent

-- "b", "a", "b"
abbrev exports : List Text
exports = (98 ∷ []) ∷ (97 ∷ []) ∷ (98 ∷ []) ∷ []

abbrev names_bytes : List Text → Option Bytes
names_bytes names = some (length names ∷ [])

names-AreNames : All IsName exports
names-AreNames =
    ((omega arith, omega arith), ((omega arith, omega arith), ((omega arith, omega arith), tt)))

new_metadata-callable_example :
    (m : ContractExportMetadata) × (new_metadata toy_crypto names_bytes
        (replicate 32 4)
        true
        exports
      ≡ ok m)
    × ((function : Text)
        → callable m function ≡ (true && not (is_empty function) && contains exports function))
new_metadata-callable_example =
    new_metadata-callable toy_crypto names_bytes (replicate 32 4) true exports
      (λ names. (length names ∷ [], refl)) names-AreNames (omega arith)

-- the second of the two names is found, and another is not
searched :
    (binary_search ((97 ∷ []) ∷ (98 ∷ []) ∷ []) (98 ∷ []) ≡ true)
    × (binary_search ((97 ∷ []) ∷ (98 ∷ []) ∷ []) (99 ∷ []) ≡ false)
unfolding binary_search zincha_sdk.Crypto.Bytes.bytes_le
searched = (refl, refl)
