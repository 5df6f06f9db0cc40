-- ===== src/Contract/Events.antt =====
-- contract.rs: the archive of contract events, in its canonical order, and its accumulator.
mod Order
mod Blocks
pub mod Accumulator
use zincha_sdk.Base.{
  ℕ, zero, suc, ◌+◌, Bool, not, ◌&&◌, ◌||◌, Option, none, some, List, [], ◌∷◌, ◌++◌, map, leb,
  if◌then◌else◌, length, ◌==◌, nat_eq, list_eq, option_eq, Result, err, fail_if,
}
use zincha_sdk.Base.Sort.{sort}
use zincha_sdk.Crypto.Bytes.{Bytes, Text, Address, Hash256, zero_hash, bytes_le, to_be_bytes}
use zincha_sdk.Crypto.Hash.{Crypto, hash_bytes}
use zincha_sdk.Crypto.Merkle.{MerkleTree, and_then, root_from_hashes_in_place}

-- its `data` is `payload` here
pub record ContractEvent : Type 0 where
  pub contract_address : Address
  pub topic : Text
  pub payload : Bytes
  pub block_number : ℕ
  pub tx_hash : Hash256
  pub log_index : ℕ

-- the `Err(..)` of the archive's check, and a panic
pub data ArchiveError : Type 0 where
  panicked accumulator_mismatch : ArchiveError

-- `a.cmp(&b).then_with(..)` as a test for `<=`, of two such tests
abbrev pub then_with {ℓ} : {A : Type ℓ} → (A → A → Bool) → (A → A → Bool) → A → A → Bool
then_with first next a b = first a b && (not (first b a) || next a b)

abbrev pub by {ℓ κ} : {A : Type ℓ} {B : Type κ} → (B → B → Bool) → (A → B) → A → A → Bool
by le field a b = le (field a) (field b)

-- the order within a block
unfoldable pub in_block_le : ContractEvent → ContractEvent → Bool
in_block_le = then_with (by bytes_le (λ e. e.contract_address)) (
    then_with (by leb (λ e. e.log_index)) (
      then_with (by bytes_le (λ e. e.tx_hash))
        (then_with (by bytes_le (λ e. e.topic)) (by bytes_le (λ e. e.payload)))))

unfoldable pub event_le : ContractEvent → ContractEvent → Bool
unfolding in_block_le
event_le = then_with (by leb (λ e. e.block_number)) in_block_le

unfoldable pub sort_contract_events_canonically : List ContractEvent → List ContractEvent
sort_contract_events_canonically events = sort event_le events

-- the inner `while` loop: the events at the front that are in a block, and those behind
unfoldable pub split_block : ℕ → List ContractEvent → List ContractEvent × List ContractEvent
split_block block_number [] = ([], [])
split_block block_number (event ∷ events) =
    let (block, later) = split_block block_number events in
    if event.block_number == block_number then (event ∷ block, later) else ([], event ∷ events)

-- bincode, a third-party serialiser, of a ContractEvent
module _ (c : Crypto) (serialize : ContractEvent → Bytes) where
  unfoldable pub hash_contract_event : ContractEvent → Hash256
  hash_contract_event event = hash_bytes c (serialize event)

  abbrev pub root_of : Option (Hash256 × List Hash256) → Option Hash256
  root_of none = none
  root_of (some (root, buffer)) = some root

  -- `none` is an index out of bounds of the Merkle tree
  unfoldable pub compute_contract_event_block_root : List ContractEvent → Option Hash256
  unfolding hash_contract_event
  compute_contract_event_block_root [] = some zero_hash
  compute_contract_event_block_root (e ∷ es) =
      root_of (root_from_hashes_in_place c (map hash_contract_event (sort in_block_le (e ∷ es))))

  unfoldable pub advance_contract_event_archive_accumulator :
      Hash256 → ℕ → List ContractEvent → Option Hash256
  unfolding compute_contract_event_block_root
  advance_contract_event_archive_accumulator previous block_number [] = some previous
  advance_contract_event_archive_accumulator previous block_number (e ∷ es) =
      and_then (compute_contract_event_block_root (e ∷ es)) (λ block_root. some (
        hash_bytes c
          (previous ++ to_be_bytes block_number ++ to_be_bytes (length (e ∷ es)) ++ block_root)))

  -- The outer `while` loop, on fuel: each round takes an event at least.
  unfoldable pub accumulate : ℕ → Hash256 → List ContractEvent → Option Hash256
  unfolding advance_contract_event_archive_accumulator split_block
  accumulate zero accumulator events = none
  accumulate (suc fuel) accumulator [] = some accumulator
  accumulate (suc fuel) accumulator (event ∷ events) =
      let (block, later) = split_block event.block_number events in
      and_then
        (advance_contract_event_archive_accumulator accumulator event.block_number (event ∷ block))
        (λ advanced. accumulate fuel advanced later)

  unfoldable pub compute_contract_event_archive_accumulator : List ContractEvent → Option Hash256
  unfolding accumulate sort_contract_events_canonically
  compute_contract_event_archive_accumulator events =
      let sorted = sort_contract_events_canonically events in
      accumulate (suc (length sorted)) zero_hash sorted

  -- the comparison of `verify_contract_event_archive_accumulator`
  unfoldable pub accumulator_matches : Hash256 → Option Hash256 → Result ArchiveError (Unit {0})
  accumulator_matches expected none = err panicked
  accumulator_matches expected (some actual) =
      fail_if (not (expected == actual)) accumulator_mismatch

  unfoldable pub verify_contract_event_archive_accumulator :
      Hash256 → List ContractEvent → Result ArchiveError (Unit {0})
  unfolding compute_contract_event_archive_accumulator accumulator_matches
  verify_contract_event_archive_accumulator expected events =
      accumulator_matches expected (compute_contract_event_archive_accumulator events)
