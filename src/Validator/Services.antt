-- ===== src/Validator/Services.antt =====
-- validator.rs: ValidatorUpdateData and its validation.
use zincha_sdk.Base.{
  ℕ, ◌≤◌, ◌<◌, ◌≡◌, refl, ◌↔◌, Bool, true, not, ◌&&◌, Option, List, [], ◌∷◌, arith, ltb, leb,
  length, All, nat_eq, ==_comm, contains, distinct, list_eq, option_eq, Result, ok, ◌>>◌, fail_if,
}
use zincha_sdk.Crypto.Bytes.{Bytes, Text, is_empty}

-- the messages of ZinchaError::InvalidTransaction
pub data ServiceError : Type 0 where
  too_many_services partition_out_of_range endpoint_empty endpoint_too_long duplicate_partition :
      ServiceError

-- a public key is the bytes that encode it
pub record ValidatorExecutorService : Type 0 where
  pub partition_id : ℕ
  pub rpc_endpoint : Text
  pub executor_public_key : Bytes

pub record ValidatorUpdateData : Type 0 where
  pub executor_services : List ValidatorExecutorService
  pub vrf_public_key : Option Bytes

-- the constants at the top of the file
abbrev pub max_validator_executor_services : ℕ
max_validator_executor_services = 32

abbrev pub max_validator_executor_endpoint_bytes : ℕ
max_validator_executor_endpoint_bytes = 256

-- the loop of `validate`, with the partitions seen so far
unfoldable pub check_services :
    ℕ → List ValidatorExecutorService → List ℕ → Result ServiceError (Unit {0})
check_services num_partitions [] seen = ok tt
check_services num_partitions (service ∷ services) seen = do
  fail_if (leb num_partitions service.partition_id) partition_out_of_range
  fail_if (is_empty service.rpc_endpoint) endpoint_empty
  fail_if (ltb max_validator_executor_endpoint_bytes (length service.rpc_endpoint))
      endpoint_too_long
  fail_if (contains seen service.partition_id) duplicate_partition
  check_services num_partitions services (service.partition_id ∷ seen)

-- ValidatorUpdateData::validate
unfoldable pub validate_update : ValidatorUpdateData → ℕ → Result ServiceError (Unit {0})
unfolding check_services
validate_update update num_partitions = do
  fail_if (ltb max_validator_executor_services (length update.executor_services)) too_many_services
  check_services num_partitions update.executor_services []

-- What the loop accepts of one service: a partition of the network, an endpoint of 1 to 256 bytes.
abbrev pub IsService : ℕ → ValidatorExecutorService → Type 0
IsService num_partitions s =
    (s.partition_id < num_partitions) × (1 ≤ length s.rpc_endpoint) × (length s.rpc_endpoint ≤ 256)

abbrev pub partitions : List ValidatorExecutorService → List ℕ
partitions [] = []
partitions (s ∷ ss) = s.partition_id ∷ partitions ss

abbrev none_of : List ℕ → List ℕ → Bool
none_of seen [] = true
none_of seen (x ∷ xs) = not (contains seen x) && none_of seen xs

none_of-cons :
    (x : ℕ) (seen xs : List ℕ) → none_of (x ∷ seen) xs ≡ (not (contains xs x) && none_of seen xs)
none_of-cons x seen [] = refl
none_of-cons x seen (y ∷ xs) = let rest = none_of-cons x seen xs in ground (arith, ==_comm x y)

is_empty-length : (t : Text) → is_empty t ≡ leb (length t) 0
is_empty-length [] = refl
is_empty-length (x ∷ t) = ground arith

check_services_iff :
    (n : ℕ) (services : List ValidatorExecutorService) (seen : List ℕ)
    → (check_services n services seen ≡ ok tt) ↔ (
        All (IsService n) services
        × (none_of seen (partitions services) ≡ true)
        × (distinct (partitions services) ≡ true))
unfolding check_services
check_services_iff n [] seen = (λ _. (tt, refl, refl), λ _. refl)
check_services_iff n (s ∷ ss) seen = ground (
  arith,
  is_empty-length s.rpc_endpoint,
  none_of-cons s.partition_id seen (partitions ss),
  check_services_iff n ss (s.partition_id ∷ seen),
)

none_of-nil : (xs : List ℕ) → none_of [] xs ≡ true
none_of-nil [] = refl
none_of-nil (x ∷ xs) = none_of-nil xs

-- An update is accepted exactly if it claims at most 32 services, each for a partition of the
-- network and with an endpoint of 1 to 256 bytes, and no partition twice.
validate_update_iff :
    (update : ValidatorUpdateData) (n : ℕ)
    → (validate_update update n ≡ ok tt) ↔ (
        (length update.executor_services ≤ 32)
        × All (IsService n) update.executor_services
        × (distinct (partitions update.executor_services) ≡ true))
unfolding validate_update
validate_update_iff update n = ground (
  arith,
  check_services_iff n update.executor_services [],
  none_of-nil (partitions update.executor_services),
)
