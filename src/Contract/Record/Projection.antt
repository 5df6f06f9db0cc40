-- ===== src/Contract/Record/Projection.antt =====
-- contract.rs: a contract's record determines the storage that verifies against it.
use zincha_sdk.Base.{
  ◌≡◌, sym, ◌∙◌, ◌⊎◌, inl, inr, Option, none, some, arith, nat_eq, ==_iff, list_eq, option_eq, ok,
  Result-cases,
}
use zincha_sdk.Crypto.Bytes.{Hash256}
use zincha_sdk.Crypto.Hash.{Crypto}
use zincha_sdk.Contract.Storage.{StorageMap, compute_contract_storage_root}
use zincha_sdk.Contract.Storage.Order.{IsStorageMap}
use zincha_sdk.Contract.Storage.Children.{Break}
use zincha_sdk.Contract.Storage.Commitment.{AreSized, storage_root-binds}
use zincha_sdk.Contract.Record.{ContractRecord, check_root, verify_contract_storage_projection}

check_root-ok :
    (c : Crypto) (committed : Hash256) (actual : Option Hash256)
    → check_root c committed actual ≡ ok tt
    → actual ≡ some committed
check_root-ok c committed none h = cc
check_root-ok c committed (some actual) h = ground (arith, ==_iff committed actual, h)

projection-root :
    (c : Crypto) (r : ContractRecord) (storage : StorageMap)
    → verify_contract_storage_projection c r (some storage) ≡ ok tt
    → compute_contract_storage_root c storage ≡ some r.storage_root
unfolding verify_contract_storage_projection
projection-root c r storage h =
    elim (Result-cases (check_root c r.storage_root (compute_contract_storage_root c storage))) [
      | inl (u, fine) ↦
          check_root-ok c r.storage_root (compute_contract_storage_root c storage) fine
      | inr (e, bad) ↦ let refused = rw bad at h in cc
    ]

-- Two storages that verify against one record are one storage, or they exhibit two byte strings of one
-- hash or one of the zero hash.
pub projection-binds :
    (c : Crypto) (r : ContractRecord) (a b : StorageMap)
    → IsStorageMap a
    → IsStorageMap b
    → AreSized a
    → AreSized b
    → verify_contract_storage_projection c r (some a) ≡ ok tt
    → verify_contract_storage_projection c r (some b) ≡ ok tt
    → (a ≡ b) ⊎ Break c
projection-binds c r a b h h' z z' v v' =
    storage_root-binds c a b h h' z z' (projection-root c r a v ∙ sym (projection-root c r b v'))
