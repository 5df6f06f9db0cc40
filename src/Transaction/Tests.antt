-- ===== src/Transaction/Tests.antt =====
-- transaction.rs on concrete transactions.
use zincha_sdk.Base.{ℕ, ◌≡◌, ◌↔◌, arith, some, [], ◌∷◌, replicate, ok, err, IsU64}
use zincha_sdk.Crypto.Bytes.{Hash256, Bytes}
use zincha_sdk.Transaction.Kind.{
  wire_code, as_str, from_wire_code, from_str_name, batch, contract_upgrade_unsupported,
}
use zincha_sdk.Transaction.Codes.{read_iff}
use zincha_sdk.Transaction.Body.{Transaction, new_transfer}

read_iff_example :
    ((from_wire_code 37 ≡ ok batch) ↔ (wire_code batch ≡ 37))
    × ((from_str_name "batch" ≡ some batch) ↔ (as_str batch ≡ "batch"))
    × (from_wire_code 40 ≡ err contract_upgrade_unsupported)
read_iff_example = read_iff batch 37 "batch"

abbrev transfer_tx : Transaction
transfer_tx = new_transfer (replicate 20 9) (replicate 20 8) 100 1 0 (122 ∷ []) 1000

-- a stand-in for `bincode`
abbrev payload_bytes : Transaction → Bytes
payload_bytes t = t.payload

word_10 : IsU64 10
word_10 = omega arith

word_13 : IsU64 13
word_13 = omega arith

abbrev batch_hash : Hash256
batch_hash = replicate 32 1

abbrev index : ℕ
index = 10
