-- ===== src/Transaction/Body.antt =====
-- transaction.rs: Transaction, SignedTransaction and BatchOperation. The bytes that `bincode` gives a
-- transaction are a parameter.
use zincha_sdk.Base.{
  ℕ, ◌%◌, ◌^◌, max, Bool, not, ◌&&◌, Option, none, some, [], ◌∷◌, ◌++◌, ltb, if◌then◌else◌, sat_add,
  sat_sub, ◌==◌, nat_eq, list_eq, option_eq, Result, ok, err, ◌>>◌, fail_if,
}
use zincha_sdk.Crypto.Bytes.{Bytes, Text, Address, Hash256, zero_hash, to_be_bytes}
use zincha_sdk.Crypto.Hash.{Crypto, hash_bytes, verify, to_address}
use zincha_sdk.Transaction.Kind.{TxType, transfer}

-- `data` is a reserved word, so that field is `payload`.
pub record Transaction : Type 0 where
  pub tx_type : TxType
  pub sender : Address
  pub recipient : Address
  pub amount : ℕ
  pub fee : ℕ
  pub max_priority_fee_per_gas : ℕ
  pub nonce : ℕ
  pub timestamp : ℕ
  pub reference_block_height : ℕ
  pub reference_block_hash : Hash256
  pub max_valid_block_height : ℕ
  pub payload : Bytes
  pub chain_id : Text

pub record BatchOperation : Type 0 where
  pub tx_type : TxType
  pub recipient : Address
  pub amount : ℕ
  pub payload : Bytes

pub record SignedTransaction : Type 0 where
  pub transaction : Transaction
  pub signature : Bytes
  pub public_key : Bytes
  pub hash : Hash256

pub data TransactionError : Type 0 where
  hash_mismatch sender_mismatch invalid_signature : TransactionError

unfoldable pub has_explicit_validity_window : Transaction → Bool
has_explicit_validity_window t = not (t.max_valid_block_height == 0)

unfoldable pub is_expired_at_block : Transaction → ℕ → Bool
unfolding has_explicit_validity_window
is_expired_at_block t block_number =
    has_explicit_validity_window t && ltb t.max_valid_block_height block_number

unfoldable pub blocks_until_expiry_at : Transaction → ℕ → Option ℕ
unfolding has_explicit_validity_window
blocks_until_expiry_at t block_number =
    if has_explicit_validity_window t
    then some (sat_sub t.max_valid_block_height block_number)
    else none

unfoldable pub set_validity_window : ℕ → Hash256 → ℕ → Transaction → Transaction
set_validity_window reference_block_height reference_block_hash ttl_blocks t = record t {
  reference_block_height = reference_block_height;
  reference_block_hash = reference_block_hash;
  max_valid_block_height = sat_add reference_block_height (max ttl_blocks 1);
}

-- `new_transfer`, at the time `now_ms`
unfoldable pub new_transfer : Address → Address → ℕ → ℕ → ℕ → Text → ℕ → Transaction
new_transfer sender recipient amount fee nonce chain_id now_ms = record {
  tx_type = transfer;
  sender = sender;
  recipient = recipient;
  amount = amount;
  fee = fee;
  max_priority_fee_per_gas = 0;
  nonce = nonce;
  timestamp = now_ms;
  reference_block_height = 0;
  reference_block_hash = zero_hash;
  max_valid_block_height = 0;
  payload = [];
  chain_id = chain_id;
}

unfoldable pub total_cost : SignedTransaction → ℕ
total_cost s = sat_add s.transaction.amount s.transaction.fee

-- b"zincha_batch_inner_tx_v1"
abbrev pub batch_domain : Bytes
batch_domain =
    122 ∷ 105 ∷ 110 ∷ 99 ∷ 104 ∷ 97 ∷ 95 ∷ 98 ∷ 97 ∷ 116 ∷ 99 ∷ 104 ∷ 95 ∷ 105 ∷ 110 ∷ 110 ∷ 101
    ∷ 114 ∷ 95 ∷ 116 ∷ 120 ∷ 95 ∷ 118 ∷ 49 ∷ []

-- what `synthetic_batch_operation_hash` hashes
unfoldable pub batch_preimage : Hash256 → ℕ → Bytes
batch_preimage batch_tx_hash op_index =
    batch_domain ++ (batch_tx_hash ++ to_be_bytes (op_index % 2 ^ 64))

module _ (c : Crypto) where
  unfoldable pub synthetic_batch_operation_hash : Hash256 → ℕ → Hash256
  synthetic_batch_operation_hash batch_tx_hash op_index =
      hash_bytes c (batch_preimage batch_tx_hash op_index)

  unfoldable pub synthetic_batch_operation :
      SignedTransaction → ℕ → ℕ → BatchOperation → SignedTransaction
  synthetic_batch_operation batch_tx op_index nonce operation =
      let outer = batch_tx.transaction in
      let inner_tx : Transaction = record {
        tx_type = operation.tx_type;
        sender = outer.sender;
        recipient = operation.recipient;
        amount = operation.amount;
        fee = 0;
        max_priority_fee_per_gas = 0;
        nonce = nonce;
        timestamp = outer.timestamp;
        reference_block_height = outer.reference_block_height;
        reference_block_hash = outer.reference_block_hash;
        max_valid_block_height = outer.max_valid_block_height;
        payload = operation.payload;
        chain_id = outer.chain_id;
      } in
      record {
        transaction = inner_tx;
        signature = batch_tx.signature;
        public_key = batch_tx.public_key;
        hash = synthetic_batch_operation_hash batch_tx.hash op_index;
      }

  -- `bincode::serialize`
  module _ (serialize : Transaction → Bytes) where
    -- Transaction::hash
    unfoldable pub tx_hash : Transaction → Hash256
    tx_hash t = hash_bytes c (serialize t)

    -- Transaction::sign, with the secret of the key pair
    unfoldable pub sign : Bytes → Transaction → SignedTransaction
    sign secret t = record {
      transaction = t;
      signature = c.sign secret (tx_hash t);
      public_key = c.verifying_key secret;
      hash = tx_hash t;
    }

    -- SignedTransaction::verify
    unfoldable pub verify_signed : SignedTransaction → Result TransactionError (Unit {0})
    verify_signed s = do
      fail_if (not (tx_hash s.transaction == s.hash)) hash_mismatch
      fail_if (not (to_address c s.public_key == s.transaction.sender)) sender_mismatch
      elim (verify c s.public_key s.hash s.signature) [
        | ok u ↦ ok u
        | err e ↦ err TransactionError.invalid_signature
      ]
