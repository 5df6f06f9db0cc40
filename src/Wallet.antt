-- ===== src/Wallet.antt =====
-- crates/zincha-primitives/src/wallet/agent_wallet.rs: AgentWallet, which numbers, dates and signs the
-- transactions that it builds.
pub mod Payload
pub mod Signing
pub mod Accounts
pub mod Tasks
pub mod Tools
pub mod Usage
pub mod Subscriptions
pub mod Agreements
pub mod Contracts
pub mod Tokens
mod Tests
use zincha_sdk.Base.{
  ℕ, zero, ◌+◌, ◌%◌, ◌^◌, max, not, Option, none, some, if◌then◌else◌, replicate, ◌==◌, nat_eq,
  list_eq, option_eq, Result, ok, err, ◌>>◌, fail_if,
}
use zincha_sdk.Crypto.Bytes.{Bytes, Text, Address, Hash256, zero_hash}
use zincha_sdk.Crypto.Hash.{Crypto, to_address}
use zincha_sdk.Transaction.Kind.{TxType}
use zincha_sdk.Transaction.Body.{
  Transaction, SignedTransaction, has_explicit_validity_window, set_validity_window, tx_hash,
  verify_signed,
}

-- What the wallet calls: hashes and keys, `bincode`, and its signer, a TransactionSigner.
pub record Backend : Type 0 where
  pub crypto : Crypto
  pub serialize : Transaction → Bytes
  pub public_key : Bytes
  pub sign_transaction : Transaction → Hash256 → Option Bytes

-- Address::zero
abbrev pub zero_address : Address
zero_address = replicate 20 0

-- struct AgentWallet, without its signer and the addresses of services
pub record AgentWallet : Type 0 where
  pub chain_id : Text
  pub nonce : ℕ
  pub tx_validity_window : Option (ℕ × Hash256 × ℕ)
  pub timestamp_ms : Option ℕ

pub data WalletError : Type 0 where
  wrong_sender signer_failed unverified : WalletError

-- AgentWallet::from_signer
unfoldable pub new_wallet : Text → AgentWallet
new_wallet chain_id = record {
  chain_id = chain_id;
  nonce = 0;
  tx_validity_window = none;
  timestamp_ms = none;
}

unfoldable pub set_transaction_validity_window : ℕ → Hash256 → ℕ → AgentWallet → AgentWallet
set_transaction_validity_window height hash ttl_blocks w = record w {
  tx_validity_window = some (height, hash, max ttl_blocks 1);
}

unfoldable pub set_timestamp_ms : ℕ → AgentWallet → AgentWallet
set_timestamp_ms timestamp_ms w = record w { timestamp_ms = some timestamp_ms }

unfoldable pub clear_timestamp_ms : AgentWallet → AgentWallet
clear_timestamp_ms w = record w { timestamp_ms = none }

unfoldable pub set_nonce : ℕ → AgentWallet → AgentWallet
set_nonce nonce w = record w { nonce = nonce }

-- `self.nonce += 1`
unfoldable pub next_nonce : AgentWallet → AgentWallet
next_nonce w = record w { nonce = (w.nonce + 1) % 2 ^ 64 }

-- the clock where no timestamp is set
unfoldable pub transaction_timestamp_ms : ℕ → AgentWallet → ℕ
transaction_timestamp_ms now_ms w = elim w.timestamp_ms [ none ↦ now_ms | some t ↦ t ]

-- What the builders choose; the rest of a transaction is the same in all of them.
pub record Draft : Type 0 where
  pub tx_type : TxType
  pub recipient : Address
  pub amount : ℕ
  pub fee : ℕ
  pub max_priority_fee_per_gas : ℕ
  pub payload : Bytes

-- the window that the wallet adds where the transaction has none
abbrev pub in_window : Option (ℕ × Hash256 × ℕ) → Transaction → Transaction
in_window none tx = tx
in_window (some (height, hash, ttl_blocks)) tx =
    if has_explicit_validity_window tx then tx else set_validity_window height hash ttl_blocks tx

abbrev pub or_signer_failed : Option Bytes → Result WalletError Bytes
or_signer_failed none = err signer_failed
or_signer_failed (some signature) = ok signature

abbrev pub or_unverified {κ} : {E : Type κ} → Result E (Unit {0}) → Result WalletError (Unit {0})
or_unverified (ok u) = ok u
or_unverified (err e) = err unverified

module _ (b : Backend) where
  unfoldable pub address : Address
  address = to_address b.crypto b.public_key

  abbrev pub signed_with : Transaction → Bytes → SignedTransaction
  signed_with tx signature = record {
    transaction = tx;
    signature = signature;
    public_key = b.public_key;
    hash = tx_hash b.crypto b.serialize tx;
  }

  -- `signed_tx.verify()?`
  abbrev pub verified : SignedTransaction → Result WalletError SignedTransaction
  verified signed = or_unverified (verify_signed b.crypto b.serialize signed) >> ok signed

  abbrev pub verified_with :
      Transaction → Result WalletError Bytes → Result WalletError SignedTransaction
  verified_with tx (err e) = err e
  verified_with tx (ok signature) = verified (signed_with tx signature)

  -- `sign_transaction`, of a transaction in its window
  unfoldable pub sign_in_window : Transaction → Result WalletError SignedTransaction
  sign_in_window tx =
      fail_if (not (tx.sender == address)) wrong_sender
      >> verified_with tx
          (or_signer_failed (b.sign_transaction tx (tx_hash b.crypto b.serialize tx)))

  unfoldable pub sign_transaction : AgentWallet → Transaction → Result WalletError SignedTransaction
  sign_transaction w tx = sign_in_window (in_window w.tx_validity_window tx)

  -- the transaction that every builder makes, of what it chooses
  unfoldable pub transaction_of : Draft → ℕ → AgentWallet → Transaction
  unfolding address transaction_timestamp_ms
  transaction_of d now_ms w = record {
    tx_type = d.tx_type;
    sender = address;
    recipient = d.recipient;
    amount = d.amount;
    fee = d.fee;
    max_priority_fee_per_gas = d.max_priority_fee_per_gas;
    nonce = w.nonce;
    timestamp = transaction_timestamp_ms now_ms w;
    reference_block_height = 0;
    reference_block_hash = zero_hash;
    max_valid_block_height = 0;
    payload = d.payload;
    chain_id = w.chain_id;
  }

  -- A builder: at a time, the wallet that it leaves, with its nonce spent, and what it returns.
  abbrev pub Build : Type 0
  Build = ℕ → AgentWallet → AgentWallet × Result WalletError SignedTransaction

  unfoldable pub submit : Draft → Build
  unfolding sign_transaction transaction_of next_nonce
  submit d now_ms w = (next_nonce w, sign_transaction w (transaction_of d now_ms w))
