-- ===== src/Wallet/Tests.antt =====
-- agent_wallet.rs on a concrete wallet.
use zincha_sdk.Base.{◌+◌, ◌^◌, ◌%◌, ◌<◌, ◌≡◌, refl, arith, none, some, [], ◌∷◌, All, replicate, ok}
use zincha_sdk.Crypto.Bytes.{Bytes}
use zincha_sdk.Crypto.Toy.{toy_crypto}
use zincha_sdk.Transaction.Kind.{transfer}
use zincha_sdk.Transaction.Body.{Transaction, SignedTransaction, verify_signed}
use zincha_sdk.Wallet.{Backend, AgentWallet, Draft, address, submit, next_nonce}
use zincha_sdk.Wallet.Signing.{
  submit-verifies, Session-nonces, keypair-submits, window_end, window_start, AreRising, built,
  idle,
}

abbrev secret : Bytes
secret = replicate 32 9

abbrev payload_bytes : Transaction → Bytes
payload_bytes t = t.payload

-- a wallet of a key pair
abbrev backend : Backend
backend = record {
  crypto = toy_crypto;
  serialize = payload_bytes;
  public_key = toy_crypto.verifying_key secret;
  sign_transaction = λ t h. some (toy_crypto.sign secret h);
}

abbrev wallet : AgentWallet
wallet = record { chain_id = 122 ∷ []; nonce = 4; tx_validity_window = none; timestamp_ms = none }

abbrev draft : Draft
draft = record {
  tx_type = transfer;
  recipient = replicate 20 7;
  amount = 25;
  fee = 3;
  max_priority_fee_per_gas = 0;
  payload = [];
}

keypair-submits_example :
    (s : SignedTransaction) × (submit backend draft 1000 wallet ≡ (next_nonce wallet, ok s))
keypair-submits_example = keypair-submits backend secret refl (λ t h. refl) draft 1000 wallet

abbrev signed :
    (s : SignedTransaction) × (submit backend draft 1000 wallet ≡ (next_nonce wallet, ok s))
signed = keypair-submits backend secret refl (λ t h. refl) draft 1000 wallet

abbrev VerifiesAs : SignedTransaction → AgentWallet → Type 0
VerifiesAs s w =
    let t = s.transaction in
    (verify_signed backend.crypto backend.serialize s ≡ ok tt)
    × (t.sender ≡ address backend)
    × (t.chain_id ≡ wallet.chain_id)
    × (t.tx_type ≡ draft.tx_type)
    × (t.recipient ≡ draft.recipient)
    × (t.amount ≡ draft.amount)
    × (t.fee ≡ draft.fee)
    × (t.payload ≡ draft.payload)
    × (t.max_valid_block_height ≡ window_end backend none)
    × (t.nonce ≡ 4)
    × (w.nonce ≡ (4 + 1) % 2 ^ 64)
    × (t.max_priority_fee_per_gas ≡ draft.max_priority_fee_per_gas)
    × (t.timestamp ≡ 1000)
    × ((t.reference_block_height, t.reference_block_hash) ≡ window_start backend none)
    × (w ≡ record wallet { nonce = w.nonce })

submit-verifies_example : VerifiesAs signed.0 (next_nonce wallet)
submit-verifies_example = submit-verifies backend draft 1000 wallet signed.1

one_built : 4 + 1 < 2 ^ 64
one_built = omega arith

Session-nonces_example :
    AreRising backend 4 (signed.0 ∷ [])
    × All
        (λ s.
          (verify_signed backend.crypto backend.serialize s ≡ ok tt)
          × (s.transaction.sender ≡ address backend))
        (signed.0 ∷ [])
Session-nonces_example = Session-nonces backend (built draft 1000 signed.1 idle) one_built
