-- ===== src/Transaction/Signed.antt =====
-- transaction.rs: what a signed transaction proves, and the hashes of a batch's operations.
use zincha_sdk.Base.{
  ℕ, ◌%◌, ◌^◌, ◌≡◌, refl, sym, ◌∙◌, ◌↔◌, true, arith, length, IsU64, nat_eq, ==_iff, list_eq,
  option_eq, ok,
}
use zincha_sdk.Crypto.Bytes.{Bytes, Hash256}
use zincha_sdk.Crypto.Bytes.Encoding.{++-cancel, be_bytes-injective}
use zincha_sdk.Crypto.Hash.{Crypto, verify, to_address}
use zincha_sdk.Transaction.Body.{
  Transaction, SignedTransaction, tx_hash, sign, verify_signed, batch_preimage, batch_domain,
}

module _ (c : Crypto) (serialize : Transaction → Bytes) where
  -- A signed transaction passes exactly if its hash is its body's, its key has the sender's address,
  -- and its signature is one of the hash by that key.
  pub verify_signed_iff :
      (s : SignedTransaction)
      → (verify_signed c serialize s ≡ ok tt) ↔ (
          (s.hash ≡ tx_hash c serialize s.transaction)
          × (to_address c s.public_key ≡ s.transaction.sender)
          × (c.check s.public_key s.hash s.signature ≡ true))
  unfolding verify_signed verify
  verify_signed_iff s = ground (
    arith,
    ==_iff (tx_hash c serialize s.transaction) s.hash,
    ==_iff (to_address c s.public_key) s.transaction.sender,
  )

  -- A transaction signed with the key of its sender's address passes, and one signed with the key of
  -- another address is refused.
  sign-verify :
      (secret : Bytes) (t : Transaction)
      → (verify_signed c serialize (sign c serialize secret t) ≡ ok tt)
        ↔ (to_address c (c.verifying_key secret) ≡ t.sender)
  unfolding sign
  sign-verify secret t =
      let all = verify_signed_iff (sign c serialize secret t) in
      (λ e. (all.0 e).1, λ e. all.1 (refl, e, c.check-sign secret (tx_hash c serialize t)))

-- Two operations of batches, each at an index below 2^64, hash the same bytes only if they are one
-- operation of one batch; hashes of batches have 32 bytes.
batch_preimage-injective :
    (h h' : Hash256) (i i' : ℕ)
    → length h ≡ 32
    → length h' ≡ 32
    → IsU64 i
    → IsU64 i'
    → batch_preimage h i ≡ batch_preimage h' i'
    → (h ≡ h') × (i ≡ i')
unfolding batch_preimage
batch_preimage-injective h h' i i' s s' u u' e =
    let (_, rest) = ++-cancel batch_domain batch_domain refl e in
    let (hashes, indexes) = ++-cancel h h' (s ∙ sym s') rest in
    let same =
      be_bytes-injective 8 (i % 2 ^ 64) (i' % 2 ^ 64) (omega arith) (omega arith) indexes in
    (hashes, omega arith)
