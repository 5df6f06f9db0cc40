-- ===== src/Wallet/Signing.antt =====
-- agent_wallet.rs: what the wallet signs, and the nonces of the transactions that it builds.
use zincha_sdk.Base.{
  ℕ, suc, ◌+◌, ◌%◌, ◌^◌, ◌≤◌, ◌<◌, max, ◌≡◌, refl, sym, ap, ◌∙◌, inl, inr, true, false, not, Option,
  none, some, List, [], ◌∷◌, arith, All, sat_add, ◌==◌, nat_eq, ==_iff, list_eq, option_eq, ok, err,
  ◌>>◌, fail_if, fail_if-passed, Result-cases, Option-cases,
}
use zincha_sdk.Crypto.Bytes.{Bytes, Hash256, zero_hash}
use zincha_sdk.Transaction.Body.{
  Transaction, SignedTransaction, has_explicit_validity_window, set_validity_window, tx_hash,
  verify_signed,
}
use zincha_sdk.Transaction.Signed.{verify_signed_iff}
use zincha_sdk.Wallet.{
  Backend, AgentWallet, WalletError, Draft, next_nonce, in_window, or_signer_failed, or_unverified,
  wrong_sender, signed_with, verified, verified_with, address, sign_in_window, sign_transaction,
  transaction_of, set_transaction_validity_window, submit, transaction_timestamp_ms,
}

module _ (b : Backend) where
  verified-ok :
      (t : SignedTransaction) {s : SignedTransaction}
      → verified b t ≡ ok s
      → (s ≡ t) × (verify_signed b.crypto b.serialize t ≡ ok tt)
  verified-ok t h = elim (Result-cases (verify_signed b.crypto b.serialize t)) [
    | inl (u, fine) ↦ let passed = rw fine at h in (cc, fine)
    | inr (e, bad) ↦ let refused = rw bad at h in cc
  ]

  -- what was signed is the transaction, and it verifies
  signed-verifies :
      (tx : Transaction) {s : SignedTransaction}
      → sign_in_window b tx ≡ ok s
      → (s.transaction ≡ tx)
        × (tx.sender ≡ address b)
        × (verify_signed b.crypto b.serialize s ≡ ok tt)
  unfolding sign_in_window
  signed-verifies tx {s = s} h =
      let hash = tx_hash b.crypto b.serialize tx in
      let (same, rest) =
        fail_if-passed (not (tx.sender == address b)) wrong_sender
          (verified_with b tx (or_signer_failed (b.sign_transaction tx hash))) h in
      let sender = (==_iff tx.sender (address b)).0 (ground (arith, same)) in
      elim (Result-cases (or_signer_failed (b.sign_transaction tx hash))) [
        | inl (signature, signed) ↦
            let (whole, fine) = verified-ok (signed_with b tx signature) (rw signed at rest) in
            (
              ap (λ t. t.transaction) whole,
              sender,
              ap (verify_signed b.crypto b.serialize) whole ∙ fine,
            )
        | inr (e, failed) ↦ let refused = rw failed at rest in cc
      ]

  -- the time that a wallet was set to, or the clock's
  abbrev pub set_time : Option ℕ → ℕ → ℕ
  set_time none now_ms = now_ms
  set_time (some timestamp_ms) now_ms = timestamp_ms

  -- the block that the window of the wallet refers to
  abbrev pub window_start : Option (ℕ × Hash256 × ℕ) → ℕ × Hash256
  window_start none = (0, zero_hash)
  window_start (some (height, hash, ttl_blocks)) = (height, hash)

  -- the end of the window that the wallet adds
  abbrev pub window_end : Option (ℕ × Hash256 × ℕ) → ℕ
  window_end none = 0
  window_end (some (height, hash, ttl_blocks)) = sat_add height (max ttl_blocks 1)

  in_window-fields :
      (window : Option (ℕ × Hash256 × ℕ)) (t : Transaction)
      → t.max_valid_block_height ≡ 0
      → t.reference_block_height ≡ 0
      → t.reference_block_hash ≡ zero_hash
      → (in_window window t ≡ record (in_window window t) {
        tx_type = t.tx_type;
        sender = t.sender;
        recipient = t.recipient;
        amount = t.amount;
        fee = t.fee;
        max_priority_fee_per_gas = t.max_priority_fee_per_gas;
        nonce = t.nonce;
        timestamp = t.timestamp;
        payload = t.payload;
        chain_id = t.chain_id;
        reference_block_height = (window_start window).0;
        reference_block_hash = (window_start window).1;
        max_valid_block_height = window_end window;
      })
  unfolding set_validity_window has_explicit_validity_window
  in_window-fields none t h k l = ground (arith, h, k, l)
  in_window-fields (some (height, hash, ttl_blocks)) t h k l =
      let open_ended : not (t.max_valid_block_height == 0) ≡ false = ground (arith, h) in
      rw open_ended refl

  -- A transaction that a builder returns verifies, has the wallet's address and chain, the kind,
  -- recipient, amount, fee, tip and payload that the builder chose, the time that the wallet was set to
  -- or the clock's, and the window of the wallet with the block it refers to; it has the nonce of the
  -- wallet, which is spent, and the wallet keeps the rest.
  pub submit-verifies :
      (d : Draft) (now_ms : ℕ) (w : AgentWallet) {w' : AgentWallet} {s : SignedTransaction}
      → submit b d now_ms w ≡ (w', ok s)
      → let t = s.transaction in
        (verify_signed b.crypto b.serialize s ≡ ok tt)
        × (t.sender ≡ address b)
        × (t.chain_id ≡ w.chain_id)
        × (t.tx_type ≡ d.tx_type)
        × (t.recipient ≡ d.recipient)
        × (t.amount ≡ d.amount)
        × (t.fee ≡ d.fee)
        × (t.payload ≡ d.payload)
        × (t.max_valid_block_height ≡ window_end w.tx_validity_window)
        × (t.nonce ≡ w.nonce)
        × (w'.nonce ≡ (w.nonce + 1) % 2 ^ 64)
        × (t.max_priority_fee_per_gas ≡ d.max_priority_fee_per_gas)
        × (t.timestamp ≡ set_time w.timestamp_ms now_ms)
        × ((t.reference_block_height, t.reference_block_hash) ≡ window_start w.tx_validity_window)
        × (w' ≡ record w { nonce = w'.nonce })
  unfolding submit sign_transaction transaction_of next_nonce transaction_timestamp_ms
  submit-verifies d now_ms w {w' = w'} {s = s} h =
      let tx = transaction_of b d now_ms w in
      let signed : sign_in_window b (in_window w.tx_validity_window tx) ≡ ok s = ap (λ r. r.1) h in
      let left : next_nonce w ≡ w' = ap (λ r. r.0) h in
      let (same, sender, fine) = signed-verifies (in_window w.tx_validity_window tx) signed in
      let whole = same ∙ in_window-fields w.tx_validity_window tx refl refl refl in
      let dated : tx.timestamp ≡ set_time w.timestamp_ms now_ms =
        elim (Option-cases w.timestamp_ms) [
          | inl unset ↦ rw unset refl
          | inr (t, was_set) ↦ rw was_set refl
        ] in
      (
        fine,
        ap (λ t. t.sender) same ∙ sender,
        ap (λ t. t.chain_id) whole,
        ap (λ t. t.tx_type) whole,
        ap (λ t. t.recipient) whole,
        ap (λ t. t.amount) whole,
        ap (λ t. t.fee) whole,
        ap (λ t. t.payload) whole,
        ap (λ t. t.max_valid_block_height) whole,
        ap (λ t. t.nonce) whole,
        sym (ap (λ v. v.nonce) left),
        ap (λ t. t.max_priority_fee_per_gas) whole,
        ap (λ t. t.timestamp) whole ∙ dated,
        ap (λ t. (t.reference_block_height, t.reference_block_hash)) whole,
        sym left ∙ ap (λ v. record w { nonce = v.nonce }) left,
      )

  -- a run of the builders, with what it returns, from one wallet to another; `steps` counts the builds,
  -- those that failed too
  pub data Session : ℕ → AgentWallet → List SignedTransaction → AgentWallet → Type 0 where
    idle : {w : AgentWallet} → Session 0 w [] w
    built :
        {steps : ℕ} {w w' w'' : AgentWallet} {s : SignedTransaction} {rest : List SignedTransaction}
        (d : Draft) (now_ms : ℕ)
        → submit b d now_ms w ≡ (w', ok s)
        → Session steps w' rest w''
        → Session (suc steps) w (s ∷ rest) w''
    failed :
        {steps : ℕ} {w w' w'' : AgentWallet} {rest : List SignedTransaction} {e : WalletError}
        (d : Draft) (now_ms : ℕ)
        → submit b d now_ms w ≡ (w', err e)
        → Session steps w' rest w''
        → Session (suc steps) w rest w''
    windowed :
        {steps : ℕ} {w w'' : AgentWallet} {rest : List SignedTransaction} (height : ℕ)
        (hash : Hash256) (ttl : ℕ)
        → Session steps (set_transaction_validity_window height hash ttl w) rest w''
        → Session steps w rest w''

  -- Nonces rise strictly from a bound.
  abbrev pub AreRising : ℕ → List SignedTransaction → Type 0
  AreRising bound [] = Unit
  AreRising bound (s ∷ rest) =
      (bound ≤ s.transaction.nonce) × AreRising (suc s.transaction.nonce) rest

  rising-weaken : (m n : ℕ) (ss : List SignedTransaction) → m ≤ n → AreRising n ss → AreRising m ss
  rising-weaken m n [] h r = tt
  rising-weaken m n (s ∷ rest) h r = (omega (arith, h, r.0), r.1)

  -- Over any run of builds, failed ones and changes of the validity window among them, that does not
  -- exhaust the nonces, the returned transactions all verify under the wallet's address, with nonces
  -- that rise strictly from the wallet's own: no two have one nonce.
  pub Session-nonces :
      {steps : ℕ} {w w' : AgentWallet} {ss : List SignedTransaction}
      → Session steps w ss w'
      → w.nonce + steps < 2 ^ 64
      → AreRising w.nonce ss
        × All
            (λ s.
              (verify_signed b.crypto b.serialize s ≡ ok tt) × (s.transaction.sender ≡ address b))
            ss
  unfolding submit next_nonce set_transaction_validity_window
  Session-nonces idle h = (tt, tt)
  Session-nonces (built {w = w} {w' = w'} {s = s} {rest = rest} d now_ms eq later) h =
      let facts = submit-verifies d now_ms w eq in
      let stepped : w'.nonce ≡ suc w.nonce = omega (arith, facts.10, h) in
      let (rising, all) = Session-nonces later (omega (arith, stepped, h)) in
      let above =
        rising-weaken (suc s.transaction.nonce) w'.nonce rest (omega (arith, stepped, facts.9))
          rising in
      ((omega (arith, facts.9), above), ((facts.0, facts.1), all))
  Session-nonces (failed {w = w} {w' = w'} {rest = rest} d now_ms eq later) h =
      let left : next_nonce w ≡ w' = ap (λ r. r.0) eq in
      let spent : w'.nonce ≡ (w.nonce + 1) % 2 ^ 64 = sym (ap (λ v. v.nonce) left) in
      let stepped : w'.nonce ≡ suc w.nonce = omega (arith, spent, h) in
      let (rising, all) = Session-nonces later (omega (arith, stepped, h)) in
      (rising-weaken w.nonce w'.nonce rest (omega (arith, stepped)) rising, all)
  Session-nonces (windowed height hash ttl later) h = Session-nonces later h

  signs-in_window :
      (tx : Transaction) (signature : Bytes)
      → (tx.sender == address b) ≡ true
      → b.sign_transaction tx (tx_hash b.crypto b.serialize tx) ≡ some signature
      → verify_signed b.crypto b.serialize (signed_with b tx signature) ≡ ok tt
      → sign_in_window b tx ≡ ok (signed_with b tx signature)
  unfolding sign_in_window
  signs-in_window tx signature sender signs fine =
      ap
        (λ test.
          fail_if (not test) wrong_sender
          >> verified_with b tx
              (or_signer_failed (b.sign_transaction tx (tx_hash b.crypto b.serialize tx))))
        sender
      ∙ ap (λ o. verified_with b tx (or_signer_failed o)) signs
      ∙ ap (λ r. or_unverified r >> ok (signed_with b tx signature)) fine

  -- A wallet whose signer is a key pair never fails to build.
  pub keypair-submits :
      (secret : Bytes)
      → b.public_key ≡ b.crypto.verifying_key secret
      → ((t : Transaction) (h : Hash256) → b.sign_transaction t h ≡ some (b.crypto.sign secret h))
      → (d : Draft) (now_ms : ℕ) (w : AgentWallet)
      → (s : SignedTransaction) × (submit b d now_ms w ≡ (next_nonce w, ok s))
  unfolding submit sign_transaction transaction_of
  keypair-submits secret key signs d now_ms w =
      let tx = in_window w.tx_validity_window (transaction_of b d now_ms w) in
      let hash = tx_hash b.crypto b.serialize tx in
      let s = signed_with b tx (b.crypto.sign secret hash) in
      let sender : tx.sender ≡ address b =
        ap (λ t. t.sender)
          (in_window-fields w.tx_validity_window (transaction_of b d now_ms w) refl refl refl) in
      let checks : b.crypto.check b.public_key hash (b.crypto.sign secret hash) ≡ true =
        ap (λ k. b.crypto.check k hash (b.crypto.sign secret hash)) key
        ∙ b.crypto.check-sign secret hash in
      let fine : verify_signed b.crypto b.serialize s ≡ ok tt =
        (verify_signed_iff b.crypto b.serialize s).1 (refl, sym sender, checks) in
      let whole =
        signs-in_window tx (b.crypto.sign secret hash) ((==_iff tx.sender (address b)).1 sender)
          (signs tx hash) fine in
      (s, ap (λ r. (next_nonce w, r)) whole)
