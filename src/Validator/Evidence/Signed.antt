-- ===== src/Validator/Evidence/Signed.antt =====
-- validator.rs: signed evidence verifies, and its signed bytes tell the evidence.
use zincha_sdk.Base.{
  ℕ, ◌^◌, ◌<◌, ◌≡◌, refl, sym, ◌∙◌, ◌≢◌, some, ◌∷◌, ◌++◌, arith, length, IsU64, nat_eq, ==_refl,
  list_eq, option_eq, ok,
}
use zincha_sdk.Crypto.Bytes.{Bytes, Hash256}
use zincha_sdk.Crypto.Bytes.Encoding.{++-cancel, le_bytes-cancel}
use zincha_sdk.Crypto.Hash.{Crypto, verify, to_address}
use zincha_sdk.Validator.Evidence.{
  SignedValidatorVrfEvidence, signed_commit, signed_contribution, rank, evidence_domain,
  commit_signable_bytes, contribution_signable_bytes, validator, signed_bytes, new_commit,
  new_contribution, verify_signature, commit_payload, contribution_payload,
}

module _ (c : Crypto) where
  -- Evidence made with a key passes the check of its signature, whichever kind it is, and its
  -- payload is what it was made from.
  new-verifies :
      (secret : Bytes) (epoch : ℕ) (commitment : Hash256) (out proof : Bytes)
      → (verify_signature c (new_commit c secret epoch commitment) ≡ ok tt)
        × (verify_signature c (new_contribution c secret epoch out proof) ≡ ok tt)
        × (commit_payload (new_commit c secret epoch commitment)
            ≡ some (record { target_epoch = epoch; commitment = commitment }))
        × (contribution_payload (new_contribution c secret epoch out proof)
            ≡ some (record { target_epoch = epoch; vrf_output = out; vrf_proof = proof }))
  unfolding verify_signature new_commit new_contribution commit_payload contribution_payload
      validator signed_bytes verify
  new-verifies secret epoch commitment out proof =
      let address = to_address c (c.verifying_key secret) in
      (rw (==_refl address, c.check-sign) refl, rw (==_refl address, c.check-sign) refl, refl, refl)

-- The fields of a piece of evidence have the sizes of their types.
abbrev pub IsSized : SignedValidatorVrfEvidence → Type 0
IsSized (signed_commit v e h k s) = (length v ≡ 20) × IsU64 e × (length h ≡ 32) × (length k ≡ 32)
IsSized (signed_contribution v e out proof k s) =
    (length v ≡ 20) × IsU64 e × (length out < 256 ^ 4) × (length proof < 256 ^ 4) × (length k ≡ 32)

-- the same statement by the same key, whatever the signature
abbrev pub SameStatement : SignedValidatorVrfEvidence → SignedValidatorVrfEvidence → Type 0
SameStatement (signed_commit v e h k s) (signed_commit v' e' h' k' s') =
    (v ≡ v') × (e ≡ e') × (h ≡ h') × (k ≡ k')
SameStatement (signed_contribution v e o p k s) (signed_contribution v' e' o' p' k' s') =
    (v ≡ v') × (e ≡ e') × (o ≡ o') × (p ≡ p') × (k ≡ k')
SameStatement _ _ = ⊥

after-domain :
    {us vs : Bytes} {m n : ℕ}
    → evidence_domain ++ (m ∷ us) ≡ evidence_domain ++ (n ∷ vs)
    → (m ≡ n) × (us ≡ vs)
after-domain {us} {vs} {m} {n} eq =
    let tails = (++-cancel evidence_domain evidence_domain {us = m ∷ us} {vs = n ∷ vs} refl eq).1 in
    (cc, cc)

zero≢suc : ◌≢◌ {A = ℕ} 0 1
zero≢suc e = omega arith

-- Two pieces of evidence with equal signed bytes make the same statement: a signature of a
-- commitment is none of a contribution, and no field can be changed under it. The fields have the
-- sizes of their types, with outputs and proofs shorter than 2^32 bytes.
pub signed_bytes-injective :
    (a b : SignedValidatorVrfEvidence)
    → IsSized a
    → IsSized b
    → signed_bytes a ≡ signed_bytes b
    → SameStatement a b
unfolding signed_bytes commit_signable_bytes contribution_signable_bytes rank
signed_bytes-injective (signed_commit v e h k s) (signed_commit v' e' h' k' s') (a, b, d, f)
      (a', b', d', f') eq =
    let (epochs, rest) = le_bytes-cancel 8 e e' (omega arith) (omega arith) (after-domain eq).1 in
    let (validators, rest) = ++-cancel v v' (a ∙ sym a') rest in
    let (hashes, keys) = ++-cancel h h' (d ∙ sym d') rest in (validators, epochs, hashes, keys)
signed_bytes-injective (signed_commit v e h k s) (signed_contribution v' e' o' p' k' s') x y eq =
    absurd (zero≢suc (after-domain eq).0)
signed_bytes-injective (signed_contribution v e o p k s) (signed_commit v' e' h' k' s') x y eq =
    absurd (zero≢suc (sym (after-domain eq).0))
signed_bytes-injective (signed_contribution v e o p k s) (signed_contribution v' e' o' p' k' s')
      (a, b, d, f, g) (a', b', d', f', g') eq =
    let (epochs, rest) = le_bytes-cancel 8 e e' (omega arith) (omega arith) (after-domain eq).1 in
    let (validators, rest) = ++-cancel v v' (a ∙ sym a') rest in
    let (sizes, rest) = le_bytes-cancel 4 (length o) (length o') d d' rest in
    let (outputs, rest) = ++-cancel o o' sizes rest in
    let (sizes, rest) = le_bytes-cancel 4 (length p) (length p') f f' rest in
    let (proofs, keys) = ++-cancel p p' sizes rest in (validators, epochs, outputs, proofs, keys)
