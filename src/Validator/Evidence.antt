-- ===== src/Validator/Evidence.antt =====
-- validator.rs: SignedValidatorVrfEvidence, a commitment or a contribution signed by a validator.
pub mod Signed
use zincha_sdk.Base.{
  ℕ, ◌+◌, not, Option, none, some, [], ◌∷◌, ◌++◌, length, ◌==◌, nat_eq, list_eq, option_eq, Result,
  ◌>>=◌, ◌>>◌, fail_if,
}
use zincha_sdk.Crypto.Bytes.{Bytes, Address, Hash256, to_le_bytes, to_le_bytes32}
use zincha_sdk.Crypto.Hash.{Crypto, verify, to_address}
use zincha_sdk.Validator.Vrf.{
  ValidatorVrfCommitData, ValidatorVrfContributionData, VrfError, lift_crypto,
}

pub data ValidatorVrfEvidenceKind : Type 0 where
  commit contribution : ValidatorVrfEvidenceKind

unfoldable pub rank : ValidatorVrfEvidenceKind → ℕ
rank commit = 0
rank contribution = 1

pub data SignedValidatorVrfEvidence : Type 0 where
  signed_commit :
      (validator : Address) (target_epoch : ℕ) (commitment : Hash256) (public_key signature : Bytes)
      → SignedValidatorVrfEvidence
  signed_contribution :
      (validator : Address) (target_epoch : ℕ) (vrf_output vrf_proof public_key signature : Bytes)
      → SignedValidatorVrfEvidence

pub record ValidatorVrfEvidenceKey : Type 0 where
  pub target_epoch : ℕ
  pub kind : ValidatorVrfEvidenceKind
  pub validator : Address

-- b"zincha_validator_vrf_evidence_v1"
abbrev pub evidence_domain : Bytes
evidence_domain =
    122 ∷ 105 ∷ 110 ∷ 99 ∷ 104 ∷ 97 ∷ 95 ∷ 118 ∷ 97 ∷ 108 ∷ 105 ∷ 100 ∷ 97 ∷ 116 ∷ 111 ∷ 114 ∷ 95
    ∷ 118 ∷ 114 ∷ 102 ∷ 95 ∷ 101 ∷ 118 ∷ 105 ∷ 100 ∷ 101 ∷ 110 ∷ 99 ∷ 101 ∷ 95 ∷ 118 ∷ 49 ∷ []

unfoldable pub commit_signable_bytes : Address → ℕ → Hash256 → Bytes → Bytes
commit_signable_bytes validator target_epoch commitment public_key =
    evidence_domain
    ++ (rank commit ∷ (to_le_bytes target_epoch ++ (validator ++ (commitment ++ public_key))))

unfoldable pub contribution_signable_bytes : Address → ℕ → Bytes → Bytes → Bytes → Bytes
contribution_signable_bytes validator target_epoch vrf_output vrf_proof public_key =
    evidence_domain
    ++ (rank contribution
        ∷ (to_le_bytes target_epoch
            ++ (validator
                ++ (to_le_bytes32 (length vrf_output)
                    ++ (vrf_output
                        ++ (to_le_bytes32 (length vrf_proof) ++ (vrf_proof ++ public_key)))))))

unfoldable pub validator : SignedValidatorVrfEvidence → Address
validator (signed_commit v _ _ _ _) = v
validator (signed_contribution v _ _ _ _ _) = v

unfoldable pub target_epoch : SignedValidatorVrfEvidence → ℕ
target_epoch (signed_commit _ e _ _ _) = e
target_epoch (signed_contribution _ e _ _ _ _) = e

unfoldable pub kind : SignedValidatorVrfEvidence → ValidatorVrfEvidenceKind
kind (signed_commit _ _ _ _ _) = commit
kind (signed_contribution _ _ _ _ _ _) = contribution

unfoldable pub pool_key : SignedValidatorVrfEvidence → ValidatorVrfEvidenceKey
pool_key e = record { target_epoch = target_epoch e; kind = kind e; validator = validator e }

unfoldable pub commit_payload : SignedValidatorVrfEvidence → Option ValidatorVrfCommitData
commit_payload (signed_commit _ e h _ _) = some (record { target_epoch = e; commitment = h })
commit_payload (signed_contribution _ _ _ _ _ _) = none

unfoldable pub contribution_payload :
    SignedValidatorVrfEvidence → Option ValidatorVrfContributionData
contribution_payload (signed_contribution _ e out proof _ _) =
    some (record { target_epoch = e; vrf_output = out; vrf_proof = proof })
contribution_payload (signed_commit _ _ _ _ _) = none

-- what the signature of a piece of evidence signs, and the key and the signature that it carries
unfoldable pub signed_bytes : SignedValidatorVrfEvidence → Bytes
signed_bytes (signed_commit v e h k s) = commit_signable_bytes v e h k
signed_bytes (signed_contribution v e out proof k s) = contribution_signable_bytes v e out proof k

abbrev pub key_of : SignedValidatorVrfEvidence → Bytes
key_of (signed_commit v e h k s) = k
key_of (signed_contribution v e out proof k s) = k

abbrev pub signature_of : SignedValidatorVrfEvidence → Bytes
signature_of (signed_commit v e h k s) = s
signature_of (signed_contribution v e out proof k s) = s

module _ (c : Crypto) where
  -- SignedValidatorVrfEvidence::new_commit, with the secret of the key pair
  unfoldable pub new_commit : Bytes → ℕ → Hash256 → SignedValidatorVrfEvidence
  new_commit secret e h =
      let k = c.verifying_key secret in
      let v = to_address c k in
      signed_commit v e h k (c.sign secret (commit_signable_bytes v e h k))

  -- SignedValidatorVrfEvidence::new_contribution
  unfoldable pub new_contribution : Bytes → ℕ → Bytes → Bytes → SignedValidatorVrfEvidence
  new_contribution secret e out proof =
      let k = c.verifying_key secret in
      let v = to_address c k in
      signed_contribution v e out proof k
        (c.sign secret (contribution_signable_bytes v e out proof k))

  -- `verify_signature`, whose two arms differ in the bytes that are signed
  unfoldable pub verify_signature : SignedValidatorVrfEvidence → Result VrfError (Unit {0})
  verify_signature ev = do
    fail_if (not (to_address c (key_of ev) == validator ev)) VrfError.invalid_signature
    lift_crypto (verify c (key_of ev) (signed_bytes ev) (signature_of ev))
