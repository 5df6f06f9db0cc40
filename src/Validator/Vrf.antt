-- ===== src/Validator/Vrf.antt =====
-- validator.rs: the payloads of a validator's contribution to an epoch's randomness, committed first
-- and revealed later, and the record that keeps it.
pub mod Reveal
pub mod Honest
use zincha_sdk.Base.{
  ℕ, zero, ◌+◌, Bool, not, Option, none, some, [], ◌∷◌, ◌++◌, ltb, is_some, length, ◌==◌, nat_eq,
  list_eq, option_eq, Result, ok, err, ◌>>=◌, ◌>>◌, fail_if,
}
use zincha_sdk.Crypto.Bytes.{
  Bytes, Text, Address, Hash256, zero_hash, is_empty, le_bytes, to_le_bytes, to_le_bytes32,
}
use zincha_sdk.Crypto.Hash.{Crypto, CryptoError, hash_bytes, verify}

-- b"zincha_validator_vrf_contribution_v2"
abbrev pub proof_domain : Bytes
proof_domain =
    122 ∷ 105 ∷ 110 ∷ 99 ∷ 104 ∷ 97 ∷ 95 ∷ 118 ∷ 97 ∷ 108 ∷ 105 ∷ 100 ∷ 97 ∷ 116 ∷ 111 ∷ 114 ∷ 95
    ∷ 118 ∷ 114 ∷ 102 ∷ 95 ∷ 99 ∷ 111 ∷ 110 ∷ 116 ∷ 114 ∷ 105 ∷ 98 ∷ 117 ∷ 116 ∷ 105 ∷ 111 ∷ 110
    ∷ 95 ∷ 118 ∷ 50 ∷ []

-- b"zincha_validator_vrf_output_v2"
abbrev pub output_domain : Bytes
output_domain =
    122 ∷ 105 ∷ 110 ∷ 99 ∷ 104 ∷ 97 ∷ 95 ∷ 118 ∷ 97 ∷ 108 ∷ 105 ∷ 100 ∷ 97 ∷ 116 ∷ 111 ∷ 114 ∷ 95
    ∷ 118 ∷ 114 ∷ 102 ∷ 95 ∷ 111 ∷ 117 ∷ 116 ∷ 112 ∷ 117 ∷ 116 ∷ 95 ∷ 118 ∷ 50 ∷ []

-- b"zincha_validator_vrf_commitment_v1"
abbrev pub commitment_domain : Bytes
commitment_domain =
    122 ∷ 105 ∷ 110 ∷ 99 ∷ 104 ∷ 97 ∷ 95 ∷ 118 ∷ 97 ∷ 108 ∷ 105 ∷ 100 ∷ 97 ∷ 116 ∷ 111 ∷ 114 ∷ 95
    ∷ 118 ∷ 114 ∷ 102 ∷ 95 ∷ 99 ∷ 111 ∷ 109 ∷ 109 ∷ 105 ∷ 116 ∷ 109 ∷ 101 ∷ 110 ∷ 116 ∷ 95 ∷ 118
    ∷ 49 ∷ []

-- the messages of ZinchaError::InvalidTransaction, and ZinchaError::InvalidSignature
pub data VrfError : Type 0 where
  commitment_zero output_empty output_too_long proof_empty proof_too_long : VrfError
  proof_not_64_bytes output_mismatch commitment_mismatch invalid_signature : VrfError

pub record ValidatorVrfCommitData : Type 0 where
  pub target_epoch : ℕ
  pub commitment : Hash256

pub record ValidatorVrfContributionData : Type 0 where
  pub target_epoch : ℕ
  pub vrf_output : Bytes
  pub vrf_proof : Bytes

pub record ValidatorVrfContributionRecord : Type 0 where
  pub validator : Address
  pub target_epoch : ℕ
  pub commitment : Hash256
  pub submitted_in_block : ℕ
  pub revealed_in_block : Option ℕ
  pub vrf_output : Bytes
  pub vrf_proof : Bytes

abbrev pub max_validator_vrf_output_bytes : ℕ
max_validator_vrf_output_bytes = 128

abbrev pub max_validator_vrf_proof_bytes : ℕ
max_validator_vrf_proof_bytes = 512

-- ValidatorVrfCommitData::validate
unfoldable pub validate_commit : ValidatorVrfCommitData → Result VrfError (Unit {0})
validate_commit d = fail_if (d.commitment == zero_hash) commitment_zero

-- ValidatorVrfContributionData::validate
unfoldable pub validate_contribution : ValidatorVrfContributionData → Result VrfError (Unit {0})
validate_contribution d = do
  fail_if (is_empty d.vrf_output) output_empty
  fail_if (ltb max_validator_vrf_output_bytes (length d.vrf_output)) output_too_long
  fail_if (is_empty d.vrf_proof) proof_empty
  fail_if (ltb max_validator_vrf_proof_bytes (length d.vrf_proof)) proof_too_long

unfoldable pub proof_signable_bytes : Text → Address → ℕ → Hash256 → Bytes
proof_signable_bytes chain_id validator target_epoch prior_seed =
    proof_domain ++ (chain_id ++ (validator ++ (to_le_bytes target_epoch ++ prior_seed)))

-- what `commitment_hash` hashes
unfoldable pub commitment_preimage : ValidatorVrfContributionData → Bytes
commitment_preimage d =
    commitment_domain
    ++ (to_le_bytes (length d.vrf_output)
        ++ (d.vrf_output ++ (to_le_bytes (length d.vrf_proof) ++ d.vrf_proof)))

-- `PublicKey::verify`, its error as one of this file
abbrev pub lift_crypto : Result CryptoError (Unit {0}) → Result VrfError (Unit {0})
lift_crypto (ok u) = ok u
lift_crypto (err e) = err invalid_signature

-- ValidatorVrfContributionRecord::committed_only
unfoldable pub committed_only : Address → ℕ → Hash256 → ℕ → ValidatorVrfContributionRecord
committed_only validator target_epoch commitment submitted_in_block = record {
  validator = validator;
  target_epoch = target_epoch;
  commitment = commitment;
  submitted_in_block = submitted_in_block;
  revealed_in_block = none;
  vrf_output = [];
  vrf_proof = [];
}

-- ValidatorVrfContributionData::into_record
unfoldable pub into_record :
    ValidatorVrfContributionData → Address → Hash256 → ℕ → ValidatorVrfContributionRecord
into_record d validator commitment submitted_in_block = record {
  validator = validator;
  target_epoch = d.target_epoch;
  commitment = commitment;
  submitted_in_block = submitted_in_block;
  revealed_in_block = some submitted_in_block;
  vrf_output = d.vrf_output;
  vrf_proof = d.vrf_proof;
}

unfoldable pub is_revealed : ValidatorVrfContributionRecord → Bool
is_revealed r = is_some r.revealed_in_block

module _ (c : Crypto) where
  unfoldable pub commitment_hash : ValidatorVrfContributionData → Result VrfError Hash256
  commitment_hash d = do validate_contribution d; ok (hash_bytes c (commitment_preimage d))

  unfoldable pub expected_output_from_proof :
      Bytes → Text → Address → ℕ → Hash256 → Bytes → Result VrfError Bytes
  expected_output_from_proof public_key chain_id validator target_epoch prior_seed vrf_proof = do
    fail_if (not (length vrf_proof == 64)) proof_not_64_bytes
    ok (
        hash_bytes c (
          output_domain
          ++ (public_key
              ++ (chain_id
                  ++ (validator ++ (to_le_bytes target_epoch ++ (prior_seed ++ vrf_proof)))))))

  unfoldable pub verify_for_validator :
      ValidatorVrfContributionData → Text → Address → Bytes → Hash256 → Result VrfError (Unit {0})
  verify_for_validator d chain_id validator public_key prior_seed = do
    validate_contribution d
    fail_if (not (length d.vrf_proof == 64)) proof_not_64_bytes
    let signable = proof_signable_bytes chain_id validator d.target_epoch prior_seed
    lift_crypto (verify c public_key signable d.vrf_proof)
    expected_output ←
        expected_output_from_proof public_key chain_id validator d.target_epoch prior_seed
          d.vrf_proof
    fail_if (not (d.vrf_output == expected_output)) output_mismatch

  -- ValidatorVrfContributionRecord::reveal: the record after it, or the error, with the record kept
  unfoldable pub reveal :
      ValidatorVrfContributionRecord
      → ValidatorVrfContributionData
      → ℕ
      → Result VrfError ValidatorVrfContributionRecord
  reveal r d block = do
    commitment ← commitment_hash d
    fail_if (not (commitment == r.commitment)) commitment_mismatch
    ok (record r {
      revealed_in_block = some block;
      vrf_output = d.vrf_output;
      vrf_proof = d.vrf_proof;
    })
