-- ===== src/Validator/Tests.antt =====
-- validator.rs on concrete updates, contributions and evidence.
use zincha_sdk.Base.{
  ℕ, ◌≡◌, ◌↔◌, ◌++◌, refl, arith, true, none, some, [], ◌∷◌, replicate, ok, nat_eq, length, IsU64,
}
use zincha_sdk.Crypto.Bytes.{Hash256, Bytes, Address}
use zincha_sdk.Crypto.Bytes.{to_le_bytes}
use zincha_sdk.Crypto.Hash.{hash_bytes}
use zincha_sdk.Crypto.Toy.{toy_crypto}
use zincha_sdk.Validator.Services.{ValidatorUpdateData, ValidatorExecutorService}
use zincha_sdk.Validator.Vrf.{
  ValidatorVrfContributionData, verify_for_validator, proof_domain, output_domain,
  ValidatorVrfContributionRecord,
}
use zincha_sdk.Validator.Vrf.Reveal.{IsContribution, commit-reveal}
use zincha_sdk.Validator.Vrf.Honest.{verify_for_validator_iff}
use zincha_sdk.Validator.Evidence.{SignedValidatorVrfEvidence, signed_contribution, signed_bytes}
use zincha_sdk.Validator.Evidence.Signed.{IsSized, SameStatement, signed_bytes-injective}

abbrev service : ℕ → ValidatorExecutorService
service n = record {
  partition_id = n;
  rpc_endpoint = 97 ∷ [];
  executor_public_key = replicate 32 n;
}

abbrev update : ValidatorUpdateData
update = record { executor_services = service 0 ∷ service 3 ∷ []; vrf_public_key = none }

abbrev contribution : ValidatorVrfContributionData
contribution = record { target_epoch = 6; vrf_output = replicate 32 1; vrf_proof = replicate 64 2 }

contribution-IsContribution : IsContribution contribution
contribution-IsContribution = (omega arith, omega arith, omega arith, omega arith)

abbrev validator : Address
validator = replicate 20 9

abbrev revealed : Hash256 → ValidatorVrfContributionRecord
revealed commitment = record {
  validator = validator;
  target_epoch = 6;
  commitment = commitment;
  submitted_in_block = 10;
  revealed_in_block = some 12;
  vrf_output = replicate 32 1;
  vrf_proof = replicate 64 2;
}

abbrev commitment : Hash256
commitment = (commit-reveal toy_crypto contribution validator 10 12 contribution-IsContribution).0

abbrev seed : Hash256
seed = replicate 32 5

verify_for_validator_iff_example :
    (verify_for_validator toy_crypto contribution (122 ∷ []) validator (replicate 32 9) seed
      ≡ ok tt)
    ↔ (IsContribution contribution
        × (length contribution.vrf_proof ≡ 64)
        × (toy_crypto.check
              (replicate 32 9)
              (proof_domain ++ ((122 ∷ []) ++ (validator ++ (to_le_bytes 6 ++ seed))))
              (replicate 64 2)
            ≡ true)
        × (contribution.vrf_output
            ≡ hash_bytes toy_crypto (
                output_domain
                ++ (replicate 32 9
                    ++ ((122 ∷ [])
                        ++ (validator ++ (to_le_bytes 6 ++ (seed ++ replicate 64 2))))))))
verify_for_validator_iff_example =
    verify_for_validator_iff toy_crypto (122 ∷ []) validator (replicate 32 9) seed contribution

abbrev chain : Bytes
chain = 122 ∷ []

abbrev epoch : ℕ
epoch = 6

six : IsU64 epoch
six = omega arith

-- one statement under two signatures
abbrev evidence : Bytes → SignedValidatorVrfEvidence
evidence signature = signed_contribution validator 6 (1 ∷ []) (2 ∷ []) (replicate 32 9) signature

evidence-IsSized : (signature : Bytes) → IsSized (evidence signature)
evidence-IsSized signature = (refl, omega arith, omega arith, omega arith, refl)

same_bytes : signed_bytes (evidence (7 ∷ [])) ≡ signed_bytes (evidence (8 ∷ []))
unfolding signed_bytes
same_bytes = refl

signed_bytes-injective_example : SameStatement (evidence (7 ∷ [])) (evidence (8 ∷ []))
signed_bytes-injective_example =
    signed_bytes-injective (evidence (7 ∷ [])) (evidence (8 ∷ [])) (evidence-IsSized (7 ∷ []))
      (evidence-IsSized (8 ∷ [])) same_bytes
