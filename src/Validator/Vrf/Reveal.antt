-- ===== src/Validator/Vrf/Reveal.antt =====
-- validator.rs: a commitment is revealed by what it was made from.
use zincha_sdk.Base.{
  ℕ, ◌≤◌, ◌≡◌, refl, ◌↔◌, inl, inr, false, some, [], ◌∷◌, arith, leb, length, nat_eq, ==_refl,
  ==_iff, list_eq, option_eq, ok, Result-cases,
}
use zincha_sdk.Crypto.Bytes.{Bytes, Address, Hash256, is_empty}
use zincha_sdk.Crypto.Hash.{Crypto, hash_bytes}
use zincha_sdk.Validator.Vrf.{
  ValidatorVrfContributionData, ValidatorVrfContributionRecord, validate_contribution,
  commitment_preimage, commitment_hash, committed_only, is_revealed, reveal,
}

-- The bounds of a contribution: an output of 1 to 128 bytes and a proof of 1 to 512.
abbrev pub IsContribution : ValidatorVrfContributionData → Type 0
IsContribution d =
    (1 ≤ length d.vrf_output)
    × (length d.vrf_output ≤ 128)
    × (1 ≤ length d.vrf_proof)
    × (length d.vrf_proof ≤ 512)

is_empty-length : (t : Bytes) → is_empty t ≡ leb (length t) 0
is_empty-length [] = refl
is_empty-length (x ∷ t) = ground arith

pub validate_contribution_iff :
    (d : ValidatorVrfContributionData) → (validate_contribution d ≡ ok tt) ↔ IsContribution d
unfolding validate_contribution
validate_contribution_iff d =
    ground (arith, is_empty-length d.vrf_output, is_empty-length d.vrf_proof)

module _ (c : Crypto) where
  -- A record of a commitment takes a reveal exactly if the contribution is within the bounds and
  -- hashes to the commitment. Then it keeps the validator, the epoch, the commitment and the block
  -- of the commitment, and holds the block of the reveal, the output and the proof.
  pub reveal_iff :
      (r r' : ValidatorVrfContributionRecord) (d : ValidatorVrfContributionData) (block : ℕ)
      → (reveal c r d block ≡ ok r') ↔ (
          IsContribution d
          × (hash_bytes c (commitment_preimage d) ≡ r.commitment)
          × (r' ≡ record r {
            revealed_in_block = some block;
            vrf_output = d.vrf_output;
            vrf_proof = d.vrf_proof;
          }))
  unfolding reveal commitment_hash
  reveal_iff r r' d block =
      let hash = hash_bytes c (commitment_preimage d) in
      elim (Result-cases (validate_contribution d)) [
        | inl (_, e) ↦ ground (arith, validate_contribution_iff d, ==_iff hash r.commitment)
        | inr (x, e) ↦ ground (arith, validate_contribution_iff d)
      ]

  -- A contribution within the bounds is committed and then revealed: its commitment hash exists,
  -- the record made from that hash is not revealed, and it takes the reveal.
  pub commit-reveal :
      (d : ValidatorVrfContributionData) (validator : Address) (committed_at revealed_at : ℕ)
      → IsContribution d
      → (commitment : Hash256) × (commitment_hash c d ≡ ok commitment)
        × (is_revealed (committed_only validator d.target_epoch commitment committed_at) ≡ false)
        × (reveal c (committed_only validator d.target_epoch commitment committed_at) d revealed_at
            ≡ ok (record {
              validator = validator;
              target_epoch = d.target_epoch;
              commitment = commitment;
              submitted_in_block = committed_at;
              revealed_in_block = some revealed_at;
              vrf_output = d.vrf_output;
              vrf_proof = d.vrf_proof;
            }))
  unfolding reveal commitment_hash is_revealed committed_only
  commit-reveal d validator committed_at revealed_at within =
      let commitment = hash_bytes c (commitment_preimage d) in
      let valid = (validate_contribution_iff d).1 within in
      (commitment, rw valid refl, refl, rw (valid, ==_refl commitment) refl)

  -- Two byte strings of one hash.
  abbrev pub Collision : Type 0
  Collision = (m : Bytes) × (m' : Bytes) × (¬ (m ≡ m')) × (hash_bytes c m ≡ hash_bytes c m')
