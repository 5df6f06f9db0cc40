-- ===== src/Validator/Vrf/Honest.antt =====
-- validator.rs: the check of a contribution against the validator's key, and what it binds.
use zincha_sdk.Base.{
  ℕ, ◌≡◌, refl, sym, ap, ◌∙◌, ◌↔◌, inl, inr, true, ◌++◌, arith, length, length-append, IsU64,
  nat_eq, ==_iff, list_eq, option_eq, ok, Result-cases,
}
use zincha_sdk.Crypto.Bytes.{Bytes, Text, Address, Hash256, to_le_bytes}
use zincha_sdk.Crypto.Bytes.Encoding.{++-cancel, le_bytes-cancel, length-le_bytes}
use zincha_sdk.Crypto.Hash.{Crypto, hash_bytes, verify, length-hash_bytes}
use zincha_sdk.Validator.Vrf.{
  ValidatorVrfContributionData, validate_contribution, expected_output_from_proof, output_domain,
  proof_domain, proof_signable_bytes, verify_for_validator,
}
use zincha_sdk.Validator.Vrf.Reveal.{IsContribution, validate_contribution_iff}

-- The signed bytes tell the chain, the validator, the epoch and the seed, for addresses of 20 bytes,
-- seeds of 32 and epochs below 2^64. Only the chain's name has no fixed length, so the whole length
-- gives it.
proof_signable_bytes-injective :
    (chain chain' : Text) (validator validator' : Address) (epoch epoch' : ℕ) (seed seed' : Hash256)
    → length validator ≡ 20
    → length validator' ≡ 20
    → IsU64 epoch
    → IsU64 epoch'
    → length seed ≡ 32
    → length seed' ≡ 32
    → proof_signable_bytes chain validator epoch seed
      ≡ proof_signable_bytes chain' validator' epoch' seed'
    → (chain ≡ chain') × (validator ≡ validator') × (epoch ≡ epoch') × (seed ≡ seed')
unfolding proof_signable_bytes
proof_signable_bytes-injective chain chain' validator validator' epoch epoch' seed seed' v v' u u' s
      s' e =
    let (_, rest) = ++-cancel proof_domain proof_domain refl e in
    let tail = validator ++ (to_le_bytes epoch ++ seed) in
    let tail' = validator' ++ (to_le_bytes epoch' ++ seed') in
    let whole : length (chain ++ tail) ≡ length (chain' ++ tail') = ap length rest in
    let sizes : length chain ≡ length chain' = omega (
      arith,
      length-append chain tail,
      length-append chain' tail',
      length-append validator (to_le_bytes epoch ++ seed),
      length-append validator' (to_le_bytes epoch' ++ seed'),
      length-append (to_le_bytes epoch) seed,
      length-append (to_le_bytes epoch') seed',
      length-le_bytes 8 epoch,
      length-le_bytes 8 epoch',
    ) in
    let (chains, rest) = ++-cancel chain chain' sizes rest in
    let (validators, rest) = ++-cancel validator validator' (v ∙ sym v') rest in
    let (epochs, seeds) = le_bytes-cancel 8 epoch epoch' (omega arith) (omega arith) rest in
    (chains, validators, epochs, seeds)

module _ (c : Crypto) (chain_id : Text) (validator : Address) (public_key : Bytes)
    (seed : Hash256) where
  -- the output that a proof gives
  abbrev pub output_of : ℕ → Bytes → Bytes
  output_of epoch proof = hash_bytes c (
      output_domain
      ++ (public_key ++ (chain_id ++ (validator ++ (to_le_bytes epoch ++ (seed ++ proof))))))

  expected_iff :
      (epoch : ℕ) (proof out : Bytes)
      → (expected_output_from_proof c public_key chain_id validator epoch seed proof ≡ ok out)
        ↔ ((length proof ≡ 64) × (output_of epoch proof ≡ out))
  unfolding expected_output_from_proof
  expected_iff epoch proof out = ground arith

  -- A contribution passes exactly if it is within the bounds, its proof is a signature of 64 bytes,
  -- by the given public key, of the domain, the chain, the validator's address, the epoch in 8 bytes and
  -- the seed in this order, and its output is the hash of the output domain, the key, the chain, the
  -- address, the epoch, the seed and the proof. So a proof leaves one output only.
  pub verify_for_validator_iff :
      (d : ValidatorVrfContributionData)
      → (verify_for_validator c d chain_id validator public_key seed ≡ ok tt) ↔ (
          IsContribution d
          × (length d.vrf_proof ≡ 64)
          × (c.check public_key
                (proof_domain ++ (chain_id ++ (validator ++ (to_le_bytes d.target_epoch ++ seed))))
                d.vrf_proof
              ≡ true)
          × (d.vrf_output
              ≡ hash_bytes c (
                  output_domain
                  ++ (public_key
                      ++ (chain_id
                          ++ (validator
                              ++ (to_le_bytes d.target_epoch ++ (seed ++ d.vrf_proof))))))))
  unfolding verify_for_validator expected_output_from_proof verify proof_signable_bytes
  verify_for_validator_iff d =
      let out = output_of d.target_epoch d.vrf_proof in
      elim (Result-cases (validate_contribution d)) [
        | inl (_, e) ↦ ground (arith, validate_contribution_iff d, ==_iff d.vrf_output out)
        | inr (x, e) ↦ ground (arith, validate_contribution_iff d)
      ]

-- A validator who signs the bytes of an epoch with its key makes a contribution that passes.
pub signed-verifies :
    (c : Crypto) (chain_id : Text) (validator : Address) (secret : Bytes) (seed : Hash256)
    (epoch : ℕ)
    → (d : ValidatorVrfContributionData) × (d.target_epoch ≡ epoch)
      × (d.vrf_proof ≡ c.sign secret (proof_signable_bytes chain_id validator epoch seed))
      × (verify_for_validator c d chain_id validator (c.verifying_key secret) seed ≡ ok tt)
unfolding proof_signable_bytes
signed-verifies c chain_id validator secret seed epoch =
    let m = proof_signable_bytes chain_id validator epoch seed in
    let proof = c.sign secret m in
    let out = output_of c chain_id validator (c.verifying_key secret) seed epoch proof in
    let d : ValidatorVrfContributionData = record {
      target_epoch = epoch;
      vrf_output = out;
      vrf_proof = proof;
    } in
    let out_size : length out ≡ 32 = length-hash_bytes c _ in
    let proof_size = c.length-sign secret m in
    (
      d,
      refl,
      refl,
      (verify_for_validator_iff c chain_id validator (c.verifying_key secret) seed d).1 (
        (omega arith, omega arith, omega arith, omega arith),
        proof_size,
        c.check-sign secret m,
        refl,
      ),
    )
