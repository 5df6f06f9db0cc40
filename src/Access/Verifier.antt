-- ===== src/Access/Verifier.antt =====
-- tool.rs: ToolVerifier::verify.
pub mod Checks
pub mod Once
use zincha_sdk.Base.{
  ℕ, not, ◌&&◌, ◌||◌, Option, none, some, ltb, if◌then◌else◌, length, sat_sub, ◌==◌, nat_eq,
  list_eq, option_eq, Result, ok, err, ◌>>=◌, ◌>>◌, fail_if,
}
use zincha_sdk.Crypto.Bytes.{Bytes, Address, Hash256}
use zincha_sdk.Crypto.Hash.{
  Crypto, CryptoError, hash_bytes, public_key_from_bytes, verify, to_address,
}
use zincha_sdk.Access.Token.{AccessToken, ToolAccessRequest, signable_bytes}
use zincha_sdk.Access.Chain.{ChainVerifier}
use zincha_sdk.Access.Replay.{ReplayStore}

pub data ToolVerifyError : Type 0 where
  chain_verification_failed : Hash256 → ToolVerifyError
  invalid_invoker_proof : ToolVerifyError
  wrong_tool : (expected got : Hash256) → ToolVerifyError
  insufficient_payment : (paid required : ℕ) → ToolVerifyError
  already_consumed : Hash256 → ToolVerifyError
  replay_detected : Hash256 → ToolVerifyError
  expired : (issued_at max_age_ms : ℕ) → ToolVerifyError

-- struct ToolVerifier, without the replay store, whose state `check_replay` passes on
pub record ToolVerifier : Type 0 where
  pub tool_id : Hash256
  pub chain_verifier : ChainVerifier
  pub max_age_ms : ℕ
  pub min_price : ℕ

-- ToolVerifier::new, with_max_age_ms and with_min_price
unfoldable pub new_verifier : Hash256 → ChainVerifier → ToolVerifier
new_verifier tool_id chain_verifier = record {
  tool_id = tool_id;
  chain_verifier = chain_verifier;
  max_age_ms = 3600000;
  min_price = 0;
}

unfoldable pub with_max_age_ms : ℕ → ToolVerifier → ToolVerifier
with_max_age_ms ms v = record v { max_age_ms = ms }

unfoldable pub with_min_price : ℕ → ToolVerifier → ToolVerifier
with_min_price price_micro_zin v = record v { min_price = price_micro_zin }

-- `.map_err(|_| ToolVerifyError::InvalidInvokerProof)`
abbrev pub or_invalid_proof {ℓ} : {A : Type ℓ} → Result CryptoError A → Result ToolVerifyError A
or_invalid_proof (ok a) = ok a
or_invalid_proof (err e) = err invalid_invoker_proof

-- the consumed check
abbrev pub check_unconsumed : Option Hash256 → Result ToolVerifyError (Unit {0})
check_unconsumed none = ok tt
check_unconsumed (some task_id) = err (already_consumed task_id)

-- checks 1 and 2 of `verify`: the chain, and the tool
unfoldable pub check_claims : ToolVerifier → AccessToken → Result ToolVerifyError (Unit {0})
check_claims v token = do
  fail_if (not (v.chain_verifier.verify_access_token token))
      (chain_verification_failed token.token_id)
  fail_if (not (token.tool_id == v.tool_id)) (wrong_tool v.tool_id token.tool_id)

-- checks 4 to 6: the payment floor, the consumption, the age at the time `now_ms`
unfoldable pub check_limits : ToolVerifier → ℕ → AccessToken → Result ToolVerifyError (Unit {0})
check_limits v now_ms token = do
  fail_if (ltb 0 v.min_price && ltb token.amount_paid v.min_price)
      (insufficient_payment token.amount_paid v.min_price)
  check_unconsumed (v.chain_verifier.get_consumed_by token.token_id)
  fail_if (ltb 0 v.max_age_ms && ltb v.max_age_ms (sat_sub now_ms token.issued_at))
      (expired token.issued_at v.max_age_ms)

-- check 7: the claim of a token id, once the other checks passed
unfoldable pub claim_token :
    {S : Type 0}
    → ReplayStore S
    → Hash256
    → Result ToolVerifyError (Unit {0})
    → S
    → Result ToolVerifyError (Unit {0}) × S
claim_token store token_id (err e) s = (err e, s)
claim_token store token_id (ok _) s =
    let (first, s') = store.try_use token_id s in
    (if first then ok tt else err (replay_detected token_id), s')

module _ (c : Crypto) where
  -- check 3: the presenter is the payer
  unfoldable pub check_invoker : ToolAccessRequest → Result ToolVerifyError (Unit {0})
  unfolding public_key_from_bytes verify to_address hash_bytes signable_bytes
  check_invoker request =
      let token = request.token in
      let token_hash = hash_bytes c (signable_bytes token) in
      do
        fail_if
            (not (length request.invoker_proof == 64) || not (length request.invoker_pubkey == 32))
            invalid_invoker_proof
        invoker_pk ← or_invalid_proof (public_key_from_bytes c request.invoker_pubkey)
        fail_if (not (to_address c invoker_pk == token.invoker)) invalid_invoker_proof
        or_invalid_proof (verify c invoker_pk token_hash request.invoker_proof)

  -- the checks of `verify` without a side effect
  unfoldable pub check_request :
      ToolVerifier → ℕ → ToolAccessRequest → Result ToolVerifyError (Unit {0})
  unfolding check_claims check_invoker check_limits
  check_request v now_ms request = do
    check_claims v request.token
    check_invoker request
    check_limits v now_ms request.token

  -- The whole of `verify`: the outcome, and the state of the replay store after it.
  unfoldable pub verify_request :
      {S : Type 0}
      → ReplayStore S
      → ToolVerifier
      → ℕ
      → ToolAccessRequest
      → S
      → Result ToolVerifyError (Unit {0}) × S
  unfolding check_request claim_token
  verify_request store v now_ms request s =
      claim_token store request.token.token_id (check_request v now_ms request) s
