-- ===== src/Access/Verifier/Checks.antt =====
-- tool.rs: the checks of ToolVerifier::verify are exactly its conditions for a request, and a request
-- that the payer signs meets those on the signature.
use zincha_sdk.Base.{
  ℕ, ◌-◌, ◌≤◌, ◌≡◌, sym, ◌↔◌, ◌⊎◌, true, none, arith, length, nat_eq, ==_iff, list_eq, option_eq,
  ok,
}
use zincha_sdk.Crypto.Bytes.{Bytes}
use zincha_sdk.Crypto.Hash.{Crypto, hash_bytes, public_key_from_bytes, verify, to_address}
use zincha_sdk.Access.Token.{AccessToken, ToolAccessRequest, signable_bytes, new_request}
use zincha_sdk.Access.Verifier.{
  ToolVerifier, check_claims, check_limits, check_invoker, check_request,
}

-- The token is on the chain, for this tool, unconsumed, paid at the floor or above and young
-- enough, where a floor and an age are set.
abbrev pub IsCurrent : ToolVerifier → ℕ → AccessToken → Type 0
IsCurrent v now_ms t =
    (v.chain_verifier.verify_access_token t ≡ true)
    × (t.tool_id ≡ v.tool_id)
    × (v.min_price ≤ t.amount_paid)
    × (v.chain_verifier.get_consumed_by t.token_id ≡ none)
    × ((v.max_age_ms ≡ 0) ⊎ (now_ms - t.issued_at ≤ v.max_age_ms))

check_claims_iff :
    (v : ToolVerifier) (t : AccessToken)
    → (check_claims v t ≡ ok tt)
      ↔ ((v.chain_verifier.verify_access_token t ≡ true) × (t.tool_id ≡ v.tool_id))
unfolding check_claims
check_claims_iff v t = ground (arith, ==_iff t.tool_id v.tool_id)

check_limits_iff :
    (v : ToolVerifier) (now_ms : ℕ) (t : AccessToken)
    → (check_limits v now_ms t ≡ ok tt) ↔ (
        (v.min_price ≤ t.amount_paid)
        × (v.chain_verifier.get_consumed_by t.token_id ≡ none)
        × ((v.max_age_ms ≡ 0) ⊎ (now_ms - t.issued_at ≤ v.max_age_ms)))
unfolding check_limits
check_limits_iff v now_ms t = ground arith

module _ (c : Crypto) where
  -- The presenter holds the key of the payer: the key is one, its address is the token's invoker,
  -- and the proof is its signature of the token's hash.
  abbrev pub IsInvoker : ToolAccessRequest → Type 0
  IsInvoker r =
      (length r.invoker_proof ≡ 64)
      × (length r.invoker_pubkey ≡ 32)
      × (c.is_key r.invoker_pubkey ≡ true)
      × (to_address c r.invoker_pubkey ≡ r.token.invoker)
      × (c.check r.invoker_pubkey (hash_bytes c (signable_bytes r.token)) r.invoker_proof ≡ true)

  check_invoker_iff : (r : ToolAccessRequest) → (check_invoker c r ≡ ok tt) ↔ IsInvoker r
  unfolding check_invoker public_key_from_bytes verify
  check_invoker_iff r = ground (arith, ==_iff (to_address c r.invoker_pubkey) r.token.invoker)

  -- The checks before the replay store pass exactly for a request of the payer with a token that
  -- the chain confirms, for this tool, at or above the floor, unconsumed and not expired.
  pub check_request_iff :
      (v : ToolVerifier) (now_ms : ℕ) (r : ToolAccessRequest)
      → (check_request c v now_ms r ≡ ok tt) ↔ (IsInvoker r × IsCurrent v now_ms r.token)
  unfolding check_request
  check_request_iff v now_ms r =
      ground
        (arith, check_claims_iff v r.token, check_invoker_iff r, check_limits_iff v now_ms r.token)

  -- A request that the payer makes with the secret of the invoker's address proves the invoker.
  pub new_request-IsInvoker :
      (token : AccessToken) (secret : Bytes)
      → token.invoker ≡ to_address c (c.verifying_key secret)
      → IsInvoker (new_request c token secret)
  unfolding new_request
  new_request-IsInvoker token secret e = (
    c.length-sign secret (hash_bytes c (signable_bytes token)),
    c.length-key secret,
    c.key-is_key secret,
    sym e,
    c.check-sign secret (hash_bytes c (signable_bytes token)),
  )
