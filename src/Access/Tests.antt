-- ===== src/Access/Tests.antt =====
-- tool.rs on a token, its receipt and the requests made with it.
use zincha_sdk.Base.{
  ◌≡◌, ◌↔◌, refl, arith, true, none, [], ◌∷◌, replicate, ok, err, distinct, nat_eq, list_eq, inr,
}
use zincha_sdk.Crypto.Bytes.{Bytes}
use zincha_sdk.Crypto.Toy.{toy_crypto}
use zincha_sdk.Crypto.Hash.{to_address}
use zincha_sdk.Access.Token.{
  AccessToken, AccessTokenReceipt, ToolAccessRequest, from_token, new_request,
}
use zincha_sdk.Access.Token.Encoding.{IsReceipt, canonical_bytes-injective}
use zincha_sdk.Access.Chain.{add_token, empty_chain, as_chain_verifier}
use zincha_sdk.Access.Replay.{in_memory_replay_store, try_use_in_memory}
use zincha_sdk.Access.Verifier.{ToolVerifier, new_verifier, verify_request, expired}
use zincha_sdk.Access.Verifier.Checks.{IsInvoker, IsCurrent}
use zincha_sdk.Access.Verifier.Once.{serve, serve-distinct, verify_request_iff}

abbrev secret : Bytes
secret = replicate 32 9

abbrev token : AccessToken
token = record {
  tool_id = replicate 32 1;
  invoker = replicate 20 9;
  token_id = replicate 32 2;
  block_number = 5;
  amount_paid = 100;
  issued_at = 1000;
  nonce = 3;
  block_hash = replicate 32 4;
  consumed_by = none;
}

abbrev verifier : ToolVerifier
verifier = new_verifier (replicate 32 1) (as_chain_verifier (add_token token empty_chain))

abbrev request : ToolAccessRequest
request = new_request toy_crypto token secret

serve-distinct_example :
    distinct
      (serve toy_crypto in_memory_replay_store verifier ((1500, request) ∷ (1600, request) ∷ []) [])
    ≡ true
serve-distinct_example =
    serve-distinct toy_crypto in_memory_replay_store verifier
      ((1500, request) ∷ (1600, request) ∷ []) []

-- the first of the two is served
first_served :
    serve toy_crypto in_memory_replay_store verifier ((1500, request) ∷ (1600, request) ∷ []) []
    ≡ replicate 32 2 ∷ []
unfolding serve verify_request new_verifier as_chain_verifier add_token new_request empty_chain
    try_use_in_memory
first_served = refl

verify_request_iff_example :
    ((verify_request toy_crypto in_memory_replay_store verifier 1500 request []).0 ≡ ok tt) ↔ (
      IsInvoker toy_crypto request
      × IsCurrent verifier 1500 request.token
      × ((in_memory_replay_store.try_use request.token.token_id []).0 ≡ true))
verify_request_iff_example =
    verify_request_iff toy_crypto in_memory_replay_store verifier 1500 request []

token-IsCurrent : IsCurrent verifier 1500 token
unfolding new_verifier as_chain_verifier add_token empty_chain
token-IsCurrent = (refl, refl, omega arith, refl, inr (omega arith))

unused : (in_memory_replay_store.try_use (replicate 32 2) []).0 ≡ true
unfolding try_use_in_memory
unused = refl

payer : token.invoker ≡ to_address toy_crypto (toy_crypto.verifying_key secret)
unfolding to_address
payer = refl

-- too late
late :
    (verify_request toy_crypto in_memory_replay_store verifier 9999999 request []).0
    ≡ err (expired 1000 3600000)
unfolding verify_request new_verifier as_chain_verifier add_token new_request empty_chain
late = refl

abbrev receipt : AccessTokenReceipt
receipt = from_token token

receipt-IsReceipt : IsReceipt receipt
unfolding from_token
receipt-IsReceipt = (refl, refl, refl, omega arith, omega arith, omega arith, omega arith)

canonical_bytes-injective_example : receipt ≡ receipt
canonical_bytes-injective_example =
    canonical_bytes-injective receipt receipt receipt-IsReceipt receipt-IsReceipt refl
