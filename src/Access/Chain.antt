-- ===== src/Access/Chain.antt =====
-- tool.rs: ChainVerifier, the view of the chain that a tool asks, and HashSetChainVerifier.
use zincha_sdk.Base.{
  Bool, false, not, ◌&&◌, Option, none, some, List, [], ◌∷◌, if◌then◌else◌, ◌==◌, nat_eq, list_eq,
  option_eq,
}
use zincha_sdk.Crypto.Bytes.{Hash256, zero_hash}
use zincha_sdk.Access.Token.{AccessToken}

-- trait ChainVerifier
pub record ChainVerifier : Type 0 where
  pub verify_access_token : AccessToken → Bool
  pub get_consumed_by : Hash256 → Option Hash256

-- A `HashMap`: the entry inserted last for a key is the first one found.
abbrev pub Map {ℓ} : Type ℓ → Type ℓ
Map V = List (Hash256 × V)

unfoldable pub lookup {ℓ} : {V : Type ℓ} → Map V → Hash256 → Option V
lookup [] k = none
lookup ((k', v) ∷ m) k = if k == k' then some v else lookup m k

-- struct HashSetChainVerifier
pub record HashSetChainVerifier : Type 0 where
  pub known_tokens : Map AccessToken
  pub consumptions : Map Hash256

-- HashSetChainVerifier::new
unfoldable pub empty_chain : HashSetChainVerifier
empty_chain = record { known_tokens = []; consumptions = [] }

unfoldable pub add_token : AccessToken → HashSetChainVerifier → HashSetChainVerifier
add_token token v = record v { known_tokens = (token.token_id, token) ∷ v.known_tokens }

unfoldable pub add_consumption : Hash256 → Hash256 → HashSetChainVerifier → HashSetChainVerifier
add_consumption token_id task_id v = record v {
  consumptions = (token_id, task_id) ∷ v.consumptions;
}

-- the conjunction of `verify_access_token`
unfoldable pub agrees : AccessToken → AccessToken → Bool
agrees on_chain token =
    on_chain.block_hash == token.block_hash
    && on_chain.tool_id == token.tool_id
    && on_chain.invoker == token.invoker
    && on_chain.amount_paid == token.amount_paid
    && on_chain.block_number == token.block_number
    && on_chain.issued_at == token.issued_at
    && on_chain.nonce == token.nonce
    && not (on_chain.block_hash == zero_hash)

-- impl ChainVerifier for HashSetChainVerifier
unfoldable pub as_chain_verifier : HashSetChainVerifier → ChainVerifier
unfolding lookup agrees
as_chain_verifier v = record {
  verify_access_token = λ token. elim (lookup v.known_tokens token.token_id) [
    | none ↦ false
    | some on_chain ↦ agrees on_chain token
  ];
  get_consumed_by = lookup v.consumptions;
}
