-- ===== src/Access/Token.antt =====
-- tool.rs: AccessToken, AccessTokenReceipt, ToolAccessRequest and their canonical bytes.
pub mod Encoding
use zincha_sdk.Base.{ℕ, ◌+◌, Option, [], ◌∷◌, ◌++◌}
use zincha_sdk.Crypto.Bytes.{Bytes, Address, Hash256, be_bytes, to_be_bytes}
use zincha_sdk.Crypto.Hash.{Crypto, hash_bytes, to_address}

pub record AccessToken : Type 0 where
  pub tool_id : Hash256
  pub invoker : Address
  pub token_id : Hash256
  pub block_number : ℕ
  pub amount_paid : ℕ
  pub issued_at : ℕ
  pub nonce : ℕ
  pub block_hash : Hash256
  pub consumed_by : Option Hash256

pub record AccessTokenReceipt : Type 0 where
  pub token_id : Hash256
  pub tool_id : Hash256
  pub invoker : Address
  pub amount_paid : ℕ
  pub issued_at : ℕ
  pub block_number : ℕ
  pub nonce : ℕ

pub record ToolAccessRequest : Type 0 where
  pub token : AccessToken
  pub invoker_proof : Bytes
  pub invoker_pubkey : Bytes

-- AccessTokenReceipt::from_token
unfoldable pub from_token : AccessToken → AccessTokenReceipt
from_token token = record {
  token_id = token.token_id;
  tool_id = token.tool_id;
  invoker = token.invoker;
  amount_paid = token.amount_paid;
  issued_at = token.issued_at;
  block_number = token.block_number;
  nonce = token.nonce;
}

-- b"ZINCHA_RECEIPT_V1"
abbrev pub canonical_domain_v1 : Bytes
canonical_domain_v1 =
    90 ∷ 73 ∷ 78 ∷ 67 ∷ 72 ∷ 65 ∷ 95 ∷ 82 ∷ 69 ∷ 67 ∷ 69 ∷ 73 ∷ 80 ∷ 84 ∷ 95 ∷ 86 ∷ 49 ∷ []

-- AccessTokenReceipt::canonical_bytes
unfoldable pub canonical_bytes : AccessTokenReceipt → Bytes
unfolding be_bytes
canonical_bytes r =
    canonical_domain_v1
    ++ (r.token_id
        ++ (r.tool_id
            ++ (r.invoker
                ++ (to_be_bytes r.amount_paid
                    ++ (to_be_bytes r.issued_at
                        ++ (to_be_bytes r.block_number ++ to_be_bytes r.nonce))))))

-- AccessToken::signable_bytes
unfoldable pub signable_bytes : AccessToken → Bytes
unfolding be_bytes
signable_bytes t =
    t.tool_id
    ++ (t.invoker
        ++ (t.token_id
            ++ (to_be_bytes t.block_number
                ++ (to_be_bytes t.amount_paid
                    ++ (to_be_bytes t.issued_at ++ to_be_bytes t.nonce)))))

module _ (c : Crypto) where
  -- AccessTokenReceipt::leaf_hash
  unfoldable pub leaf_hash : AccessTokenReceipt → Hash256
  unfolding canonical_bytes
  leaf_hash r = hash_bytes c (canonical_bytes r)

  -- ToolAccessRequest::new, with the secret of the invoker's key pair
  unfoldable pub new_request : AccessToken → Bytes → ToolAccessRequest
  unfolding signable_bytes
  new_request token secret =
      let token_hash = hash_bytes c (signable_bytes token) in
      record {
        token = token;
        invoker_proof = c.sign secret token_hash;
        invoker_pubkey = c.verifying_key secret;
      }
