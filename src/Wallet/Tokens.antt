-- ===== src/Wallet/Tokens.antt =====
-- agent_wallet.rs: the builders of tokens.
use zincha_sdk.Base.{ℕ, Bool, Option, none, some, nat_eq, list_eq, option_eq}
use zincha_sdk.Crypto.Bytes.{Bytes, Text, Address, Hash256}
use zincha_sdk.Transaction.Kind.{TxType}
use zincha_sdk.Wallet.{Backend, Build, zero_address, submit}
use zincha_sdk.Wallet.Payload.{
  TokenApproveData, TokenBurnData, TokenMintData, TokenCreateData, TokenTransferData,
  TokenUpdateAuthorityData, Payload, of_token_approve, of_token_burn, of_token_mint,
  of_token_create, of_token_transfer, of_token_update_authority,
}

module _ (b : Backend) (encode : Payload → Bytes) where
  unfoldable pub build_transfer_token : Hash256 → Address → ℕ → ℕ → Build b
  build_transfer_token token_id to amount fee =
      let sent : TokenTransferData = record { token_id = token_id; to = to; amount = amount } in
      submit b (record {
        tx_type = TxType.token_transfer;
        recipient = to;
        amount = 0;
        fee = fee;
        max_priority_fee_per_gas = 0;
        payload = encode (of_token_transfer sent);
      })

  unfoldable pub build_approve_token : Hash256 → Address → ℕ → ℕ → Build b
  build_approve_token token_id spender amount fee =
      let sent : TokenApproveData = record {
        token_id = token_id;
        spender = spender;
        amount = amount;
      } in
      submit b (record {
        tx_type = TxType.token_approve;
        recipient = spender;
        amount = 0;
        fee = fee;
        max_priority_fee_per_gas = 0;
        payload = encode (of_token_approve sent);
      })

  unfoldable pub build_mint_token : Hash256 → Address → ℕ → ℕ → Build b
  build_mint_token token_id to amount fee =
      let sent : TokenMintData = record { token_id = token_id; to = to; amount = amount } in
      submit b (record {
        tx_type = TxType.token_mint;
        recipient = to;
        amount = 0;
        fee = fee;
        max_priority_fee_per_gas = 0;
        payload = encode (of_token_mint sent);
      })

  unfoldable pub build_update_token_mint_authority : Hash256 → Option Address → ℕ → Build b
  build_update_token_mint_authority token_id mint_authority fee =
      let sent : TokenUpdateAuthorityData = record {
        token_id = token_id;
        mint_authority = mint_authority;
      } in
      submit b (record {
        tx_type = TxType.token_update_authority;
        recipient = zero_address;
        amount = 0;
        fee = fee;
        max_priority_fee_per_gas = 0;
        payload = encode (of_token_update_authority sent);
      })

  unfoldable pub build_burn_token : Hash256 → ℕ → ℕ → Build b
  build_burn_token token_id amount fee =
      let sent : TokenBurnData = record { token_id = token_id; amount = amount } in
      submit b (record {
        tx_type = TxType.token_burn;
        recipient = zero_address;
        amount = 0;
        fee = fee;
        max_priority_fee_per_gas = 0;
        payload = encode (of_token_burn sent);
      })

  unfoldable pub build_destroy_token : Hash256 → ℕ → Build b
  build_destroy_token token_id fee = submit b (record {
    tx_type = TxType.token_destroy;
    recipient = zero_address;
    amount = 0;
    fee = fee;
    max_priority_fee_per_gas = 0;
    payload = token_id;
  })

  -- the `match` on the mint authority and the maximum supply
  unfoldable pub max_supply_of : Option Address → Option ℕ → ℕ → ℕ
  max_supply_of none none initial_supply = initial_supply
  max_supply_of _ (some explicit_max_supply) initial_supply = explicit_max_supply
  max_supply_of _ none initial_supply = 0

  unfoldable pub build_create_token :
      Text → Text → ℕ → ℕ → Option ℕ → Option Address → Bool → Bytes → ℕ → Build b
  unfolding max_supply_of
  build_create_token name symbol decimals initial_supply max_supply mint_authority burnable metadata
        fee =
      let sent : TokenCreateData = record {
        name = name;
        symbol = symbol;
        decimals = decimals;
        initial_supply = initial_supply;
        max_supply = max_supply_of mint_authority max_supply initial_supply;
        burnable = burnable;
        mint_authority = mint_authority;
        metadata = metadata;
      } in
      submit b (record {
        tx_type = TxType.token_create;
        recipient = zero_address;
        amount = 0;
        fee = fee;
        max_priority_fee_per_gas = 0;
        payload = encode (of_token_create sent);
      })
