-- ===== src/Wallet/Accounts.antt =====
-- agent_wallet.rs: the builders of accounts, stakes and validators.
use zincha_sdk.Base.{ℕ, [], nat_eq, list_eq, option_eq}
use zincha_sdk.Crypto.Bytes.{Bytes, Address, Hash256}
use zincha_sdk.Transaction.Kind.{TxType}
use zincha_sdk.Wallet.{Backend, Build, zero_address, submit}
use zincha_sdk.Wallet.Payload.{StakeTarget, Payload, of_rpc_read_delegation_revoke, of_stake_target}

module _ (b : Backend) (encode : Payload → Bytes) where
  unfoldable pub build_transfer : Address → ℕ → ℕ → Build b
  build_transfer recipient amount fee = submit b (record {
    tx_type = TxType.transfer;
    recipient = recipient;
    amount = amount;
    fee = fee;
    max_priority_fee_per_gas = 0;
    payload = [];
  })

  unfoldable pub build_transfer_with_priority_fee : Address → ℕ → ℕ → ℕ → Build b
  build_transfer_with_priority_fee recipient amount fee max_priority_fee_per_gas =
      submit b (record {
        tx_type = TxType.transfer;
        recipient = recipient;
        amount = amount;
        fee = fee;
        max_priority_fee_per_gas = max_priority_fee_per_gas;
        payload = [];
      })

  unfoldable pub build_stake : ℕ → StakeTarget → ℕ → Build b
  build_stake amount target fee = submit b (record {
    tx_type = TxType.stake;
    recipient = zero_address;
    amount = amount;
    fee = fee;
    max_priority_fee_per_gas = 0;
    payload = encode (of_stake_target target);
  })

  unfoldable pub build_requester_auto_match_bond : ℕ → ℕ → Build b
  build_requester_auto_match_bond amount fee = submit b (record {
    tx_type = TxType.stake;
    recipient = zero_address;
    amount = amount;
    fee = fee;
    max_priority_fee_per_gas = 0;
    payload = encode (of_stake_target StakeTarget.requester_auto_match);
  })

  unfoldable pub build_unstake : ℕ → StakeTarget → ℕ → Build b
  build_unstake amount target fee = submit b (record {
    tx_type = TxType.unstake;
    recipient = zero_address;
    amount = amount;
    fee = fee;
    max_priority_fee_per_gas = 0;
    payload = encode (of_stake_target target);
  })

  unfoldable pub build_exit_validator : ℕ → Build b
  build_exit_validator fee = submit b (record {
    tx_type = TxType.validator_exit;
    recipient = zero_address;
    amount = 0;
    fee = fee;
    max_priority_fee_per_gas = 0;
    payload = [];
  })

  unfoldable pub build_deregister_agent : ℕ → Build b
  build_deregister_agent fee = submit b (record {
    tx_type = TxType.agent_deregister;
    recipient = zero_address;
    amount = 0;
    fee = fee;
    max_priority_fee_per_gas = 0;
    payload = [];
  })

  unfoldable pub build_deregister_arbitrator : ℕ → Build b
  build_deregister_arbitrator fee = submit b (record {
    tx_type = TxType.arbitrator_deregister;
    recipient = zero_address;
    amount = 0;
    fee = fee;
    max_priority_fee_per_gas = 0;
    payload = [];
  })

  unfoldable pub build_rpc_read_delegation_revoke : Hash256 → ℕ → Build b
  build_rpc_read_delegation_revoke delegation_id fee = submit b (record {
    tx_type = TxType.rpc_read_delegation_revoke;
    recipient = zero_address;
    amount = 0;
    fee = fee;
    max_priority_fee_per_gas = 0;
    payload = encode (of_rpc_read_delegation_revoke (record { delegation_id = delegation_id }));
  })
