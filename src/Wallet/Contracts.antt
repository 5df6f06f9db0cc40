-- ===== src/Wallet/Contracts.antt =====
-- agent_wallet.rs: the builders of contracts.
use zincha_sdk.Base.{ℕ, nat_eq, list_eq, option_eq}
use zincha_sdk.Crypto.Bytes.{Bytes, Text, Address}
use zincha_sdk.Transaction.Kind.{TxType}
use zincha_sdk.Wallet.{Backend, Build, zero_address, submit}
use zincha_sdk.Wallet.Payload.{
  ContractCallData, ContractDeployData, ContractRouteCallData, ContractRouteUpdateData, Payload,
  of_contract_call, of_contract_deploy, of_contract_route_call, of_contract_route_update,
}

module _ (b : Backend) (encode : Payload → Bytes) where
  unfoldable pub build_deploy_contract : Bytes → ℕ → ℕ → Build b
  build_deploy_contract bytecode initial_balance fee =
      let sent : ContractDeployData = record { bytecode = bytecode } in
      submit b (record {
        tx_type = TxType.contract_deploy;
        recipient = zero_address;
        amount = initial_balance;
        fee = fee;
        max_priority_fee_per_gas = 0;
        payload = encode (of_contract_deploy sent);
      })

  unfoldable pub build_call_contract : Address → Text → Bytes → ℕ → ℕ → ℕ → Build b
  build_call_contract contract_address function args call_value gas_limit fee =
      let sent : ContractCallData = record {
        contract_address = contract_address;
        function = function;
        args = args;
        gas_limit = gas_limit;
      } in
      submit b (record {
        tx_type = TxType.contract_call;
        recipient = contract_address;
        amount = call_value;
        fee = fee;
        max_priority_fee_per_gas = 0;
        payload = encode (of_contract_call sent);
      })

  unfoldable pub build_call_contract_route : Address → Text → Text → Bytes → ℕ → ℕ → ℕ → Build b
  build_call_contract_route deployer route_name function args call_value gas_limit fee =
      let sent : ContractRouteCallData = record {
        deployer = deployer;
        route_name = route_name;
        function = function;
        args = args;
        gas_limit = gas_limit;
      } in
      submit b (record {
        tx_type = TxType.contract_route_call;
        recipient = zero_address;
        amount = call_value;
        fee = fee;
        max_priority_fee_per_gas = 0;
        payload = encode (of_contract_route_call sent);
      })

  unfoldable pub build_update_contract_route : Text → Address → ℕ → Build b
  build_update_contract_route route_name target_contract_address fee =
      let sent : ContractRouteUpdateData = record {
        route_name = route_name;
        target_contract_address = target_contract_address;
      } in
      submit b (record {
        tx_type = TxType.contract_route_update;
        recipient = zero_address;
        amount = 0;
        fee = fee;
        max_priority_fee_per_gas = 0;
        payload = encode (of_contract_route_update sent);
      })

  unfoldable pub build_deactivate_contract : Address → ℕ → Build b
  build_deactivate_contract contract_address fee = submit b (record {
    tx_type = TxType.contract_deactivate;
    recipient = zero_address;
    amount = 0;
    fee = fee;
    max_priority_fee_per_gas = 0;
    payload = contract_address;
  })
