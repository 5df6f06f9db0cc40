-- ===== src/Wallet/Tools.antt =====
-- agent_wallet.rs: the builders of tools and their jobs.
use zincha_sdk.Base.{ℕ, Bool, none, some, List, [], nat_eq, list_eq, option_eq}
use zincha_sdk.Crypto.Bytes.{Bytes, Text, Hash256}
use zincha_sdk.Job.{ToolMilestoneDef}
use zincha_sdk.Transaction.Kind.{TxType}
use zincha_sdk.Wallet.{Backend, Build, zero_address, submit}
use zincha_sdk.Wallet.Payload.{
  ToolInvokeData, ToolJobExpireData, ToolResultAcceptData, ToolResultDisputeData,
  ToolResultResolveData, ToolResultSubmitData, Payload, of_tool_invoke, of_tool_job_expire,
  of_tool_result_accept, of_tool_result_dispute, of_tool_result_resolve, of_tool_result_submit,
}

-- DEFAULT_CONTRACT_TOOL_GAS_LIMIT
abbrev pub default_contract_tool_gas_limit : ℕ
default_contract_tool_gas_limit = 400000

module _ (b : Backend) (encode : Payload → Bytes) where
  unfoldable pub build_purchase_tool_access : Hash256 → Bytes → ℕ → Build b
  build_purchase_tool_access tool_id input_data fee =
      let sent : ToolInvokeData = record {
        tool_id = tool_id;
        input_data = input_data;
        max_metered_units = none;
        gas_limit = default_contract_tool_gas_limit;
        milestones = [];
      } in
      submit b (record {
        tx_type = TxType.tool_invoke;
        recipient = zero_address;
        amount = 0;
        fee = fee;
        max_priority_fee_per_gas = 0;
        payload = encode (of_tool_invoke sent);
      })

  unfoldable pub build_invoke_tool : Hash256 → Bytes → ℕ → Build b
  build_invoke_tool tool_id input_data fee =
      let sent : ToolInvokeData = record {
        tool_id = tool_id;
        input_data = input_data;
        max_metered_units = none;
        gas_limit = default_contract_tool_gas_limit;
        milestones = [];
      } in
      submit b (record {
        tx_type = TxType.tool_invoke;
        recipient = zero_address;
        amount = 0;
        fee = fee;
        max_priority_fee_per_gas = 0;
        payload = encode (of_tool_invoke sent);
      })

  unfoldable pub build_invoke_metered_tool : Hash256 → Bytes → ℕ → ℕ → Build b
  build_invoke_metered_tool tool_id input_data max_metered_units fee =
      let sent : ToolInvokeData = record {
        tool_id = tool_id;
        input_data = input_data;
        max_metered_units = some max_metered_units;
        gas_limit = default_contract_tool_gas_limit;
        milestones = [];
      } in
      submit b (record {
        tx_type = TxType.tool_invoke;
        recipient = zero_address;
        amount = 0;
        fee = fee;
        max_priority_fee_per_gas = 0;
        payload = encode (of_tool_invoke sent);
      })

  unfoldable pub build_invoke_milestone_tool : Hash256 → Bytes → List ToolMilestoneDef → ℕ → Build b
  build_invoke_milestone_tool tool_id input_data milestones fee =
      let sent : ToolInvokeData = record {
        tool_id = tool_id;
        input_data = input_data;
        max_metered_units = none;
        gas_limit = default_contract_tool_gas_limit;
        milestones = milestones;
      } in
      submit b (record {
        tx_type = TxType.tool_invoke;
        recipient = zero_address;
        amount = 0;
        fee = fee;
        max_priority_fee_per_gas = 0;
        payload = encode (of_tool_invoke sent);
      })

  unfoldable pub build_submit_tool_result : Hash256 → Hash256 → Bytes → ℕ → Build b
  build_submit_tool_result job_id result_hash result_metadata fee =
      let sent : ToolResultSubmitData = record {
        job_id = job_id;
        result_hash = result_hash;
        result_metadata = result_metadata;
        milestone_index = none;
      } in
      submit b (record {
        tx_type = TxType.tool_result_submit;
        recipient = zero_address;
        amount = 0;
        fee = fee;
        max_priority_fee_per_gas = 0;
        payload = encode (of_tool_result_submit sent);
      })

  unfoldable pub build_submit_tool_milestone_result : Hash256 → ℕ → Hash256 → Bytes → ℕ → Build b
  build_submit_tool_milestone_result job_id milestone_index result_hash result_metadata fee =
      let sent : ToolResultSubmitData = record {
        job_id = job_id;
        result_hash = result_hash;
        result_metadata = result_metadata;
        milestone_index = some milestone_index;
      } in
      submit b (record {
        tx_type = TxType.tool_result_submit;
        recipient = zero_address;
        amount = 0;
        fee = fee;
        max_priority_fee_per_gas = 0;
        payload = encode (of_tool_result_submit sent);
      })

  unfoldable pub build_accept_tool_result : Hash256 → ℕ → Build b
  build_accept_tool_result job_id fee =
      let sent : ToolResultAcceptData = record { job_id = job_id; milestone_index = none } in
      submit b (record {
        tx_type = TxType.tool_result_accept;
        recipient = zero_address;
        amount = 0;
        fee = fee;
        max_priority_fee_per_gas = 0;
        payload = encode (of_tool_result_accept sent);
      })

  unfoldable pub build_accept_tool_milestone_result : Hash256 → ℕ → ℕ → Build b
  build_accept_tool_milestone_result job_id milestone_index fee =
      let sent : ToolResultAcceptData = record {
        job_id = job_id;
        milestone_index = some milestone_index;
      } in
      submit b (record {
        tx_type = TxType.tool_result_accept;
        recipient = zero_address;
        amount = 0;
        fee = fee;
        max_priority_fee_per_gas = 0;
        payload = encode (of_tool_result_accept sent);
      })

  unfoldable pub build_dispute_tool_result : Hash256 → Text → ℕ → Build b
  build_dispute_tool_result job_id reason fee =
      let sent : ToolResultDisputeData = record {
        job_id = job_id;
        reason = reason;
        milestone_index = none;
      } in
      submit b (record {
        tx_type = TxType.tool_result_dispute;
        recipient = zero_address;
        amount = 0;
        fee = fee;
        max_priority_fee_per_gas = 0;
        payload = encode (of_tool_result_dispute sent);
      })

  unfoldable pub build_dispute_tool_milestone_result : Hash256 → ℕ → Text → ℕ → Build b
  build_dispute_tool_milestone_result job_id milestone_index reason fee =
      let sent : ToolResultDisputeData = record {
        job_id = job_id;
        reason = reason;
        milestone_index = some milestone_index;
      } in
      submit b (record {
        tx_type = TxType.tool_result_dispute;
        recipient = zero_address;
        amount = 0;
        fee = fee;
        max_priority_fee_per_gas = 0;
        payload = encode (of_tool_result_dispute sent);
      })

  unfoldable pub build_resolve_tool_result : Hash256 → Bool → Text → ℕ → Build b
  build_resolve_tool_result job_id provider_wins reason fee =
      let sent : ToolResultResolveData = record {
        job_id = job_id;
        provider_wins = provider_wins;
        reason = reason;
        milestone_index = none;
      } in
      submit b (record {
        tx_type = TxType.tool_result_resolve;
        recipient = zero_address;
        amount = 0;
        fee = fee;
        max_priority_fee_per_gas = 0;
        payload = encode (of_tool_result_resolve sent);
      })

  unfoldable pub build_resolve_tool_milestone_result : Hash256 → ℕ → Bool → Text → ℕ → Build b
  build_resolve_tool_milestone_result job_id milestone_index provider_wins reason fee =
      let sent : ToolResultResolveData = record {
        job_id = job_id;
        provider_wins = provider_wins;
        reason = reason;
        milestone_index = some milestone_index;
      } in
      submit b (record {
        tx_type = TxType.tool_result_resolve;
        recipient = zero_address;
        amount = 0;
        fee = fee;
        max_priority_fee_per_gas = 0;
        payload = encode (of_tool_result_resolve sent);
      })

  unfoldable pub build_expire_tool_job : Hash256 → ℕ → Build b
  build_expire_tool_job job_id fee =
      let sent : ToolJobExpireData = record { job_id = job_id } in
      submit b (record {
        tx_type = TxType.tool_job_expire;
        recipient = zero_address;
        amount = 0;
        fee = fee;
        max_priority_fee_per_gas = 0;
        payload = encode (of_tool_job_expire sent);
      })

  unfoldable pub build_deregister_tool : Hash256 → ℕ → Build b
  build_deregister_tool tool_id fee = submit b (record {
    tx_type = TxType.tool_deregister;
    recipient = zero_address;
    amount = 0;
    fee = fee;
    max_priority_fee_per_gas = 0;
    payload = tool_id;
  })
