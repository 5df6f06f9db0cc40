-- ===== src/Wallet/Usage.antt =====
-- agent_wallet.rs: the builders of metered tool usage.
use zincha_sdk.Base.{ℕ, Bool, nat_eq, list_eq, option_eq}
use zincha_sdk.Crypto.Bytes.{Bytes, Text, Hash256}
use zincha_sdk.Transaction.Kind.{TxType}
use zincha_sdk.Wallet.{Backend, Build, zero_address, submit}
use zincha_sdk.Wallet.Payload.{
  ToolUsageAcceptData, ToolUsageDisputeData, ToolUsageExpireData, ToolUsageReportData,
  ToolUsageResolveData, Payload, of_tool_usage_accept, of_tool_usage_dispute, of_tool_usage_expire,
  of_tool_usage_report, of_tool_usage_resolve,
}

module _ (b : Backend) (encode : Payload → Bytes) where
  unfoldable pub build_report_tool_usage : Hash256 → ℕ → Hash256 → Bytes → ℕ → Build b
  build_report_tool_usage session_id units_used result_hash result_metadata fee =
      let sent : ToolUsageReportData = record {
        session_id = session_id;
        units_used = units_used;
        result_hash = result_hash;
        result_metadata = result_metadata;
      } in
      submit b (record {
        tx_type = TxType.tool_usage_report;
        recipient = zero_address;
        amount = 0;
        fee = fee;
        max_priority_fee_per_gas = 0;
        payload = encode (of_tool_usage_report sent);
      })

  unfoldable pub build_accept_tool_usage : Hash256 → ℕ → Build b
  build_accept_tool_usage session_id fee =
      let sent : ToolUsageAcceptData = record { session_id = session_id } in
      submit b (record {
        tx_type = TxType.tool_usage_accept;
        recipient = zero_address;
        amount = 0;
        fee = fee;
        max_priority_fee_per_gas = 0;
        payload = encode (of_tool_usage_accept sent);
      })

  unfoldable pub build_dispute_tool_usage : Hash256 → Text → ℕ → Build b
  build_dispute_tool_usage session_id reason fee =
      let sent : ToolUsageDisputeData = record { session_id = session_id; reason = reason } in
      submit b (record {
        tx_type = TxType.tool_usage_dispute;
        recipient = zero_address;
        amount = 0;
        fee = fee;
        max_priority_fee_per_gas = 0;
        payload = encode (of_tool_usage_dispute sent);
      })

  unfoldable pub build_resolve_tool_usage : Hash256 → Bool → Text → ℕ → Build b
  build_resolve_tool_usage session_id provider_wins reason fee =
      let sent : ToolUsageResolveData = record {
        session_id = session_id;
        provider_wins = provider_wins;
        reason = reason;
      } in
      submit b (record {
        tx_type = TxType.tool_usage_resolve;
        recipient = zero_address;
        amount = 0;
        fee = fee;
        max_priority_fee_per_gas = 0;
        payload = encode (of_tool_usage_resolve sent);
      })

  unfoldable pub build_expire_tool_usage : Hash256 → ℕ → Build b
  build_expire_tool_usage session_id fee =
      let sent : ToolUsageExpireData = record { session_id = session_id } in
      submit b (record {
        tx_type = TxType.tool_usage_expire;
        recipient = zero_address;
        amount = 0;
        fee = fee;
        max_priority_fee_per_gas = 0;
        payload = encode (of_tool_usage_expire sent);
      })
