-- ===== src/Wallet/Subscriptions.antt =====
-- agent_wallet.rs: the builders of tool subscriptions.
use zincha_sdk.Base.{ℕ, Bool, nat_eq, list_eq, option_eq}
use zincha_sdk.Crypto.Bytes.{Bytes, Hash256}
use zincha_sdk.Transaction.Kind.{TxType}
use zincha_sdk.Wallet.{Backend, Build, zero_address, submit}
use zincha_sdk.Wallet.Payload.{
  ToolSubscriptionCancelData, ToolSubscriptionRenewData, ToolSubscriptionResumeData,
  ToolSubscriptionStartData, ToolSubscriptionTopUpData, Payload, of_tool_subscription_cancel,
  of_tool_subscription_renew, of_tool_subscription_resume, of_tool_subscription_start,
  of_tool_subscription_top_up,
}

module _ (b : Backend) (encode : Payload → Bytes) where
  unfoldable pub build_start_tool_subscription : Hash256 → ℕ → Bool → ℕ → Build b
  build_start_tool_subscription plan_id reserve_amount auto_renew fee =
      let sent : ToolSubscriptionStartData = record {
        plan_id = plan_id;
        reserve_amount = reserve_amount;
        auto_renew = auto_renew;
      } in
      submit b (record {
        tx_type = TxType.tool_subscription_start;
        recipient = zero_address;
        amount = 0;
        fee = fee;
        max_priority_fee_per_gas = 0;
        payload = encode (of_tool_subscription_start sent);
      })

  unfoldable pub build_top_up_tool_subscription : Hash256 → ℕ → ℕ → Build b
  build_top_up_tool_subscription subscription_id amount fee =
      let sent : ToolSubscriptionTopUpData = record {
        subscription_id = subscription_id;
        amount = amount;
      } in
      submit b (record {
        tx_type = TxType.tool_subscription_top_up;
        recipient = zero_address;
        amount = 0;
        fee = fee;
        max_priority_fee_per_gas = 0;
        payload = encode (of_tool_subscription_top_up sent);
      })

  unfoldable pub build_cancel_tool_subscription : Hash256 → ℕ → Build b
  build_cancel_tool_subscription subscription_id fee =
      let sent : ToolSubscriptionCancelData = record { subscription_id = subscription_id } in
      submit b (record {
        tx_type = TxType.tool_subscription_cancel;
        recipient = zero_address;
        amount = 0;
        fee = fee;
        max_priority_fee_per_gas = 0;
        payload = encode (of_tool_subscription_cancel sent);
      })

  unfoldable pub build_resume_tool_subscription_with_reserve : Hash256 → ℕ → ℕ → Build b
  build_resume_tool_subscription_with_reserve subscription_id reserve_amount fee =
      let sent : ToolSubscriptionResumeData = record {
        subscription_id = subscription_id;
        reserve_amount = reserve_amount;
      } in
      submit b (record {
        tx_type = TxType.tool_subscription_resume;
        recipient = zero_address;
        amount = 0;
        fee = fee;
        max_priority_fee_per_gas = 0;
        payload = encode (of_tool_subscription_resume sent);
      })

  unfoldable pub build_renew_tool_subscription : Hash256 → ℕ → Build b
  build_renew_tool_subscription subscription_id fee =
      let sent : ToolSubscriptionRenewData = record { subscription_id = subscription_id } in
      submit b (record {
        tx_type = TxType.tool_subscription_renew;
        recipient = zero_address;
        amount = 0;
        fee = fee;
        max_priority_fee_per_gas = 0;
        payload = encode (of_tool_subscription_renew sent);
      })

  unfoldable pub build_resume_tool_subscription : Hash256 → ℕ → Build b
  build_resume_tool_subscription subscription_id fee =
      build_resume_tool_subscription_with_reserve subscription_id 0 fee
