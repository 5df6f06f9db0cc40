-- ===== src/Subscription/Shutdown.antt =====
-- tool.rs: starting a subscription, and its terminal shutdown.
use zincha_sdk.Base.{
  ℕ, ◌+◌, ◌*◌, ◌<◌, min, ◌≡◌, Bool, true, false, some, arith, u64_max, nat_eq, list_eq, option_eq,
}
use zincha_sdk.Crypto.Bytes.{Address, Hash256}
use zincha_sdk.Subscription.{
  ToolSubscription, ToolSubscriptionPlan, ToolSubscriptionStatus, start_or_restart_from_plan,
  compensating_refund_value, requires_subscription_compatible_tool, is_invoke_usable_at,
  can_accept_reserve_top_up, terminate_for_unrecoverable_service_loss,
}

-- A terminal shutdown refunds the whole reserve, and the restored credits with the restored calls at
-- their value, up to 2^64 - 1. It leaves nothing of either behind, changes only the balances, the
-- renewal, the status and the time of cancellation, and is final: the record is cancelled, grants no
-- invocation and accepts no top-up at any time, needs no tool any more, and a second shutdown refunds
-- nothing and changes nothing.
pub terminate_final :
    (now_ms later call_value : ℕ) (s : ToolSubscription)
    → let (t, o) = terminate_for_unrecoverable_service_loss now_ms call_value s in
      let (u, o') = terminate_for_unrecoverable_service_loss later call_value t in
      (o.reserve_refund ≡ s.reserved_balance)
      × (o.compensation_refund
          ≡ min (s.compensating_credits + call_value * s.compensating_calls) u64_max)
      × (t ≡ record s {
        reserved_balance = 0;
        compensating_calls = 0;
        compensating_credits = 0;
        auto_renew = false;
        status = ToolSubscriptionStatus.cancelled;
        cancelled_at = t.cancelled_at;
      })
      × (is_invoke_usable_at later t ≡ false)
      × (can_accept_reserve_top_up t ≡ false)
      × (requires_subscription_compatible_tool t ≡ false)
      × (o'.reserve_refund ≡ 0)
      × (o'.compensation_refund ≡ 0)
      × (u ≡ t)
unfolding terminate_for_unrecoverable_service_loss is_invoke_usable_at can_accept_reserve_top_up
    requires_subscription_compatible_tool compensating_refund_value
terminate_final now_ms later call_value s = ground arith

-- A slot that is started again keeps the restored value of its earlier life, and begins a fresh paid
-- period that is usable from now until it ends.
restart-keeps :
    (old : ToolSubscription) (id : Hash256) (plan : ToolSubscriptionPlan) (who : Address)
    (now_ms at now_block reserve : ℕ) (auto_renew : Bool) (deposit : ℕ)
    → let t =
        start_or_restart_from_plan
          (some old)
          id
          plan
          who
          now_ms
          now_block
          reserve
          auto_renew
          deposit in
      (t.compensating_calls ≡ old.compensating_calls)
      × (t.compensating_credits ≡ old.compensating_credits)
      × (t.reserved_balance ≡ reserve)
      × (t.remaining_calls ≡ plan.included_calls)
      × (t.remaining_credits ≡ plan.included_credits)
      × (at < min (now_ms + plan.period_ms) u64_max → is_invoke_usable_at at t ≡ true)
unfolding start_or_restart_from_plan is_invoke_usable_at
restart-keeps old id plan who now_ms at now_block reserve auto_renew deposit = ground arith
