-- ===== src/Subscription.antt =====
-- crates/zincha-primitives/src/primitives/tool.rs: a subscriber's recurring entitlement to a tool
-- (`ToolSubscription`). A method on `&mut self` returns the new record with its result.
mod Data
pub mod Billing
pub mod CatchUp
pub mod Settled
pub mod Allowance
pub mod Shutdown
mod Tests
use zincha_sdk.Base.{
  ℕ, ◌-◌, ◌/◌, min, Bool, true, false, not, ◌&&◌, ◌||◌, Option, none, some, ltb, leb, if◌then◌else◌,
  u32_max, sat_add, sat_sub, sat_mul, sat_add32, ◌==◌, nat_eq, list_eq, option_eq,
}
pub use Data.*
use zincha_sdk.Crypto.Bytes.{Address, Hash256}

-- what a reused slot carries over: calls, credits, storage deposit
abbrev carried : Option ToolSubscription → ℕ × ℕ × ℕ
carried none = (0, 0, 0)
carried (some s) = (s.compensating_calls, s.compensating_credits, s.storage_deposit)

unfoldable pub start_or_restart_from_plan :
    Option ToolSubscription
    → Hash256
    → ToolSubscriptionPlan
    → Address
    → ℕ
    → ℕ
    → ℕ
    → Bool
    → ℕ
    → ToolSubscription
start_or_restart_from_plan reusable subscription_id plan subscriber now_ms current_block
      reserve_amount auto_renew additional_storage_deposit =
    let kept = carried reusable in
    record {
      subscription_id = subscription_id;
      plan_id = plan.plan_id;
      tool_id = plan.tool_id;
      subscriber = subscriber;
      provider = plan.provider;
      price_per_period = plan.price_per_period;
      period_ms = plan.period_ms;
      included_calls = plan.included_calls;
      included_credits = plan.included_credits;
      overage_policy = plan.overage_policy;
      current_period_start = now_ms;
      current_period_end = sat_add now_ms plan.period_ms;
      next_renewal_at = sat_add now_ms plan.period_ms;
      remaining_calls = plan.included_calls;
      remaining_credits = plan.included_credits;
      compensating_calls = kept.0;
      compensating_credits = kept.1;
      reserved_balance = reserve_amount;
      status = ToolSubscriptionStatus.active;
      auto_renew = auto_renew;
      created_at = now_ms;
      created_at_block = current_block;
      storage_deposit = sat_add kept.2 additional_storage_deposit;
      cancelled_at = none;
    }

abbrev pub is_cancelled : ToolSubscriptionStatus → Bool
is_cancelled ToolSubscriptionStatus.cancelled = true
is_cancelled s = false

abbrev pub is_cancel_requested : ToolSubscriptionStatus → Bool
is_cancel_requested ToolSubscriptionStatus.cancel_requested = true
is_cancel_requested s = false

abbrev pub is_paused : ToolSubscriptionStatus → Bool
is_paused ToolSubscriptionStatus.paused = true
is_paused s = false

abbrev pub is_active_status : ToolSubscriptionStatus → Bool
is_active_status ToolSubscriptionStatus.active = true
is_active_status s = false

abbrev is_past_due : ToolSubscriptionStatus → Bool
is_past_due ToolSubscriptionStatus.past_due = true
is_past_due s = false

unfoldable pub can_accept_reserve_top_up : ToolSubscription → Bool
can_accept_reserve_top_up s =
    is_active_status s.status || is_paused s.status || is_past_due s.status

unfoldable pub is_usable_at : ℕ → ToolSubscription → Bool
is_usable_at now_ms s =
    ltb now_ms s.current_period_end && (is_active_status s.status || is_cancel_requested s.status)

unfoldable pub has_compensating_entitlement : ToolSubscription → Bool
has_compensating_entitlement s = ltb 0 s.compensating_calls || ltb 0 s.compensating_credits

unfoldable pub compensating_refund_value : ℕ → ToolSubscription → ℕ
compensating_refund_value compensating_call_value s =
    sat_add s.compensating_credits (sat_mul compensating_call_value s.compensating_calls)

unfoldable pub requires_subscription_compatible_tool : ToolSubscription → Bool
unfolding has_compensating_entitlement
requires_subscription_compatible_tool s =
    not (is_cancelled s.status) || ltb 0 s.reserved_balance || has_compensating_entitlement s

unfoldable pub is_invoke_usable_at : ℕ → ToolSubscription → Bool
unfolding is_usable_at has_compensating_entitlement
is_invoke_usable_at now_ms s =
    is_usable_at now_ms s || (has_compensating_entitlement s && not (is_paused s.status))

-- the last part of `consume_allowance`, when no call is left
unfoldable pub consume_credits : ℕ → ToolSubscription → ToolSubscription × SubscriptionCoverage
consume_credits tool_price s =
    let from_compensation = min s.compensating_credits tool_price in
    let from_period = min s.remaining_credits (sat_sub tool_price from_compensation) in
    let covered_amount = sat_add from_compensation from_period in
    (
      record s {
        compensating_credits = sat_sub s.compensating_credits from_compensation;
        remaining_credits = sat_sub s.remaining_credits from_period;
      },
      record {
        covered_amount = covered_amount;
        uncovered_amount = sat_sub tool_price covered_amount;
        used_call = false;
      },
    )

abbrev by_call : ℕ → SubscriptionCoverage
by_call tool_price = record { covered_amount = tool_price; uncovered_amount = 0; used_call = true }

unfoldable pub consume_allowance : ℕ → ToolSubscription → ToolSubscription × SubscriptionCoverage
unfolding consume_credits
consume_allowance tool_price s =
    if ltb 0 s.compensating_calls
    then (record s { compensating_calls = s.compensating_calls - 1 }, by_call tool_price)
    else if ltb 0 s.remaining_calls
    then (record s { remaining_calls = s.remaining_calls - 1 }, by_call tool_price)
    else consume_credits tool_price s

unfoldable pub restore_allowance_as_compensation : ℕ → Bool → ToolSubscription → ToolSubscription
restore_allowance_as_compensation covered_amount used_call s =
    if used_call
    then record s { compensating_calls = sat_add32 s.compensating_calls 1 }
    else if ltb 0 covered_amount
    then record s { compensating_credits = sat_add s.compensating_credits covered_amount }
    else s

unfoldable pub terminate_for_unrecoverable_service_loss :
    ℕ → ℕ → ToolSubscription → ToolSubscription × SubscriptionTerminalShutdownOutcome
unfolding compensating_refund_value
terminate_for_unrecoverable_service_loss now_ms compensating_call_value s = (
  record s {
    reserved_balance = 0;
    compensating_calls = 0;
    compensating_credits = 0;
    auto_renew = false;
    status = ToolSubscriptionStatus.cancelled;
    cancelled_at = elim s.cancelled_at [ none ↦ some now_ms | some t ↦ some t ];
  },
  record {
    reserve_refund = s.reserved_balance;
    compensation_refund = compensating_refund_value compensating_call_value s;
  },
)

abbrev no_advance : SubscriptionAdvanceOutcome
no_advance = record { renewed_periods = 0; provider_credit = 0 }

-- `checked_div(period_ms).unwrap_or(0).saturating_add(1)`
unfoldable pub periods_due : ℕ → ToolSubscription → ℕ
periods_due now_ms s =
    let elapsed = sat_sub now_ms s.current_period_end in
    sat_add (if s.period_ms == 0 then 0 else elapsed / s.period_ms) 1

unfoldable pub affordable_periods : ℕ → ToolSubscription → ℕ
affordable_periods due s =
    if s.price_per_period == 0 then due else min due (s.reserved_balance / s.price_per_period)

-- `advance_periods` from the point where some period is affordable
unfoldable pub renew : ℕ → ℕ → ToolSubscription → ToolSubscription × SubscriptionAdvanceOutcome
renew due affordable s =
    let total_cost =
      if ltb 0 s.price_per_period then sat_mul s.price_per_period affordable else 0 in
    let period_end = sat_add s.current_period_end (sat_mul s.period_ms affordable) in
    let short = ltb affordable due in
    (
      record s {
        reserved_balance = sat_sub s.reserved_balance total_cost;
        current_period_end = period_end;
        current_period_start = sat_sub period_end s.period_ms;
        next_renewal_at = period_end;
        remaining_calls = if short then 0 else s.included_calls;
        remaining_credits = if short then 0 else s.included_credits;
        status = if short then ToolSubscriptionStatus.past_due else ToolSubscriptionStatus.active;
      },
      record { renewed_periods = min affordable u32_max; provider_credit = total_cost },
    )

-- `advance_periods` after the billing clock of a paused subscription has been set to now
unfoldable pub bill : ℕ → ToolSubscription → ToolSubscription × SubscriptionAdvanceOutcome
unfolding periods_due affordable_periods renew
bill now_ms s =
    let due = periods_due now_ms s in
    let affordable = affordable_periods due s in
    if affordable == 0
    then (
      record s {
        status = ToolSubscriptionStatus.past_due;
        remaining_calls = 0;
        remaining_credits = 0;
      },
      no_advance,
    )
    else renew due affordable s

-- the restart of a paused billing clock
unfoldable pub restart_clock : ℕ → ToolSubscription → ToolSubscription
restart_clock now_ms s =
    if is_paused s.status
    then record s {
      current_period_start = now_ms;
      current_period_end = now_ms;
      next_renewal_at = now_ms;
    }
    else s

unfoldable pub advance_periods :
    ℕ → Bool → ToolSubscription → ToolSubscription × SubscriptionAdvanceOutcome
advance_periods now_ms service_available s =
    if is_cancel_requested s.status && leb s.current_period_end now_ms
    then (record s { status = ToolSubscriptionStatus.cancelled }, no_advance)
    else if ltb now_ms s.current_period_end
    then (s, no_advance)
    else if not s.auto_renew || is_cancel_requested s.status || is_cancelled s.status
    then (record s { status = ToolSubscriptionStatus.cancelled }, no_advance)
    else if not service_available
    then (record s { status = ToolSubscriptionStatus.paused }, no_advance)
    else bill now_ms (restart_clock now_ms s)
