-- ===== src/Subscription/Tests.antt =====
-- tool.rs on concrete subscriptions.
use zincha_sdk.Base.{
  ℕ, u64_max, ◌+◌, ◌-◌, ◌*◌, ◌≡◌, true, false, none, [], arith, IsU64, min, ltb, if◌then◌else◌,
  u32_max,
}
use zincha_sdk.Crypto.Bytes.{zero_hash}
use zincha_sdk.Subscription.{
  ToolSubscription, ToolSubscriptionPlan, ToolSubscriptionStatus, pay_as_you_go, consume_allowance,
  restore_allowance_as_compensation, terminate_for_unrecoverable_service_loss, is_invoke_usable_at,
  can_accept_reserve_top_up, requires_subscription_compatible_tool, bill, advance_periods,
}
use zincha_sdk.Subscription.Allowance.{
  calls_held, credits_held, AreWords, consume_splits, restore-consume,
}
use zincha_sdk.Subscription.Billing.{advance-conserves}
use zincha_sdk.Subscription.CatchUp.{charge, opening, bill-charge}
use zincha_sdk.Subscription.Settled.{advance_idem}
use zincha_sdk.Subscription.Shutdown.{terminate_final}

-- a subscription at 10 for each period of 100, with 25 in reserve, paid until 200
abbrev monthly : ToolSubscription
monthly = record {
  subscription_id = zero_hash;
  plan_id = zero_hash;
  tool_id = zero_hash;
  subscriber = [];
  provider = [];
  price_per_period = 10;
  period_ms = 100;
  included_calls = 0;
  included_credits = 50;
  overage_policy = pay_as_you_go;
  current_period_start = 100;
  current_period_end = 200;
  next_renewal_at = 200;
  remaining_calls = 0;
  remaining_credits = 6;
  compensating_calls = 0;
  compensating_credits = 3;
  reserved_balance = 25;
  status = ToolSubscriptionStatus.active;
  auto_renew = true;
  created_at = 100;
  created_at_block = 1;
  storage_deposit = 0;
  cancelled_at = none;
}

word_7 : IsU64 7
word_7 = omega arith

word_25 : IsU64 25
word_25 = omega arith

monthly-AreWords : AreWords monthly
monthly-AreWords = record { calls = omega arith; credits = omega arith }

consume_splits_example :
    let (t, c) = consume_allowance 7 monthly in
    (c.covered_amount + c.uncovered_amount ≡ 7)
    × (calls_held t + (if c.used_call then 1 else 0) ≡ calls_held monthly)
    × (credits_held t + (if c.used_call then 0 else c.covered_amount) ≡ credits_held monthly)
    × (c.uncovered_amount ≡ (if ltb 0 (calls_held monthly) then 0 else 7 - credits_held monthly))
consume_splits_example = consume_splits 7 monthly word_7

restore-consume_example :
    let (t, c) = consume_allowance 7 monthly in
    let u = restore_allowance_as_compensation c.covered_amount c.used_call t in
    (calls_held u ≡ calls_held monthly)
    × (credits_held u ≡ credits_held monthly)
    × (u.remaining_calls ≡ t.remaining_calls)
    × (u.remaining_credits ≡ t.remaining_credits)
restore-consume_example = restore-consume 7 monthly word_7 monthly-AreWords

-- three periods are due at 450, and two are affordable
bill-charge_example :
    let a =
      charge 300 450 10 100
        (opening 450 monthly (omega arith) (omega arith) (omega arith) word_25) in
    let (t, o) = bill 450 monthly in
    (t.current_period_end ≡ a.period_end)
    × (t.reserved_balance ≡ a.reserve)
    × (o.provider_credit ≡ 10 * a.count)
    × (o.renewed_periods ≡ min a.count u32_max)
    × (t.status ≡ (
        if ltb 450 a.period_end
        then ToolSubscriptionStatus.active
        else ToolSubscriptionStatus.past_due))
bill-charge_example =
    bill-charge 450 monthly (omega arith) (omega arith) (omega arith) word_25 300 (omega arith)

advance-conserves_example :
    let (t, o) = advance_periods 450 true monthly in
    (t.reserved_balance + o.provider_credit ≡ 25)
    × ((count : ℕ) × (o.provider_credit ≡ 10 * count) × (o.renewed_periods ≡ min count u32_max))
    × (t ≡ record monthly {
      reserved_balance = t.reserved_balance;
      current_period_start = t.current_period_start;
      current_period_end = t.current_period_end;
      next_renewal_at = t.next_renewal_at;
      remaining_calls = t.remaining_calls;
      remaining_credits = t.remaining_credits;
      status = t.status;
    })
advance-conserves_example = advance-conserves 450 true monthly word_25

advance_idem_example :
    let t = (advance_periods 450 true monthly).0 in
    advance_periods 450 true t ≡ (t, record { renewed_periods = 0; provider_credit = 0 })
advance_idem_example = advance_idem 450 true monthly (omega arith) (omega arith) word_25

terminate_final_example :
    let (t, o) = terminate_for_unrecoverable_service_loss 300 5 monthly in
    let (u, o') = terminate_for_unrecoverable_service_loss 400 5 t in
    (o.reserve_refund ≡ 25)
    × (o.compensation_refund ≡ min (3 + 5 * 0) u64_max)
    × (t ≡ record monthly {
      reserved_balance = 0;
      compensating_calls = 0;
      compensating_credits = 0;
      auto_renew = false;
      status = ToolSubscriptionStatus.cancelled;
      cancelled_at = t.cancelled_at;
    })
    × (is_invoke_usable_at 400 t ≡ false)
    × (can_accept_reserve_top_up t ≡ false)
    × (requires_subscription_compatible_tool t ≡ false)
    × (o'.reserve_refund ≡ 0)
    × (o'.compensation_refund ≡ 0)
    × (u ≡ t)
terminate_final_example = terminate_final 300 400 5 monthly

abbrev plan : ToolSubscriptionPlan
plan = record {
  plan_id = zero_hash;
  tool_id = zero_hash;
  provider = [];
  name = [];
  price_per_period = 20;
  period_ms = 100;
  included_calls = 4;
  included_credits = 0;
  overage_policy = pay_as_you_go;
  active = true;
  created_at = 0;
  created_at_block = 0;
  updated_at = 0;
  storage_deposit = 0;
}
