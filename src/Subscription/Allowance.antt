-- ===== src/Subscription/Allowance.antt =====
-- tool.rs: what one invocation takes from a subscription, and what a failed one gives back.
use zincha_sdk.Base.{
  ℕ, ◌+◌, ◌-◌, ◌≤◌, ◌≡◌, arith, ltb, if◌then◌else◌, u64_max, u32_max, IsU64, nat_eq, list_eq,
  option_eq,
}
use zincha_sdk.Subscription.{ToolSubscription, consume_allowance, restore_allowance_as_compensation}

-- The calls and the credits that a subscription still holds, of both kinds.
abbrev pub calls_held : ToolSubscription → ℕ
calls_held s = s.compensating_calls + s.remaining_calls

abbrev pub credits_held : ToolSubscription → ℕ
credits_held s = s.compensating_credits + s.remaining_credits

-- The restored counters fit their machine words: u32 for calls, u64 for credits.
pub record AreWords (s : ToolSubscription) : Type 0 where
  pub calls : s.compensating_calls ≤ u32_max
  pub credits : s.compensating_credits ≤ u64_max

-- A price of 64 bits is split exactly. A held call covers all of it and is the only thing spent; without one
-- exactly the covered credits are spent, and the uncovered rest is what the credits fall short by.
pub consume_splits :
    (tool_price : ℕ) (s : ToolSubscription)
    → IsU64 tool_price
    → let (t, c) = consume_allowance tool_price s in
      (c.covered_amount + c.uncovered_amount ≡ tool_price)
      × (calls_held t + (if c.used_call then 1 else 0) ≡ calls_held s)
      × (credits_held t + (if c.used_call then 0 else c.covered_amount) ≡ credits_held s)
      × (c.uncovered_amount ≡ (if ltb 0 (calls_held s) then 0 else tool_price - credits_held s))
unfolding consume_allowance
consume_splits tool_price s h = ground arith

-- A refund of a failed invocation, at a price of 64 bits and with restored calls and credits that fit
-- their types, gives back exactly what the invocation took: the calls and credits
-- held are what they were, and the counters of the period stay as the invocation left them.
pub restore-consume :
    (tool_price : ℕ) (s : ToolSubscription)
    → IsU64 tool_price
    → AreWords s
    → let (t, c) = consume_allowance tool_price s in
      let u = restore_allowance_as_compensation c.covered_amount c.used_call t in
      (calls_held u ≡ calls_held s)
      × (credits_held u ≡ credits_held s)
      × (u.remaining_calls ≡ t.remaining_calls)
      × (u.remaining_credits ≡ t.remaining_credits)
unfolding consume_allowance restore_allowance_as_compensation
restore-consume tool_price s w h = ground arith
