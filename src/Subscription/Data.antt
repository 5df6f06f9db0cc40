-- ===== src/Subscription/Data.antt =====
-- crates/zincha-primitives/src/primitives/tool.rs: the types of subscriptions and their plans.
use zincha_sdk.Base.{ℕ, Option, Bool}
use zincha_sdk.Crypto.Bytes.{Address, Hash256, Text}

pub data SubscriptionOveragePolicy : Type 0 where
  deny pay_as_you_go : SubscriptionOveragePolicy

pub data ToolSubscriptionStatus : Type 0 where
  active paused past_due cancel_requested cancelled : ToolSubscriptionStatus

pub record ToolSubscriptionPlan : Type 0 where
  pub plan_id : Hash256
  pub tool_id : Hash256
  pub provider : Address
  pub name : Text
  pub price_per_period : ℕ
  pub period_ms : ℕ
  pub included_calls : ℕ
  pub included_credits : ℕ
  pub overage_policy : SubscriptionOveragePolicy
  pub active : Bool
  pub created_at : ℕ
  pub created_at_block : ℕ
  pub updated_at : ℕ
  pub storage_deposit : ℕ

pub record ToolSubscription : Type 0 where
  pub subscription_id : Hash256
  pub plan_id : Hash256
  pub tool_id : Hash256
  pub subscriber : Address
  pub provider : Address
  pub price_per_period : ℕ
  pub period_ms : ℕ
  pub included_calls : ℕ
  pub included_credits : ℕ
  pub overage_policy : SubscriptionOveragePolicy
  pub current_period_start : ℕ
  pub current_period_end : ℕ
  pub next_renewal_at : ℕ
  pub remaining_calls : ℕ
  pub remaining_credits : ℕ
  pub compensating_calls : ℕ
  pub compensating_credits : ℕ
  pub reserved_balance : ℕ
  pub status : ToolSubscriptionStatus
  pub auto_renew : Bool
  pub created_at : ℕ
  pub created_at_block : ℕ
  pub storage_deposit : ℕ
  pub cancelled_at : Option ℕ

pub record SubscriptionCoverage : Type 0 where
  pub covered_amount : ℕ
  pub uncovered_amount : ℕ
  pub used_call : Bool

pub record SubscriptionAdvanceOutcome : Type 0 where
  pub renewed_periods : ℕ
  pub provider_credit : ℕ

pub record SubscriptionTerminalShutdownOutcome : Type 0 where
  pub reserve_refund : ℕ
  pub compensation_refund : ℕ
