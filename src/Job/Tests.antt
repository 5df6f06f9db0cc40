-- ===== src/Job/Tests.antt =====
-- tool.rs on a job of two milestones, the first of which is completed.
use zincha_sdk.Base.{◌≡◌, refl, false, none, some, [], ◌∷◌}
use zincha_sdk.Crypto.Bytes.{zero_hash}
use zincha_sdk.Job.{
  ToolJob, ToolMilestone, ToolMilestoneStatus, completed, disputed, disputed_status,
  current_milestone_index, first_open,
}

abbrev step : ToolMilestoneStatus → ToolMilestone
step s = record {
  label = [];
  amount = 50;
  status = s;
  submit_deadline = none;
  result_hash = none;
  result_metadata = [];
  submitted_at = some 5;
  challenge_deadline = none;
  dispute_reason = none;
  disputed_at = some 6;
}

abbrev job : ToolJob
job = record {
  job_id = zero_hash;
  tool_id = zero_hash;
  requester = [];
  provider = [];
  arbitrator = none;
  amount_escrowed = 100;
  storage_deposit = 0;
  sla_ms = 30;
  subscription_id = none;
  subscription_covered_amount = 0;
  subscription_used_call = false;
  input_data = [];
  input_hash = zero_hash;
  status = disputed_status;
  opened_at = 0;
  opened_at_block = 0;
  challenge_window_ms = 10;
  max_result_metadata_bytes = 0;
  arbitrator_fee_bps = 0;
  submit_deadline = 8;
  result_hash = none;
  result_metadata = [];
  submitted_at = some 5;
  challenge_deadline = none;
  dispute_reason = none;
  disputed_at = some 6;
  arbitration_deadline_at = some 40;
  arbitration_reassignments = 1;
  prior_arbitrators = [];
  milestones = step completed ∷ step disputed ∷ [];
}

second_is_open : current_milestone_index job ≡ some 1
unfolding current_milestone_index first_open
second_is_open = refl
