-- ===== src/Job.antt =====
-- crates/zincha-primitives/src/primitives/tool.rs: the escrowed job of a tool and its milestones.
pub mod Milestones
mod Tests
use zincha_sdk.Base.{
  ℕ, suc, ◌+◌, ◌%◌, ◌^◌, Bool, true, false, not, Option, none, some, List, [], ◌∷◌, if◌then◌else◌,
  get_elem?, set, drop, sat_add,
}
use zincha_sdk.Crypto.Bytes.{Bytes, Text, Address, Hash256}

-- Open, Submitted, Disputed, named apart from the milestones' statuses
pub data ToolJobStatus : Type 0 where
  open_status submitted_status disputed_status : ToolJobStatus

pub data ToolMilestoneStatus : Type 0 where
  pending submitted disputed completed : ToolMilestoneStatus

pub record ToolMilestoneDef : Type 0 where
  pub label : Text
  pub amount : ℕ

pub record ToolMilestone : Type 0 where
  pub label : Text
  pub amount : ℕ
  pub status : ToolMilestoneStatus
  pub submit_deadline : Option ℕ
  pub result_hash : Option Hash256
  pub result_metadata : Bytes
  pub submitted_at : Option ℕ
  pub challenge_deadline : Option ℕ
  pub dispute_reason : Option Text
  pub disputed_at : Option ℕ

-- From<ToolMilestoneDef> for ToolMilestone
unfoldable pub from_def : ToolMilestoneDef → ToolMilestone
from_def value = record {
  label = value.label;
  amount = value.amount;
  status = pending;
  submit_deadline = none;
  result_hash = none;
  result_metadata = [];
  submitted_at = none;
  challenge_deadline = none;
  dispute_reason = none;
  disputed_at = none;
}

pub record ToolJob : Type 0 where
  pub job_id : Hash256
  pub tool_id : Hash256
  pub requester : Address
  pub provider : Address
  pub arbitrator : Option Address
  pub amount_escrowed : ℕ
  pub storage_deposit : ℕ
  pub sla_ms : ℕ
  pub subscription_id : Option Hash256
  pub subscription_covered_amount : ℕ
  pub subscription_used_call : Bool
  pub input_data : Bytes
  pub input_hash : Hash256
  pub status : ToolJobStatus
  pub opened_at : ℕ
  pub opened_at_block : ℕ
  pub challenge_window_ms : ℕ
  pub max_result_metadata_bytes : ℕ
  pub arbitrator_fee_bps : ℕ
  pub submit_deadline : ℕ
  pub result_hash : Option Hash256
  pub result_metadata : Bytes
  pub submitted_at : Option ℕ
  pub challenge_deadline : Option ℕ
  pub dispute_reason : Option Text
  pub disputed_at : Option ℕ
  pub arbitration_deadline_at : Option ℕ
  pub arbitration_reassignments : ℕ
  pub prior_arbitrators : List Address
  pub milestones : List ToolMilestone

-- `status == ToolMilestoneStatus::Completed`
abbrev pub is_completed : ToolMilestoneStatus → Bool
is_completed completed = true
is_completed _ = false

-- `==` of Booleans
abbrev pub eq_bool : Bool → Bool → Bool
eq_bool true b = b
eq_bool false b = not b

unfoldable pub is_milestone_job : ToolJob → Bool
is_milestone_job j = not (elim j.milestones [ [] ↦ true | m ∷ ms ↦ false ])

-- `position` of the first milestone that is not completed
unfoldable pub first_open : List ToolMilestone → Option ℕ
first_open [] = none
first_open (m ∷ ms) =
    let rest = first_open ms in
    if is_completed m.status then elim rest [ none ↦ none | some i ↦ some (suc i) ] else some 0

unfoldable pub current_milestone_index : ToolJob → Option ℕ
current_milestone_index j = first_open j.milestones

-- `self.milestones.get(idx)`, with its index
abbrev pub with_index : ℕ → Option ToolMilestone → Option (ℕ × ToolMilestone)
with_index idx none = none
with_index idx (some m) = some (idx, m)

abbrev pub milestone_at : List ToolMilestone → Option ℕ → Option (ℕ × ToolMilestone)
milestone_at ms none = none
milestone_at ms (some idx) = with_index idx (get_elem? ms idx)

-- `current_milestone`, with the index that `current_milestone_mut` adds to it
unfoldable pub current_milestone : ToolJob → Option (ℕ × ToolMilestone)
current_milestone j = milestone_at j.milestones (current_milestone_index j)

-- the amounts of the milestones whose completion is `done`
unfoldable pub amounts_where : Bool → List ToolMilestone → ℕ
amounts_where done [] = 0
amounts_where done (m ∷ ms) =
    let rest = amounts_where done ms in
    if eq_bool (is_completed m.status) done then m.amount + rest else rest

-- `Iterator::sum` of u64 wraps around in a release build
unfoldable pub completed_milestone_amount : ToolJob → ℕ
completed_milestone_amount j = amounts_where true j.milestones % 2 ^ 64

unfoldable pub unpaid_amount_from : ToolJob → ℕ → ℕ
unpaid_amount_from j start_idx = amounts_where false (drop start_idx j.milestones) % 2 ^ 64

unfoldable pub clear_transient_result_state : ToolJob → ToolJob
clear_transient_result_state j = record j {
  result_hash = none;
  result_metadata = [];
  submitted_at = none;
  challenge_deadline = none;
  dispute_reason = none;
  disputed_at = none;
  arbitration_deadline_at = none;
  arbitration_reassignments = 0;
  prior_arbitrators = [];
}

-- what `open_current_milestone` writes into the milestone
unfoldable pub reopened : ℕ → ToolMilestone → ToolMilestone
reopened deadline m = record m {
  status = pending;
  submit_deadline = some deadline;
  result_hash = none;
  result_metadata = [];
  submitted_at = none;
  challenge_deadline = none;
  dispute_reason = none;
  disputed_at = none;
}

-- the body of `open_current_milestone` behind its `let else`
unfoldable pub open_at : ℕ → ToolJob → Option (ℕ × ToolMilestone) → ToolJob
open_at deadline j none = j
open_at deadline j (some (i, m)) = clear_transient_result_state (record j {
  milestones = set j.milestones i (reopened deadline m);
  status = open_status;
  submit_deadline = deadline;
})

unfoldable pub open_current_milestone : ℕ → ToolJob → ToolJob
open_current_milestone now_ms j = open_at (sat_add now_ms j.sla_ms) j (current_milestone j)
