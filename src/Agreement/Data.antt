-- ===== src/Agreement/Data.antt =====
-- The data of crates/zincha-primitives/src/primitives/agreement.rs. Texts and opaque payloads are
-- byte strings. An error carries what its message prints and is named for it.
use zincha_sdk.Base.{ℕ, Option, List, Bool}
use zincha_sdk.Crypto.Bytes.{Address, Hash256, Text, Bytes}

pub data AgreementStatus : Type 0 where
  proposed active completed disputed resolved expired cancelled : AgreementStatus

pub data MilestoneStatus : Type 0 where
  pending completed disputed resolved : MilestoneStatus

pub record AgreementPayoutShare : Type 0 where
  pub recipient : Address
  pub share_bps : ℕ

pub data AgreementDisputePartyOutcome : Type 0 where
  won lost : AgreementDisputePartyOutcome

pub record AgreementDisputeReputationEffect : Type 0 where
  pub party : Address
  pub outcome : AgreementDisputePartyOutcome

pub record DisputeResolution : Type 0 where
  pub payouts : List AgreementPayoutShare
  pub reputation_effects : List AgreementDisputeReputationEffect
  pub reason : Text
  pub resolved_at_block : ℕ
  pub milestone_index : Option ℕ

pub record Milestone : Type 0 where
  pub index : ℕ
  pub description : Text
  pub amount : ℕ
  pub status : MilestoneStatus
  pub result_hash : Option Hash256
  pub completed_at_block : Option ℕ
  pub resolution : Option DisputeResolution

pub record MilestoneDef : Type 0 where
  pub description : Text
  pub amount : ℕ

pub record Agreement : Type 0 where
  pub agreement_id : Hash256
  pub parties : List Address
  pub proposer : Address
  pub terms : Bytes
  pub escrow_amount : ℕ
  pub status : AgreementStatus
  pub created_at_block : ℕ
  pub expires_at : ℕ
  pub accepted_by : List Address
  pub arbitrator : Option Address
  pub result_hash : Option Hash256
  pub dispute_reason : Text
  pub disputed_milestone_index : Option ℕ
  pub disputed_at : Option ℕ
  pub arbitration_deadline_at : Option ℕ
  pub arbitration_reassignments : ℕ
  pub prior_arbitrators : List Address
  pub resolution : Option DisputeResolution
  pub milestones : List Milestone
  pub escrow_released : ℕ
  pub arbitrator_fee_bps : ℕ
  pub service_provider : Address
  pub settlement_allocations : List AgreementPayoutShare
  pub storage_deposit : ℕ
  pub settlement_approver : Option Address

pub record AgreementCreateData : Type 0 where
  pub parties : List Address
  pub terms : Bytes
  pub escrow_amount : ℕ
  pub expires_at : ℕ
  pub arbitrator : Option Address
  pub milestones : List MilestoneDef
  pub service_provider : Address
  pub settlement_allocations : List AgreementPayoutShare
  pub settlement_approver : Option Address

-- The `Err` strings of the file.
pub data AgreementError : Type 0 where
  no_milestones milestone_overflow too_many_milestones : AgreementError
  total_mismatch : ℕ → ℕ → AgreementError
  description_too_long : ℕ → AgreementError
  zero_share recipient_not_party duplicate_recipient shares_not_whole : AgreementError
  no_third_party provider_unpaid : AgreementError
  approver_not_party approver_required approver_not_independent : AgreementError
  effect_not_party duplicate_effect one_sided_effects same_entity_effects : AgreementError
  too_few_parties proposer_not_party zero_escrow : AgreementError
  too_many_parties terms_too_large : ℕ → AgreementError
  duplicate_party : Address → AgreementError
  arbitrator_is_party arbitrator_same_entity : AgreementError
  provider_not_party provider_is_proposer : AgreementError

-- `FnMut(&Address, &Address) -> bool`: whether two addresses belong to one entity. The node that
-- runs the checks supplies it.
abbrev pub SameEntity : Type 0
SameEntity = Address → Address → Bool
