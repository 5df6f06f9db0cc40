-- ===== src/Agreement/Lifecycle.antt =====
-- agreement.rs: the methods of `Agreement` that read or change a stored agreement. A method on
-- `&mut self` returns the new record.
pub mod Escrow
pub mod Resolutions
use zincha_sdk.Base.{
  ℕ, zero, suc, min, Bool, true, false, not, ◌&&◌, Option, none, some, List, [], ◌∷◌, ltb,
  if◌then◌else◌, is_some, length, sat_add, sat_sub, nat_eq, contains, list_eq, option_eq,
}
use zincha_sdk.Crypto.Bytes.{Address, is_empty}
use zincha_sdk.Agreement.Data.{
  Agreement, AgreementStatus, AgreementPayoutShare, Milestone, MilestoneStatus, DisputeResolution,
}
use zincha_sdk.Agreement.Settlement.{whole_bps, recipients_of}

-- `parties.iter().all(|p| accepted_by.contains(p))`
unfoldable pub all_in : List Address → List Address → Bool
all_in accepted [] = true
all_in accepted (p ∷ rest) = contains accepted p && all_in accepted rest

unfoldable pub is_fully_accepted : Agreement → Bool
unfolding all_in
is_fully_accepted a = all_in a.accepted_by a.parties

unfoldable pub is_expired : Agreement → ℕ → Bool
is_expired a current_time_ms = ltb 0 a.expires_at && ltb a.expires_at current_time_ms

unfoldable pub has_milestones : Agreement → Bool
has_milestones a = not (is_empty a.milestones)

abbrev pub is_settled_status : MilestoneStatus → Bool
is_settled_status MilestoneStatus.completed = true
is_settled_status MilestoneStatus.resolved = true
is_settled_status s = false

unfoldable pub all_settled : List Milestone → Bool
all_settled [] = true
all_settled (m ∷ rest) = is_settled_status m.status && all_settled rest

unfoldable pub all_milestones_complete : Agreement → Bool
unfolding all_settled
all_milestones_complete a = not (is_empty a.milestones) && all_settled a.milestones

unfoldable pub escrow_remaining : Agreement → ℕ
escrow_remaining a = sat_sub a.escrow_amount a.escrow_released

unfoldable pub record_escrow_release : ℕ → Agreement → Agreement
record_escrow_release amount a = record a {
  escrow_released = min (sat_add a.escrow_released amount) a.escrow_amount;
}

unfoldable pub release_remaining_escrow : Agreement → Agreement
release_remaining_escrow a = record a { escrow_released = a.escrow_amount }

unfoldable pub clear_dispute_state : Agreement → Agreement
clear_dispute_state a = record a {
  dispute_reason = [];
  disputed_milestone_index = none;
  disputed_at = none;
  arbitration_deadline_at = none;
  arbitration_reassignments = 0;
  prior_arbitrators = [];
}

unfoldable pub normalize_for_expiry : Agreement → Agreement
unfolding clear_dispute_state
normalize_for_expiry a =
    clear_dispute_state (record a { status = AgreementStatus.expired; storage_deposit = 0 })

unfoldable pub settlement_approver_of : Agreement → Address
settlement_approver_of a = elim a.settlement_approver [
  | none ↦ a.proposer
  | some approver ↦ approver
]

unfoldable pub effective_settlement_allocations : Agreement → List AgreementPayoutShare
effective_settlement_allocations a =
    if not (is_empty a.settlement_allocations)
    then a.settlement_allocations
    else record { recipient = a.service_provider; share_bps = whole_bps } ∷ []

unfoldable pub settlement_recipients : Agreement → List Address
unfolding effective_settlement_allocations
settlement_recipients a = recipients_of (effective_settlement_allocations a)

-- `milestone.resolution = Some(r)` at an index, if the milestone has none when `keep` is set
unfoldable pub put_resolution : Bool → DisputeResolution → ℕ → List Milestone → List Milestone
put_resolution keep r i [] = []
put_resolution keep r zero (m ∷ rest) =
    (if keep && is_some m.resolution then m else record m { resolution = some r }) ∷ rest
put_resolution keep r (suc i) (m ∷ rest) = m ∷ put_resolution keep r i rest

-- The body of `normalize_resolution_storage` once it has the resolution and its index: an index out
-- of range changes nothing.
unfoldable pub move_resolution : DisputeResolution → ℕ → Agreement → Agreement
unfolding put_resolution
move_resolution r i a =
    if ltb i (length a.milestones)
    then record a { milestones = put_resolution true r i a.milestones; resolution = none }
    else a

unfoldable pub normalize_resolution_storage : Agreement → Agreement
unfolding move_resolution
normalize_resolution_storage a = elim a.resolution [
  | none ↦ a
  | some r ↦ elim r.milestone_index [ none ↦ a | some i ↦ move_resolution r i a ]
]

unfoldable pub record_milestone_resolution : ℕ → DisputeResolution → Agreement → Agreement
unfolding normalize_resolution_storage
record_milestone_resolution i r a =
    let b = normalize_resolution_storage a in
    record b { milestones = put_resolution false r i b.milestones; resolution = none }

unfoldable pub record_whole_agreement_resolution : DisputeResolution → Agreement → Agreement
unfolding normalize_resolution_storage
record_whole_agreement_resolution r a = record (normalize_resolution_storage a) {
  resolution = some r;
}

-- the resolution of the milestone at an index, if both exist
unfoldable pub milestone_resolution : List Milestone → ℕ → Option DisputeResolution
milestone_resolution [] i = none
milestone_resolution (m ∷ rest) zero = m.resolution
milestone_resolution (m ∷ rest) (suc i) = milestone_resolution rest i

unfoldable pub resolution_for : Option ℕ → Agreement → Option DisputeResolution
unfolding milestone_resolution
resolution_for none a = a.resolution
resolution_for (some i) a = milestone_resolution a.milestones i
