-- ===== src/Agreement/Tests.antt =====
-- agreement.rs on concrete agreements.
use zincha_sdk.Base.{
  All, ℕ, ◌+◌, ◌≡◌, ◌≢◌, refl, ◌↔◌, true, Option, none, some, List, [], ◌∷◌, arith, length,
  get_elem?, replicate, sum_of, IsU64, ok, ◌==◌, nat_eq, list_eq,
}
use mathlib.Core.List.Perm
use zincha_sdk.Crypto.Bytes.{Address, zero_hash, bytes_le}
use zincha_sdk.Agreement.Data.{
  AgreementPayoutShare, AgreementDisputeReputationEffect, AgreementDisputePartyOutcome,
  MilestoneDef, Milestone, DisputeResolution, Agreement, AgreementCreateData, AgreementStatus,
  MilestoneStatus, won, lost, SameEntity,
}
use zincha_sdk.Agreement.Settlement.{
  check_allocations, recipients_of, resolve_agreement_settlement_allocations,
  resolve_agreement_settlement_approver,
}
use zincha_sdk.Agreement.Settlement.Shares.{
  IsSettlement, resolve_allocations_iff, resolve_allocations-settles,
}
use zincha_sdk.Agreement.Settlement.Approver.{IsChosen, IsIndependent, resolve_approver_iff}
use zincha_sdk.Agreement.Payout.{distribute_amount}
use zincha_sdk.Agreement.Payout.Total.{paid_total, distribute_amount-total}
use zincha_sdk.Agreement.Payout.Fairness.{IsFair, distribute_amount-IsFair}
use zincha_sdk.Agreement.Milestones.{
  materialize_agreement_milestones, fresh_milestones, milestone_total, check_descriptions,
}
use zincha_sdk.Agreement.Milestones.Plan.{IsPlan, Matches, materialize-Matches}
use zincha_sdk.Agreement.Effects.{normalize_dispute_reputation_effects}
use zincha_sdk.Agreement.Effects.Canonical.{normalize_canonical}
use zincha_sdk.Agreement.Create.{validate_agreement_create_stateless}
use zincha_sdk.Agreement.Create.Accepts.{IsAccepted, validate-IsAccepted}
use zincha_sdk.Agreement.Lifecycle.{escrow_remaining}
use zincha_sdk.Agreement.Lifecycle.Escrow.{IsEscrow, release_all, release_all-conserves}

abbrev alice : Address
alice = replicate 20 1

abbrev bob : Address
bob = replicate 20 2

abbrev carol : Address
carol = replicate 20 3

-- three addresses of three owners
abbrev strangers : SameEntity
strangers a b = a == b

abbrev share : Address → ℕ → AgreementPayoutShare
share a n = record { recipient = a; share_bps = n }

abbrev thirds : List AgreementPayoutShare
thirds = share alice 3333 ∷ share bob 3333 ∷ share carol 3334 ∷ []

thirds-nonempty : thirds ≢ []
thirds-nonempty e = cc

hundred-IsU64 : IsU64 100
hundred-IsU64 = omega arith

distribute_amount-total_example : paid_total (distribute_amount 100 thirds) ≡ 100
distribute_amount-total_example =
    distribute_amount-total 100 thirds hundred-IsU64 thirds-nonempty (omega arith)

distribute_amount-IsFair_example :
    (p : ℕ) × (get_elem? (distribute_amount 100 thirds) 2 ≡ some (carol, p)) × IsFair 100 3334 3 p
distribute_amount-IsFair_example =
    distribute_amount-IsFair 100 2 thirds {s = share carol 3334} hundred-IsU64 refl refl

-- bob serves alice and is paid in full
abbrev to_bob : AgreementPayoutShare
to_bob = share bob 10000

resolve_allocations_iff_example :
    (resolve_agreement_settlement_allocations alice (alice ∷ bob ∷ []) bob (to_bob ∷ []) strangers
      ≡ ok (to_bob ∷ []))
    ↔ (IsSettlement (alice ∷ bob ∷ []) bob (to_bob ∷ [])
        × (¬ All (λ recipient. strangers alice recipient ≡ true) (recipients_of (to_bob ∷ []))))
resolve_allocations_iff_example =
    resolve_allocations_iff alice (alice ∷ bob ∷ []) bob strangers to_bob []

resolve_allocations-settles_example : IsSettlement (alice ∷ bob ∷ []) bob (to_bob ∷ [])
unfolding resolve_agreement_settlement_allocations
resolve_allocations-settles_example =
    resolve_allocations-settles alice (alice ∷ bob ∷ []) bob [] strangers {out = to_bob ∷ []} refl
      refl

resolve_approver_iff_example :
    (resolve_agreement_settlement_approver alice (alice ∷ bob ∷ []) (to_bob ∷ []) none strangers
      ≡ ok alice)
    ↔ (IsChosen alice (alice ∷ bob ∷ []) none alice
        × IsIndependent alice alice strangers (to_bob ∷ []))
resolve_approver_iff_example =
    resolve_approver_iff alice (alice ∷ bob ∷ []) (to_bob ∷ []) none strangers alice

abbrev two_steps : List MilestoneDef
two_steps =
    record { description = 65 ∷ []; amount = 40 }
    ∷ record { description = 66 ∷ []; amount = 60 }
    ∷ []

materialize-Matches_example :
    IsPlan two_steps 100
    × (sum_of (λ (m : Milestone). m.amount) (fresh_milestones 0 two_steps) ≡ 100)
    × (length (fresh_milestones 0 two_steps) ≡ length two_steps)
    × ((n : ℕ) (d : MilestoneDef)
        → get_elem? two_steps n ≡ some d
        → (m : Milestone) × (get_elem? (fresh_milestones 0 two_steps) n ≡ some m) × Matches n d m)
unfolding materialize_agreement_milestones milestone_total check_descriptions
materialize-Matches_example =
    materialize-Matches two_steps 100 {ms = fresh_milestones 0 two_steps} refl

abbrev effect : Address → AgreementDisputePartyOutcome → AgreementDisputeReputationEffect
effect a o = record { party = a; outcome = o }

abbrev won_lost : List AgreementDisputeReputationEffect
won_lost = effect alice won ∷ effect bob lost ∷ []

abbrev lost_won : List AgreementDisputeReputationEffect
lost_won = effect bob lost ∷ effect alice won ∷ []

-- what `normalize` makes of both
abbrev stored : List AgreementDisputeReputationEffect
stored = won_lost

lost_won-stored :
    normalize_dispute_reputation_effects (alice ∷ bob ∷ []) lost_won strangers ≡ ok stored
unfolding normalize_dispute_reputation_effects bytes_le
lost_won-stored = refl

won_lost-stored :
    normalize_dispute_reputation_effects (alice ∷ bob ∷ []) won_lost strangers ≡ ok stored
unfolding normalize_dispute_reputation_effects bytes_le
won_lost-stored = refl

normalize_canonical_example : stored ≡ stored
normalize_canonical_example =
    normalize_canonical (alice ∷ bob ∷ []) lost_won won_lost strangers {out = stored}
      {out' = stored} (Perm.swap _ _ _) lost_won-stored won_lost-stored

abbrev payload : AgreementCreateData
payload = record {
  parties = alice ∷ bob ∷ [];
  terms = 84 ∷ [];
  escrow_amount = 100;
  expires_at = 1000;
  arbitrator = some carol;
  milestones = two_steps;
  service_provider = bob;
  settlement_allocations = to_bob ∷ [];
  settlement_approver = none;
}

payload-accepted : validate_agreement_create_stateless alice payload strangers ≡ ok tt
unfolding validate_agreement_create_stateless materialize_agreement_milestones milestone_total
    check_descriptions resolve_agreement_settlement_allocations check_allocations
    resolve_agreement_settlement_approver
payload-accepted = refl

validate-IsAccepted_example : IsAccepted alice payload strangers
validate-IsAccepted_example = validate-IsAccepted alice payload strangers payload-accepted

-- an agreement of two milestones, with a resolution of the second held on the whole agreement
abbrev ruling : Option ℕ → DisputeResolution
ruling at = record {
  payouts = to_bob ∷ [];
  reputation_effects = [];
  reason = [];
  resolved_at_block = 7;
  milestone_index = at;
}

abbrev blank : ℕ → Milestone
blank i = record {
  index = i;
  description = [];
  amount = 50;
  status = MilestoneStatus.pending;
  result_hash = none;
  completed_at_block = none;
  resolution = none;
}

abbrev signed : Agreement
signed = record {
  agreement_id = zero_hash;
  parties = alice ∷ bob ∷ [];
  proposer = alice;
  terms = 84 ∷ [];
  escrow_amount = 100;
  status = AgreementStatus.active;
  created_at_block = 1;
  expires_at = 1000;
  accepted_by = alice ∷ bob ∷ [];
  arbitrator = some carol;
  result_hash = none;
  dispute_reason = [];
  disputed_milestone_index = none;
  disputed_at = none;
  arbitration_deadline_at = none;
  arbitration_reassignments = 0;
  prior_arbitrators = [];
  resolution = some (ruling (some 1));
  milestones = blank 0 ∷ blank 1 ∷ [];
  escrow_released = 30;
  arbitrator_fee_bps = 0;
  service_provider = bob;
  settlement_allocations = to_bob ∷ [];
  storage_deposit = 0;
  settlement_approver = none;
}

signed-IsEscrow : IsEscrow signed
signed-IsEscrow = record { within = omega arith; word = omega arith }

release_all-conserves_example :
    let b = release_all (50 ∷ 40 ∷ []) signed in
    (b.escrow_released + escrow_remaining b ≡ 100) × (b.escrow_released ≡ 100) × IsEscrow b
release_all-conserves_example = release_all-conserves (50 ∷ 40 ∷ []) signed signed-IsEscrow
