-- ===== src/Agreement/Milestones.antt =====
-- agreement.rs: `canonical_single_payment_milestones` and `materialize_agreement_milestones`.
pub mod Plan
use zincha_sdk.Base.{
  ℕ, suc, ◌%◌, ◌^◌, not, Option, none, some, List, [], ◌∷◌, ltb, if◌then◌else◌, checked_add, length,
  Result, ok, err, ◌>>=◌, ◌>>◌, fail_if, ok_or, ◌==◌, nat_eq,
}
use zincha_sdk.Crypto.Bytes.{is_empty}
use zincha_sdk.Agreement.Data.{
  Milestone, MilestoneDef, MilestoneStatus, AgreementError, no_milestones, milestone_overflow,
  too_many_milestones, total_mismatch, description_too_long,
}

-- "Complete agreement"
abbrev complete_agreement : List ℕ
complete_agreement =
    67 ∷ 111 ∷ 109 ∷ 112 ∷ 108 ∷ 101 ∷ 116 ∷ 101 ∷ 32 ∷ 97 ∷ 103 ∷ 114 ∷ 101 ∷ 101 ∷ 109 ∷ 101 ∷ 110
    ∷ 116 ∷ []

unfoldable pub canonical_single_payment_milestones : ℕ → List MilestoneDef
canonical_single_payment_milestones escrow_amount =
    record { description = complete_agreement; amount = escrow_amount } ∷ []

-- `try_fold(0u64, |acc, m| acc.checked_add(m.amount))`
unfoldable pub milestone_total : ℕ → List MilestoneDef → Option ℕ
milestone_total acc [] = some acc
milestone_total acc (m ∷ ms) = elim (checked_add acc m.amount) [
  | none ↦ none
  | some total ↦ milestone_total total ms
]

-- the loop over the descriptions, from index `i`
unfoldable pub check_descriptions : ℕ → List MilestoneDef → Result AgreementError (Unit {0})
check_descriptions i [] = ok tt
check_descriptions i (m ∷ ms) =
    let rest = check_descriptions (suc i) ms in
    if ltb 1024 (length m.description) then err (description_too_long i) else rest

-- the `map` over `enumerate()`, from index `i`; `index as u32` wraps
unfoldable pub fresh_milestones : ℕ → List MilestoneDef → List Milestone
fresh_milestones i [] = []
fresh_milestones i (m ∷ ms) =
    record {
      index = i % 2 ^ 32;
      description = m.description;
      amount = m.amount;
      status = MilestoneStatus.pending;
      result_hash = none;
      completed_at_block = none;
      resolution = none;
    }
    ∷ fresh_milestones (suc i) ms

unfoldable pub materialize_agreement_milestones :
    List MilestoneDef → ℕ → Result AgreementError (List Milestone)
materialize_agreement_milestones defs escrow_amount = do
  fail_if (is_empty defs) no_milestones
  total ← ok_or (milestone_total 0 defs) milestone_overflow
  fail_if (not (total == escrow_amount)) (total_mismatch total escrow_amount)
  fail_if (ltb 20 (length defs)) too_many_milestones
  check_descriptions 0 defs
  ok (fresh_milestones 0 defs)
