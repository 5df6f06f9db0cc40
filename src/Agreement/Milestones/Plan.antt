-- ===== src/Agreement/Milestones/Plan.antt =====
-- Which milestone plans of agreement.rs are accepted, and what they become.
use zincha_sdk.Base.{
  ℕ, zero, suc, ◌+◌, ◌%◌, ◌^◌, ◌≤◌, ◌≡◌, refl, ap, ◌↔◌, inl, inr, none, some, List, [], ◌∷◌, arith,
  Option-cases, length, get_elem?, sum_of, All, u64_max, IsU64, nat_eq, list_eq, option_eq, ok,
}
use zincha_sdk.Agreement.Data.{Milestone, MilestoneDef, MilestoneStatus}
use zincha_sdk.Agreement.Milestones.{
  milestone_total, check_descriptions, fresh_milestones, materialize_agreement_milestones,
}

abbrev pub plan_total : List MilestoneDef → ℕ
plan_total = sum_of (λ m. m.amount)

-- What the code asks of a plan, said without its loops.
pub record IsPlan (defs : List MilestoneDef) (escrow_amount : ℕ) : Type 0 where
  pub nonempty : 1 ≤ length defs
  pub few : length defs ≤ 20
  pub funded : plan_total defs ≡ escrow_amount
  pub described : All (λ m. length (m.description) ≤ 1024) defs

milestone_total_fits :
    (acc : ℕ) (defs : List MilestoneDef)
    → acc + plan_total defs ≤ u64_max
    → milestone_total acc defs ≡ some (acc + plan_total defs)
unfolding milestone_total
milestone_total_fits acc [] h = ground arith
milestone_total_fits acc (m ∷ ms) h = ground (arith, milestone_total_fits (acc + m.amount) ms)

milestone_total-some :
    (acc t : ℕ) (defs : List MilestoneDef)
    → milestone_total acc defs ≡ some t
    → t ≡ acc + plan_total defs
unfolding milestone_total
milestone_total-some acc t [] h = ground arith
milestone_total-some acc t (m ∷ ms) h = ground (arith, milestone_total-some (acc + m.amount) t ms)

check_descriptions_iff :
    (i : ℕ) (defs : List MilestoneDef)
    → (check_descriptions i defs ≡ ok tt) ↔ All (λ m. length (m.description) ≤ 1024) defs
unfolding check_descriptions
check_descriptions_iff i [] = ground arith
check_descriptions_iff i (m ∷ ms) = ground (arith, check_descriptions_iff (suc i) ms)

-- A plan that meets the conditions is accepted, and becomes its milestones, all pending.
pub materialize-accepts :
    (defs : List MilestoneDef) (escrow_amount : ℕ)
    → IsU64 escrow_amount
    → IsPlan defs escrow_amount
    → materialize_agreement_milestones defs escrow_amount ≡ ok (fresh_milestones 0 defs)
unfolding materialize_agreement_milestones
materialize-accepts [] escrow_amount w p = absurd (omega (arith, p.nonempty))
materialize-accepts (m ∷ ms) escrow_amount w p =
    let total = milestone_total_fits 0 (m ∷ ms) (omega (arith, p.funded)) in
    let described = (check_descriptions_iff 0 (m ∷ ms)).1 p.described in
    rw (total, described) (ground (arith, p.funded, p.few))

-- Whatever is accepted meets the conditions.
pub materialize-IsPlan :
    (defs : List MilestoneDef) (escrow_amount : ℕ) {ms : List Milestone}
    → materialize_agreement_milestones defs escrow_amount ≡ ok ms
    → IsPlan defs escrow_amount × (ms ≡ fresh_milestones 0 defs)
unfolding materialize_agreement_milestones
materialize-IsPlan [] escrow_amount h = cc
materialize-IsPlan (m ∷ rest) escrow_amount h = elim (Option-cases (milestone_total 0 (m ∷ rest))) [
  | inl overflow ↦ ground arith
  | inr (total, e) ↦
      ground (arith, milestone_total-some 0 total (m ∷ rest) e, check_descriptions_iff 0 (m ∷ rest))
]

-- What the milestone at a position carries over from the plan.
abbrev pub Matches : ℕ → MilestoneDef → Milestone → Type 0
Matches i d m =
    (m.index ≡ i)
    × (m.amount ≡ d.amount)
    × (m.description ≡ d.description)
    × (m.status ≡ MilestoneStatus.pending)
    × (m.resolution ≡ none)

fresh_milestones-get_elem? :
    (i n : ℕ) (defs : List MilestoneDef) {d : MilestoneDef}
    → i + length defs ≤ 2 ^ 32
    → get_elem? defs n ≡ some d
    → (m : Milestone) × (get_elem? (fresh_milestones i defs) n ≡ some m) × Matches (n + i) d m
unfolding fresh_milestones
fresh_milestones-get_elem? i n [] w h = cc
fresh_milestones-get_elem? i zero (d ∷ defs) w h = (
  record {
    index = i % 2 ^ 32;
    description = d.description;
    amount = d.amount;
    status = MilestoneStatus.pending;
    result_hash = none;
    completed_at_block = none;
    resolution = none;
  },
  refl,
  ground arith,
)
fresh_milestones-get_elem? i (suc n) (d ∷ defs) w h =
    let (m, found, same) = fresh_milestones-get_elem? (suc i) n defs (omega arith) h in
    (m, found, ground arith)

sum_of-fresh_milestones :
    (i : ℕ) (defs : List MilestoneDef)
    → sum_of (λ (m : Milestone). m.amount) (fresh_milestones i defs) ≡ plan_total defs
unfolding fresh_milestones
sum_of-fresh_milestones i [] = refl
sum_of-fresh_milestones i (d ∷ defs) = omega (arith, sum_of-fresh_milestones (suc i) defs)

length-fresh_milestones :
    (i : ℕ) (defs : List MilestoneDef) → length (fresh_milestones i defs) ≡ length defs
unfolding fresh_milestones
length-fresh_milestones i [] = refl
length-fresh_milestones i (d ∷ defs) = ap suc (length-fresh_milestones (suc i) defs)

-- What is accepted meets every condition on a plan; the milestones add up to the escrow, there is
-- one for each entry of the plan, and each carries its entry's amount and text under its position
-- as its index, pending and with no resolution.
pub materialize-Matches :
    (defs : List MilestoneDef) (escrow_amount : ℕ) {ms : List Milestone}
    → materialize_agreement_milestones defs escrow_amount ≡ ok ms
    → IsPlan defs escrow_amount
      × (sum_of (λ (m : Milestone). m.amount) ms ≡ escrow_amount)
      × (length ms ≡ length defs)
      × ((n : ℕ) (d : MilestoneDef)
          → get_elem? defs n ≡ some d
          → (m : Milestone) × (get_elem? ms n ≡ some m) × Matches n d m)
materialize-Matches defs escrow_amount h =
    let (plan, fresh) = materialize-IsPlan defs escrow_amount h in
    (
      plan,
      rw (fresh, sum_of-fresh_milestones) plan.funded,
      rw (fresh, length-fresh_milestones),
      λ n d e.
          let (m, found, same) = fresh_milestones-get_elem? 0 n defs (omega (arith, plan.few)) e in
          (m, rw fresh found, ground arith),
    )
