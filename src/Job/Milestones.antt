-- ===== src/Job/Milestones.antt =====
-- tool.rs: the milestones of a job, their amounts and the one that is open.
use zincha_sdk.Base.{
  ℕ, zero, suc, ◌+◌, ◌%◌, ◌^◌, ◌<◌, ◌≡◌, refl, sym, ap, ◌∙◌, inl, inr, true, false, some, List, [],
  ◌∷◌, arith, Bool-cases, Option-cases, length, get_elem?, set, drop, get_elem?-set_self, sat_add,
  nat_eq, list_eq, option_eq,
}
use zincha_sdk.Job.{
  ToolJob, ToolMilestone, is_completed, first_open, current_milestone_index, current_milestone,
  amounts_where, completed_milestone_amount, unpaid_amount_from, clear_transient_result_state,
  reopened, open_at, with_index, milestone_at, open_current_milestone,
}

abbrev pub amount_total : List ToolMilestone → ℕ
amount_total [] = 0
amount_total (m ∷ ms) = m.amount + amount_total ms

amounts-split :
    (ms : List ToolMilestone) → amounts_where true ms + amounts_where false ms ≡ amount_total ms
unfolding amounts_where
amounts-split [] = refl
amounts-split (m ∷ ms) =
    let rest = amounts-split ms in
    elim (Bool-cases (is_completed m.status)) [
      | inl h ↦ rw h (omega arith)
      | inr h ↦ rw h (omega arith)
    ]

first_open-get :
    (ms : List ToolMilestone) {i : ℕ}
    → first_open ms ≡ some i
    → (m : ToolMilestone) × (get_elem? ms i ≡ some m)
      × (is_completed m.status ≡ false)
      × (amounts_where false (drop i ms) ≡ amounts_where false ms)
unfolding first_open amounts_where
first_open-get [] {i} e = cc
first_open-get (m ∷ ms) {i = zero} e = elim (Bool-cases (is_completed m.status)) [
  | inl h ↦ elim (Option-cases (first_open ms)) [
    | inl f ↦ let wrong = rw (h, f) at e in cc
    | inr (k, f) ↦ let wrong = rw (h, f) at e in cc
  ]
  | inr h ↦ (m, refl, h, refl)
]
first_open-get (m ∷ ms) {i = suc i} e = elim (Bool-cases (is_completed m.status)) [
  | inl h ↦ elim (Option-cases (first_open ms)) [
    | inl f ↦ let wrong = rw (h, f) at e in cc
    | inr (k, f) ↦
        let e = rw (h, f) at e in
        let same : k ≡ i = cc in
        let (n, found, is_open, rest) = first_open-get ms {i = i} (rw (sym same) f) in
        (n, found, is_open, rw h rest)
  ]
  | inr h ↦ let wrong = rw h at e in cc
]

-- What is completed and what is unpaid from the current milestone on make up all amounts, up to the
-- wrap-around of 64 bits; so does what is unpaid from the first one.
pub completed-unpaid :
    (j : ToolJob) {i : ℕ}
    → current_milestone_index j ≡ some i
    → ((completed_milestone_amount j + unpaid_amount_from j i) % 2 ^ 64
        ≡ amount_total j.milestones % 2 ^ 64)
      × (unpaid_amount_from j i ≡ unpaid_amount_from j 0)
unfolding current_milestone_index completed_milestone_amount unpaid_amount_from
completed-unpaid j {i} e =
    let (m, found, is_open, same) = first_open-get j.milestones {i = i} e in
    let split = amounts-split j.milestones in rw same (omega arith, refl)

-- Reopening the first milestone that is not completed changes neither which one that is nor an amount.
first_open-set :
    (d : ℕ) (ms : List ToolMilestone) (m : ToolMilestone) {i : ℕ}
    → first_open ms ≡ some i
    → get_elem? ms i ≡ some m
    → (first_open (set ms i (reopened d m)) ≡ some i)
      × (amounts_where true (set ms i (reopened d m)) ≡ amounts_where true ms)
      × (amounts_where false (set ms i (reopened d m)) ≡ amounts_where false ms)
unfolding first_open amounts_where reopened
first_open-set d [] m {i} e f = cc
first_open-set d (x ∷ ms) m {i = zero} e f = elim (Bool-cases (is_completed x.status)) [
  | inl h ↦ elim (Option-cases (first_open ms)) [
    | inl g ↦ let wrong = rw (h, g) at e in cc
    | inr (k, g) ↦ let wrong = rw (h, g) at e in cc
  ]
  | inr h ↦ let same : x ≡ m = cc in rw (h, sym same) (refl, refl, refl)
]
first_open-set d (x ∷ ms) m {i = suc i} e f = elim (Bool-cases (is_completed x.status)) [
  | inl h ↦ elim (Option-cases (first_open ms)) [
    | inl g ↦ let wrong = rw (h, g) at e in cc
    | inr (k, g) ↦
        let e = rw (h, g) at e in
        let same : k ≡ i = cc in
        let (first, done, left) = first_open-set d ms m {i = i} (rw (sym same) g) f in
        rw (h, first, done, left) (refl, refl, refl)
  ]
  | inr h ↦ let wrong = rw h at e in cc
]

get_elem?-bound :
    (ms : List ToolMilestone) {i : ℕ} {m : ToolMilestone} → get_elem? ms i ≡ some m → i < length ms
get_elem?-bound [] {i} e = cc
get_elem?-bound (x ∷ ms) {i = zero} e = omega arith
get_elem?-bound (x ∷ ms) {i = suc i} {m} e =
    let rest = get_elem?-bound ms {i = i} {m = m} e in omega arith

set-set :
    (ms : List ToolMilestone) (i : ℕ) (m n : ToolMilestone) → set (set ms i m) i n ≡ set ms i n
set-set [] i m n = refl
set-set (x ∷ ms) zero m n = refl
set-set (x ∷ ms) (suc i) m n = ap (λ l. x ∷ l) (set-set ms i m n)

reopened_idem : (d : ℕ) (m : ToolMilestone) → reopened d (reopened d m) ≡ reopened d m
unfolding reopened
reopened_idem d m = refl

-- the job that `open_current_milestone` makes with a current milestone
abbrev opened_with : ℕ → ToolJob → ℕ → ToolMilestone → ToolJob
opened_with now_ms j i m = open_at (sat_add now_ms j.sla_ms) j (some (i, m))

current_milestone-eq :
    (j : ToolJob) {i : ℕ} {m : ToolMilestone}
    → current_milestone_index j ≡ some i
    → get_elem? j.milestones i ≡ some m
    → current_milestone j ≡ some (i, m)
unfolding current_milestone
current_milestone-eq j {i} {m} e found = ap (milestone_at j.milestones) e ∙ ap (with_index i) found

open-eq :
    (now_ms : ℕ) (j : ToolJob) {i : ℕ} {m : ToolMilestone}
    → current_milestone_index j ≡ some i
    → get_elem? j.milestones i ≡ some m
    → open_current_milestone now_ms j ≡ opened_with now_ms j i m
unfolding open_current_milestone
open-eq now_ms j {i} {m} e found =
    ap (open_at (sat_add now_ms j.sla_ms) j) (current_milestone-eq j {i = i} {m = m} e found)

open-twice :
    (now_ms : ℕ) (j : ToolJob) (i : ℕ) (m : ToolMilestone)
    → opened_with now_ms (opened_with now_ms j i m) i (reopened (sat_add now_ms j.sla_ms) m)
      ≡ opened_with now_ms j i m
unfolding open_at clear_transient_result_state
open-twice now_ms j i m =
    let d = sat_add now_ms j.sla_ms in
    let twice =
      set-set j.milestones i (reopened d m) (reopened d (reopened d m))
      ∙ ap (set j.milestones i) (reopened_idem d m) in
    rw twice refl

-- Opening the current milestone of a job keeps it the current one, with the deadline that the
-- provider's time sets and nothing submitted or disputed, opens the job until that deadline, and
-- moves no amount between completed and unpaid. Opening it again at the same time changes nothing.
open_current_milestone_lem :
    (now_ms : ℕ) (j : ToolJob) {i : ℕ}
    → current_milestone_index j ≡ some i
    → let j' = open_current_milestone now_ms j in
      (current_milestone_index j' ≡ some i)
      × ((m : ToolMilestone) × (get_elem? j.milestones i ≡ some m)
          × (current_milestone j' ≡ some (i, reopened (sat_add now_ms j.sla_ms) m)))
      × (j'.submit_deadline ≡ sat_add now_ms j.sla_ms)
      × (completed_milestone_amount j' ≡ completed_milestone_amount j)
      × (unpaid_amount_from j' 0 ≡ unpaid_amount_from j 0)
      × (open_current_milestone now_ms j' ≡ j')
unfolding current_milestone_index completed_milestone_amount unpaid_amount_from open_at
    clear_transient_result_state
open_current_milestone_lem now_ms j {i} e =
    let d = sat_add now_ms j.sla_ms in
    let (m, found, is_open, _) = first_open-get j.milestones {i = i} e in
    let (first, done, left) = first_open-set d j.milestones m {i = i} e found in
    let within = get_elem?-bound j.milestones {i = i} {m = m} found in
    let there = get_elem?-set_self j.milestones i (reopened d m) within in
    let again = open-eq now_ms (opened_with now_ms j i m) {i = i} {m = reopened d m} first there in
    rw (open-eq now_ms j {i = i} {m = m} e found) (
      first,
      (
        m,
        found,
        current_milestone-eq (opened_with now_ms j i m) {i = i} {m = reopened d m} first there,
      ),
      refl,
      ap (λ n. n % 2 ^ 64) done,
      ap (λ n. n % 2 ^ 64) left,
      again ∙ open-twice now_ms j i m,
    )
