-- ===== src/Agreement/Lifecycle/Resolutions.antt =====
-- agreement.rs: where dispute resolutions are stored, and that moving them loses none.
use zincha_sdk.Base.{
  ℕ, zero, suc, ◌≤◌, ◌≡◌, refl, ap, inl, inr, Bool, true, false, ◌&&◌, Option, none, some, List, [],
  ◌∷◌, arith, ltb, if◌then◌else◌, Option-cases, length, ◌==◌, nat_eq, list_eq, option_eq,
}
use zincha_sdk.Agreement.Data.{Agreement, Milestone, DisputeResolution}
use zincha_sdk.Agreement.Lifecycle.{
  put_resolution, move_resolution, normalize_resolution_storage, record_milestone_resolution,
  record_whole_agreement_resolution, milestone_resolution, resolution_for,
}

-- The resolution of a milestone, wherever it is stored: its own, or one that the agreement still
-- holds for its index.
abbrev held_for : Option DisputeResolution → ℕ → Option DisputeResolution
held_for none i = none
held_for (some r) i = elim r.milestone_index [
  | none ↦ none
  | some j ↦ if j == i then some r else none
]

abbrev or_else : Option DisputeResolution → Option DisputeResolution → Option DisputeResolution
or_else none other = other
or_else (some r) other = some r

abbrev pub effective_resolution : Agreement → ℕ → Option DisputeResolution
effective_resolution a i =
    if ltb i (length a.milestones)
    then or_else (milestone_resolution a.milestones i) (held_for a.resolution i)
    else none

length-put_resolution :
    (keep : Bool) (r : DisputeResolution) (i : ℕ) (ms : List Milestone)
    → length (put_resolution keep r i ms) ≡ length ms
unfolding put_resolution
length-put_resolution keep r i [] = refl
length-put_resolution keep r zero (m ∷ ms) = refl
length-put_resolution keep r (suc i) (m ∷ ms) = ap suc (length-put_resolution keep r i ms)

milestone_resolution-put :
    (keep : Bool) (r : DisputeResolution) (i j : ℕ) (ms : List Milestone)
    → milestone_resolution (put_resolution keep r i ms) j ≡ (
        if i == j && ltb j (length ms)
        then if keep then or_else (milestone_resolution ms j) (some r) else some r
        else milestone_resolution ms j)
unfolding put_resolution milestone_resolution
milestone_resolution-put keep r i j [] = ground arith
milestone_resolution-put keep r zero zero (m ∷ ms) = ground arith
milestone_resolution-put keep r zero (suc j) (m ∷ ms) = ground arith
milestone_resolution-put keep r (suc i) zero (m ∷ ms) = ground arith
milestone_resolution-put keep r (suc i) (suc j) (m ∷ ms) =
    ground (arith, milestone_resolution-put keep r i j ms)

milestone_resolution-beyond :
    (ms : List Milestone) (j : ℕ) → length ms ≤ j → milestone_resolution ms j ≡ none
unfolding milestone_resolution
milestone_resolution-beyond [] j h = refl
milestone_resolution-beyond (m ∷ ms) zero h = absurd (omega arith)
milestone_resolution-beyond (m ∷ ms) (suc j) h = milestone_resolution-beyond ms j (omega arith)

move_resolution-view :
    (a : Agreement) (r : DisputeResolution) (i j : ℕ)
    → a.resolution ≡ some r
    → r.milestone_index ≡ some i
    → resolution_for (some j) (move_resolution r i a) ≡ effective_resolution a j
unfolding resolution_for move_resolution
move_resolution-view a r i j e k =
    rw (e, k)
      (ground (
        arith,
        milestone_resolution-put true r i j a.milestones,
        milestone_resolution-beyond a.milestones j,
      ))

-- Moving a resolution to its milestone shows each milestone the resolution it effectively had.
normalize_view :
    (a : Agreement) (j : ℕ)
    → resolution_for (some j) (normalize_resolution_storage a) ≡ effective_resolution a j
unfolding normalize_resolution_storage resolution_for
normalize_view a j = elim (Option-cases a.resolution) [
  | inl e ↦ ground (arith, milestone_resolution-beyond a.milestones j)
  | inr (r, e) ↦ elim (Option-cases r.milestone_index) [
    | inl k ↦ ground (arith, milestone_resolution-beyond a.milestones j)
    | inr (i, k) ↦ ground (arith, move_resolution-view a r i j e k)
  ]
]

-- Nothing is left to move after a move.
pub normalize_idem :
    (a : Agreement)
    → normalize_resolution_storage (normalize_resolution_storage a) ≡ normalize_resolution_storage a
unfolding normalize_resolution_storage move_resolution
normalize_idem a = ground arith

length-normalize :
    (a : Agreement) → length (normalize_resolution_storage a).milestones ≡ length a.milestones
unfolding normalize_resolution_storage move_resolution
length-normalize a = elim (Option-cases a.resolution) [
  | inl e ↦ ground arith
  | inr (r, e) ↦ elim (Option-cases r.milestone_index) [
    | inl k ↦ ground arith
    | inr (i, k) ↦ ground (arith, length-put_resolution true r i a.milestones)
  ]
]

-- Recording a milestone's resolution sets it for that milestone, if there is one at the index, and
-- leaves every other milestone the resolution that it effectively had. The agreement itself holds
-- none afterwards.
record_milestone_lem :
    (a : Agreement) (i j : ℕ) (r : DisputeResolution)
    → (resolution_for (some j) (record_milestone_resolution i r a)
        ≡ (if i == j && ltb j (length a.milestones) then some r else effective_resolution a j))
      × (resolution_for none (record_milestone_resolution i r a) ≡ none)
unfolding record_milestone_resolution resolution_for
record_milestone_lem a i j r = (
  ground (
    arith,
    milestone_resolution-put false r i j (normalize_resolution_storage a).milestones,
    length-normalize a,
    normalize_view a j,
  ),
  refl,
)

-- Recording a resolution of the whole agreement sets it, and leaves every milestone the resolution
-- that it effectively had.
record_whole_lem :
    (a : Agreement) (j : ℕ) (r : DisputeResolution)
    → (resolution_for none (record_whole_agreement_resolution r a) ≡ some r)
      × (resolution_for (some j) (record_whole_agreement_resolution r a) ≡ effective_resolution a j)
unfolding record_whole_agreement_resolution resolution_for
record_whole_lem a j r = (refl, normalize_view a j)
