-- ===== src/Agreement/Effects/Canonical.antt =====
-- The reputation effects of a resolution are stored in one canonical order.
use native.Mathlib.Decide.{ℕ_discrete}
use mathlib.Core.HLevel.{hedberg}
use mathlib.Core.List.{Perm}
use zincha_sdk.Base.Sort.{sort, IsLinear, IsSorted, sort-perm, sort-IsSorted, sort-eq_of_perm}
use zincha_sdk.Base.{
  ◌≡◌, sym, ◌∙◌, true, false, List, arith, nat_eq, ==_iff, ==_comm, list_eq, option_eq, ok,
}
use zincha_sdk.Crypto.Bytes.{Address}
use zincha_sdk.Crypto.Bytes.Order.{bytes_le-total, bytes_le_trans, bytes_le-antisym}
use zincha_sdk.Agreement.Data.{
  AgreementDisputePartyOutcome, AgreementDisputeReputationEffect, SameEntity,
}
use zincha_sdk.Agreement.Effects.{rank, effect_le, normalize_dispute_reputation_effects}

abbrev Effect : Type 0
Effect = AgreementDisputeReputationEffect

rank_injective : (a b : AgreementDisputePartyOutcome) → rank a ≡ rank b → a ≡ b
rank_injective a b h = ground arith

effect_le-total : (a b : Effect) → effect_le a b ≡ false → effect_le b a ≡ true
unfolding effect_le
effect_le-total a b h = ground (arith, ==_comm a.party b.party, bytes_le-total a.party b.party)

effect_le-antisym : (a b : Effect) → effect_le a b ≡ true → effect_le b a ≡ true → a ≡ b
unfolding effect_le
effect_le-antisym a b h k = ground (
  arith,
  ==_iff a.party b.party,
  ==_comm a.party b.party,
  bytes_le-antisym a.party b.party,
  rank_injective a.outcome b.outcome,
)

effect_le_trans :
    (a b c : Effect) → effect_le a b ≡ true → effect_le b c ≡ true → effect_le a c ≡ true
unfolding effect_le
effect_le_trans a b c h k = ground (
  arith,
  ==_iff a.party b.party,
  ==_iff b.party c.party,
  ==_iff a.party c.party,
  bytes_le_trans a.party b.party c.party,
  bytes_le-antisym a.party b.party,
)

pub effect_le-IsLinear : IsLinear effect_le
effect_le-IsLinear = record {
  total = effect_le-total;
  trans = effect_le_trans;
  antisym = effect_le-antisym;
}

Effect-discrete : Discrete Effect
Effect-discrete = hlevel ℕ_discrete

normalize-sorts :
    (parties : List Address) (effects : List Effect) (same_entity : SameEntity) {out : List Effect}
    → normalize_dispute_reputation_effects parties effects same_entity ≡ ok out
    → out ≡ sort effect_le effects
unfolding normalize_dispute_reputation_effects
normalize-sorts parties effects same_entity h = ground arith

-- Accepted effects are stored sorted, and are the submitted ones.
normalize-IsSorted :
    (parties : List Address) (effects : List Effect) (same_entity : SameEntity) {out : List Effect}
    → normalize_dispute_reputation_effects parties effects same_entity ≡ ok out
    → IsSorted effect_le out × Perm out effects
normalize-IsSorted parties effects same_entity h =
    let e = normalize-sorts parties effects same_entity h in
    rw e (
      sort-IsSorted effect_le effect_le-IsLinear effects,
      sort-perm effect_le effect_le-IsLinear effects,
    )

-- The stored form does not depend on the order of submission: two submissions of the same effects
-- that are both accepted are stored as the same list.
pub normalize_canonical :
    (parties : List Address) (effects effects' : List Effect) (same_entity : SameEntity)
    {out out' : List Effect}
    → Perm effects effects'
    → normalize_dispute_reputation_effects parties effects same_entity ≡ ok out
    → normalize_dispute_reputation_effects parties effects' same_entity ≡ ok out'
    → out ≡ out'
normalize_canonical parties effects effects' same_entity p h h' =
    normalize-sorts parties effects same_entity h
    ∙ sort-eq_of_perm effect_le effect_le-IsLinear (hedberg Effect-discrete) p
    ∙ sym (normalize-sorts parties effects' same_entity h')
