-- ===== src/Agreement/Create/Accepts.antt =====
-- What a creation payload that passes the stateless validation of agreement.rs guarantees.
use mathlib.Core.List.{Mem, Nodup}
use zincha_sdk.Base.{
  ◌≤◌, ◌<◌, ◌≡◌, refl, inl, inr, true, false, Option, none, some, List, [], ◌∷◌, arith, length, All,
  nat_eq, ==_refl, ==_iff, contains, contains_iff, not-contains_iff, distinct, distinct_iff,
  list_eq, option_eq, ok, >>=-eq-ok, Result-cases,
}
use zincha_sdk.Crypto.Bytes.{Address}
use zincha_sdk.Agreement.Data.{AgreementCreateData, SameEntity, AgreementPayoutShare}
use zincha_sdk.Agreement.Milestones.{materialize_agreement_milestones}
use zincha_sdk.Agreement.Milestones.Plan.{IsPlan, materialize-IsPlan}
use zincha_sdk.Agreement.Settlement.{
  resolve_agreement_settlement_allocations, resolve_agreement_settlement_approver,
}
use zincha_sdk.Agreement.Settlement.Shares.{IsSettlement, resolve_allocations-settles}
use zincha_sdk.Agreement.Settlement.Approver.{IsChosen, IsIndependent, resolve_approver_iff}
use zincha_sdk.Agreement.Create.{
  check_parties, any_same, check_arbitrator, check_frame, check_provider,
  validate_agreement_create_stateless,
}

-- No party stands twice, nor in `seen`.
abbrev AreNew : List Address → List Address → Type 0
AreNew seen [] = Unit
AreNew seen (p ∷ rest) = (contains seen p ≡ false) × AreNew (p ∷ seen) rest

check_parties-ok :
    (seen parties : List Address) → check_parties seen parties ≡ ok tt → AreNew seen parties
unfolding check_parties
check_parties-ok seen [] h = tt
check_parties-ok seen (p ∷ rest) h = ground (arith, check_parties-ok (p ∷ seen) rest)

AreNew-contains :
    (seen parties : List Address) (p : Address)
    → AreNew seen parties
    → contains seen p ≡ true
    → contains parties p ≡ false
AreNew-contains seen [] p n h = refl
AreNew-contains seen (q ∷ rest) p n h =
    ground (arith, ==_iff p q, AreNew-contains (q ∷ seen) rest p)

AreNew-distinct : (seen parties : List Address) → AreNew seen parties → distinct parties ≡ true
AreNew-distinct seen [] n = refl
AreNew-distinct seen (p ∷ rest) n =
    ground
      (arith, ==_refl p, AreNew-contains (p ∷ seen) rest p, AreNew-distinct (p ∷ seen) rest n.1)

any_same-false :
    (same_entity : SameEntity) (a : Address) (parties : List Address)
    → any_same same_entity a parties ≡ false
    → All (λ p. same_entity a p ≡ false) parties
unfolding any_same
any_same-false same_entity a [] h = tt
any_same-false same_entity a (p ∷ rest) h = ground (arith, any_same-false same_entity a rest)

-- An arbitrator is no party and of no party's entity.
abbrev pub IsOutsider : SameEntity → List Address → Option Address → Type 0
IsOutsider same_entity parties none = Unit
IsOutsider same_entity parties (some a) =
    (¬ Mem a parties) × All (λ p. same_entity a p ≡ false) parties

check_arbitrator-ok :
    (same_entity : SameEntity) (parties : List Address) (arbitrator : Option Address)
    → check_arbitrator same_entity parties arbitrator ≡ ok tt
    → IsOutsider same_entity parties arbitrator
unfolding check_arbitrator
check_arbitrator-ok same_entity parties none h = tt
check_arbitrator-ok same_entity parties (some a) h = (
  (not-contains_iff parties a).0 (ground arith),
  any_same-false same_entity a parties (ground arith),
)

-- The frame of an agreement: two to ten different parties, the proposer among them, and an escrow.
pub record IsFramed (proposer : Address) (d : AgreementCreateData) : Type 0 where
  pub enough : 2 ≤ length d.parties
  pub few : length d.parties ≤ 10
  pub different : Nodup d.parties
  pub proposer_joins : Mem proposer d.parties
  pub escrowed : 0 < d.escrow_amount
  pub terms_fit : length d.terms ≤ 65536

check_frame-ok :
    (proposer : Address) (d : AgreementCreateData)
    → check_frame proposer d ≡ ok tt
    → IsFramed proposer d
unfolding check_frame
check_frame-ok proposer d h = elim (Result-cases (check_parties [] d.parties)) [
  | inr (reason, e) ↦ ground arith
  | inl (u, e) ↦
      let facts : (2 ≤ length d.parties)
          × (length d.parties ≤ 10)
          × (contains d.parties proposer ≡ true)
          × (0 < d.escrow_amount)
          × (length d.terms ≤ 65536) =
        ground arith in
      record {
        enough = facts.0;
        few = facts.1;
        different =
            (distinct_iff d.parties).0
              (AreNew-distinct [] d.parties (check_parties-ok [] d.parties e));
        proposer_joins = (contains_iff d.parties proposer).0 facts.2;
        escrowed = facts.3;
        terms_fit = facts.4;
      }
]

check_provider-ok :
    (same_entity : SameEntity) (proposer : Address) (d : AgreementCreateData)
    → check_provider same_entity proposer d ≡ ok tt
    → (contains d.parties d.service_provider ≡ true)
      × (same_entity proposer d.service_provider ≡ false)
unfolding check_provider
check_provider-ok same_entity proposer d h = ground arith

-- What the validation establishes of a creation payload.
pub record IsAccepted (proposer : Address) (d : AgreementCreateData) (same_entity : SameEntity)
    : Type 0 where
  pub framed : IsFramed proposer d
  pub planned : IsPlan d.milestones d.escrow_amount
  pub outsider : IsOutsider same_entity d.parties d.arbitrator
  pub provider_joins : Mem d.service_provider d.parties
  pub provider_other : same_entity proposer d.service_provider ≡ false
  pub allocations : List AgreementPayoutShare
  pub resolved :
      resolve_agreement_settlement_allocations proposer d.parties d.service_provider
        d.settlement_allocations same_entity
      ≡ ok allocations
  pub settled : IsSettlement d.parties d.service_provider allocations
  pub approver : Address
  pub chosen : IsChosen proposer d.parties d.settlement_approver approver
  pub independent : IsIndependent proposer approver same_entity allocations

-- A payload that passes has two to ten different parties with the proposer among them, a positive
-- escrow that its one to twenty milestones add up to, terms of bounded size, an arbitrator from
-- outside, a provider who is a party of another entity than the proposer, allocations that share
-- the whole escrow among parties with the provider paid, and an approver who is a party or the
-- proposer and independent of the payees.
pub validate-IsAccepted :
    (proposer : Address) (d : AgreementCreateData) (same_entity : SameEntity)
    → validate_agreement_create_stateless proposer d same_entity ≡ ok tt
    → IsAccepted proposer d same_entity
unfolding validate_agreement_create_stateless
validate-IsAccepted proposer d same_entity h =
    let (u, framed, h1) = >>=-eq-ok (check_frame proposer d) _ h in
    let (ms, planned, h2) =
      >>=-eq-ok (materialize_agreement_milestones d.milestones d.escrow_amount) _ h1 in
    let (v, outsider, h3) = >>=-eq-ok (check_arbitrator same_entity d.parties d.arbitrator) _ h2 in
    let (w, provider, h4) = >>=-eq-ok (check_provider same_entity proposer d) _ h3 in
    let (allocs, resolved, h5) =
      >>=-eq-ok
        (resolve_agreement_settlement_allocations proposer d.parties d.service_provider
          d.settlement_allocations same_entity)
        _ h4 in
    let (approver, approved, h6) =
      >>=-eq-ok
        (resolve_agreement_settlement_approver proposer d.parties allocs d.settlement_approver
          same_entity)
        _ h5 in
    let (joins, other) = check_provider-ok same_entity proposer d provider in
    let (chosen, independent) =
      (resolve_approver_iff proposer d.parties allocs d.settlement_approver same_entity approver).0
        approved in
    record {
      framed = check_frame-ok proposer d framed;
      planned = (materialize-IsPlan d.milestones d.escrow_amount planned).0;
      outsider = check_arbitrator-ok same_entity d.parties d.arbitrator outsider;
      provider_joins = (contains_iff d.parties d.service_provider).0 joins;
      provider_other = other;
      allocations = allocs;
      resolved = resolved;
      settled =
          resolve_allocations-settles proposer d.parties d.service_provider d.settlement_allocations
            same_entity joins resolved;
      approver = approver;
      chosen = chosen;
      independent = independent;
    }
