-- ===== src/Agreement/Settlement/Approver.antt =====
-- agreement.rs: who may approve the release of the escrow.
use zincha_sdk.Base.{
  ◌≤◌, ◌≡◌, ◌↔◌, inl, inr, true, false, Option, none, some, List, [], ◌∷◌, arith, length, All,
  nat_eq, contains, list_eq, option_eq, ok, Result-cases,
}
use zincha_sdk.Crypto.Bytes.{Address}
use zincha_sdk.Agreement.Data.{AgreementPayoutShare, SameEntity}
use zincha_sdk.Agreement.Settlement.{
  settlement_approver_is_independent, choose_approver, resolve_agreement_settlement_approver,
}

-- The approver is no payee in disguise: of an allocation that does not go to the proposer's own
-- entity, it is not of the recipient's entity.
abbrev pub IsIndependent : Address → Address → SameEntity → List AgreementPayoutShare → Type 0
IsIndependent proposer approver same_entity allocs =
    All (λ a. same_entity proposer a.recipient ≡ false → same_entity approver a.recipient ≡ false)
      allocs

IsIndependent-iff :
    (proposer approver : Address) (allocs : List AgreementPayoutShare) (same_entity : SameEntity)
    → (settlement_approver_is_independent proposer approver allocs same_entity ≡ true)
      ↔ IsIndependent proposer approver same_entity allocs
unfolding settlement_approver_is_independent
IsIndependent-iff proposer approver [] same_entity = ground arith
IsIndependent-iff proposer approver (a ∷ rest) same_entity =
    ground (arith, IsIndependent-iff proposer approver rest same_entity)

-- Who is chosen before the independence test: the named party, or the proposer of an agreement
-- between two.
abbrev pub IsChosen : Address → List Address → Option Address → Address → Type 0
IsChosen proposer parties (some named) approver =
    (contains parties named ≡ true) × (approver ≡ named)
IsChosen proposer parties none approver = (length parties ≤ 2) × (approver ≡ proposer)

choose_approver_iff :
    (proposer : Address) (parties : List Address) (named : Option Address) (approver : Address)
    → (choose_approver proposer parties named ≡ ok approver)
      ↔ IsChosen proposer parties named approver
unfolding choose_approver
choose_approver_iff proposer parties none approver = ground arith
choose_approver_iff proposer parties (some a) approver = ground arith

-- An approver is returned exactly if it is the named party, or nobody is named, there are at most
-- two parties and it is the proposer; and if it is independent of the payees.
pub resolve_approver_iff :
    (proposer : Address) (parties : List Address) (allocs : List AgreementPayoutShare)
    (named : Option Address) (same_entity : SameEntity) (approver : Address)
    → (resolve_agreement_settlement_approver proposer parties allocs named same_entity
        ≡ ok approver)
      ↔ (IsChosen proposer parties named approver
          × IsIndependent proposer approver same_entity allocs)
unfolding resolve_agreement_settlement_approver
resolve_approver_iff proposer parties allocs named same_entity approver =
    elim (Result-cases (choose_approver proposer parties named)) [
      | inl (chosen, e) ↦ ground (
        arith,
        choose_approver_iff proposer parties named chosen,
        choose_approver_iff proposer parties named approver,
        IsIndependent-iff proposer chosen allocs same_entity,
        IsIndependent-iff proposer approver allocs same_entity,
      )
      | inr (reason, e) ↦ ground (arith, choose_approver_iff proposer parties named approver)
    ]
