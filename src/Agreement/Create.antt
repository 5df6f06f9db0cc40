-- ===== src/Agreement/Create.antt =====
-- agreement.rs: `validate_agreement_create_stateless`.
pub mod Accepts
use zincha_sdk.Base.{
  zero, Bool, false, not, ◌||◌, Option, none, some, List, [], ◌∷◌, ltb, if◌then◌else◌, length, ◌==◌,
  nat_eq, contains, list_eq, option_eq, Result, ok, err, ◌>>=◌, ◌>>◌, fail_if,
}
use zincha_sdk.Crypto.Bytes.{Address}
use zincha_sdk.Agreement.Data.{
  AgreementCreateData, AgreementError, SameEntity, too_few_parties, too_many_parties,
  proposer_not_party, duplicate_party, zero_escrow, terms_too_large, arbitrator_is_party,
  arbitrator_same_entity, provider_not_party, provider_is_proposer,
}
use zincha_sdk.Agreement.Milestones.{materialize_agreement_milestones}
use zincha_sdk.Agreement.Settlement.{
  agreement_service_provider_involves_third_party, resolve_agreement_settlement_allocations,
  resolve_agreement_settlement_approver,
}

-- the loop over the parties with its hash set
unfoldable pub check_parties : List Address → List Address → Result AgreementError (Unit {0})
check_parties seen [] = ok tt
check_parties seen (party ∷ rest) =
    let others = check_parties (party ∷ seen) rest in
    if contains seen party then err (duplicate_party party) else others

-- the loop that compares the arbitrator's entity with each party's
unfoldable pub any_same : SameEntity → Address → List Address → Bool
any_same same_entity a [] = false
any_same same_entity a (party ∷ rest) = same_entity a party || any_same same_entity a rest

unfoldable pub check_arbitrator :
    SameEntity → List Address → Option Address → Result AgreementError (Unit {0})
unfolding any_same
check_arbitrator same_entity parties none = ok tt
check_arbitrator same_entity parties (some arbitrator) = do
  fail_if (contains parties arbitrator) arbitrator_is_party
  fail_if (any_same same_entity arbitrator parties) arbitrator_same_entity

-- the checks on the parties, the escrow and the terms, before the milestones
unfoldable pub check_frame : Address → AgreementCreateData → Result AgreementError (Unit {0})
unfolding check_parties
check_frame proposer d = do
  fail_if (ltb (length d.parties) 2) too_few_parties
  fail_if (ltb 10 (length d.parties)) (too_many_parties (length d.parties))
  fail_if (not (contains d.parties proposer)) proposer_not_party
  check_parties [] d.parties
  fail_if (d.escrow_amount == 0) zero_escrow
  fail_if (ltb 65536 (length d.terms)) (terms_too_large (length d.terms))

-- the checks on the service provider
unfoldable pub check_provider :
    SameEntity → Address → AgreementCreateData → Result AgreementError (Unit {0})
unfolding agreement_service_provider_involves_third_party
check_provider same_entity proposer d = do
  fail_if (not (contains d.parties d.service_provider)) provider_not_party
  fail_if
      (not
        (agreement_service_provider_involves_third_party proposer d.service_provider same_entity))
      provider_is_proposer

unfoldable pub validate_agreement_create_stateless :
    Address → AgreementCreateData → SameEntity → Result AgreementError (Unit {0})
unfolding check_frame check_arbitrator check_provider
validate_agreement_create_stateless proposer d same_entity = do
  check_frame proposer d
  milestones ← materialize_agreement_milestones d.milestones d.escrow_amount
  check_arbitrator same_entity d.parties d.arbitrator
  check_provider same_entity proposer d
  allocations ←
      resolve_agreement_settlement_allocations proposer d.parties d.service_provider
        d.settlement_allocations same_entity
  approver ←
      resolve_agreement_settlement_approver proposer d.parties allocations d.settlement_approver
        same_entity
  ok tt
