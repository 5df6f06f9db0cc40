-- ===== src/Agreement/Settlement.antt =====
-- agreement.rs: who may receive the escrow, in which shares, and who approves its release.
pub mod Shares
pub mod Approver
use zincha_sdk.Base.{
  ℕ, zero, Bool, true, false, not, ◌&&◌, ◌||◌, Option, none, some, List, [], ◌∷◌, map, ltb,
  if◌then◌else◌, length, sat_add32, ◌==◌, nat_eq, contains, list_eq, option_eq, Result, ok, ◌>>=◌,
  ◌>>◌, fail_if,
}
use zincha_sdk.Crypto.Bytes.{Address, is_empty}
use zincha_sdk.Agreement.Data.{
  AgreementPayoutShare, AgreementError, SameEntity, zero_share, recipient_not_party,
  duplicate_recipient, shares_not_whole, no_third_party, provider_unpaid, approver_not_party,
  approver_required, approver_not_independent,
}

-- the loop of `settlement_approver_is_independent`: its `continue` and its `return false`
unfoldable pub settlement_approver_is_independent :
    Address → Address → List AgreementPayoutShare → SameEntity → Bool
settlement_approver_is_independent proposer approver [] same_entity = true
settlement_approver_is_independent proposer approver (a ∷ rest) same_entity =
    let others = settlement_approver_is_independent proposer approver rest same_entity in
    if same_entity proposer a.recipient
    then others
    else if same_entity approver a.recipient
    then false
    else others

-- `iter().any(|recipient| !same_entity(proposer, recipient))`
unfoldable pub any_third_party : Address → List Address → SameEntity → Bool
any_third_party proposer [] same_entity = false
any_third_party proposer (r ∷ rest) same_entity =
    not (same_entity proposer r) || any_third_party proposer rest same_entity

unfoldable pub agreement_involves_third_party : Address → List Address → SameEntity → Bool
unfolding any_third_party
agreement_involves_third_party proposer recipients same_entity =
    not (is_empty recipients) && any_third_party proposer recipients same_entity

unfoldable pub agreement_service_provider_involves_third_party :
    Address → Address → SameEntity → Bool
agreement_service_provider_involves_third_party proposer service_provider same_entity =
    not (same_entity proposer service_provider)

-- The loop over the allocations: `seen` is the hash set, `total` the saturating u32 sum. It returns
-- the sum.
unfoldable pub check_allocations :
    List Address → List Address → ℕ → List AgreementPayoutShare → Result AgreementError ℕ
check_allocations parties seen total [] = ok total
check_allocations parties seen total (a ∷ rest) = do
  fail_if (a.share_bps == 0) zero_share
  fail_if (not (contains parties a.recipient)) recipient_not_party
  fail_if (contains seen a.recipient) duplicate_recipient
  check_allocations parties (a.recipient ∷ seen) (sat_add32 total a.share_bps) rest

abbrev pub recipients_of : List AgreementPayoutShare → List Address
recipients_of = map (λ a. a.recipient)

-- the share of the whole, 10_000 basis points
abbrev pub whole_bps : ℕ
whole_bps = 10000

unfoldable pub resolve_agreement_settlement_allocations :
    Address
    → List Address
    → Address
    → List AgreementPayoutShare
    → SameEntity
    → Result AgreementError (List AgreementPayoutShare)
unfolding agreement_involves_third_party
resolve_agreement_settlement_allocations proposer parties service_provider [] same_entity =
    ok (record { recipient = service_provider; share_bps = whole_bps } ∷ [])
resolve_agreement_settlement_allocations proposer parties service_provider (a ∷ rest) same_entity =
    do
      let allocations = a ∷ rest
      total ← check_allocations parties [] 0 allocations
      fail_if (not (total == whole_bps)) shares_not_whole
      let recipients = recipients_of allocations
      fail_if (not (agreement_involves_third_party proposer recipients same_entity)) no_third_party
      fail_if (not (contains recipients service_provider)) provider_unpaid
      ok allocations

-- the `if let … else if … else` that chooses the approver
unfoldable pub choose_approver :
    Address → List Address → Option Address → Result AgreementError Address
choose_approver proposer parties (some approver) =
    fail_if (not (contains parties approver)) approver_not_party >> ok approver
choose_approver proposer parties none =
    fail_if (ltb 2 (length parties)) approver_required >> ok proposer

unfoldable pub resolve_agreement_settlement_approver :
    Address
    → List Address
    → List AgreementPayoutShare
    → Option Address
    → SameEntity
    → Result AgreementError Address
unfolding choose_approver settlement_approver_is_independent
resolve_agreement_settlement_approver proposer parties allocations settlement_approver same_entity =
    do
      approver ← choose_approver proposer parties settlement_approver
      let independent = settlement_approver_is_independent proposer approver allocations same_entity
      fail_if (not independent) approver_not_independent
      ok approver
