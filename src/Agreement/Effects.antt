-- ===== src/Agreement/Effects.antt =====
-- agreement.rs: the reputation effects of a dispute's resolution.
pub mod Canonical
use zincha_sdk.Base.Sort.{sort}
use zincha_sdk.Base.{
  ℕ, Bool, true, false, not, ◌&&◌, ◌||◌, Option, none, some, List, [], ◌∷◌, leb, if◌then◌else◌,
  ◌==◌, nat_eq, contains, list_eq, option_eq, Result, ok, ◌>>=◌, ◌>>◌, fail_if,
}
use zincha_sdk.Crypto.Bytes.{Address, Text, bytes_le, is_empty}
use zincha_sdk.Agreement.Data.{
  AgreementDisputePartyOutcome, AgreementDisputeReputationEffect, AgreementError, SameEntity,
  DisputeResolution, AgreementPayoutShare, effect_not_party, duplicate_effect, one_sided_effects,
  same_entity_effects,
}

-- `outcome as u8`
abbrev pub rank : AgreementDisputePartyOutcome → ℕ
rank AgreementDisputePartyOutcome.won = 0
rank AgreementDisputePartyOutcome.lost = 1

abbrev pub is_won : AgreementDisputePartyOutcome → Bool
is_won AgreementDisputePartyOutcome.won = true
is_won AgreementDisputePartyOutcome.lost = false

abbrev pub is_lost : AgreementDisputePartyOutcome → Bool
is_lost o = not (is_won o)

-- The comparison of `sort_by`, `lhs <= rhs`: by the party's bytes, then by the outcome.
unfoldable pub effect_le :
    AgreementDisputeReputationEffect → AgreementDisputeReputationEffect → Bool
effect_le lhs rhs =
    if lhs.party == rhs.party
    then leb (rank lhs.outcome) (rank rhs.outcome)
    else bytes_le lhs.party rhs.party

-- What the loop over the effects leaves behind, besides the copied list.
pub record Seen : Type 0 where
  pub parties_seen : List Address
  pub saw_winner : Bool
  pub saw_loser : Bool

unfoldable pub scan_effects :
    List Address → Seen → List AgreementDisputeReputationEffect → Result AgreementError Seen
scan_effects parties seen [] = ok seen
scan_effects parties seen (effect ∷ rest) = do
  fail_if (not (contains parties effect.party)) effect_not_party
  fail_if (contains seen.parties_seen effect.party) duplicate_effect
  scan_effects parties
      (record {
        parties_seen = effect.party ∷ seen.parties_seen;
        saw_winner = is_won effect.outcome || seen.saw_winner;
        saw_loser = is_lost effect.outcome || seen.saw_loser;
      })
      rest

-- the inner loop over `other_index`
unfoldable pub same_as_later :
    SameEntity → AgreementDisputeReputationEffect → List AgreementDisputeReputationEffect → Bool
same_as_later same_entity effect [] = false
same_as_later same_entity effect (other ∷ rest) =
    same_entity effect.party other.party || same_as_later same_entity effect rest

-- the outer loop over `index`
unfoldable pub any_same_entity : SameEntity → List AgreementDisputeReputationEffect → Bool
unfolding same_as_later
any_same_entity same_entity [] = false
any_same_entity same_entity (effect ∷ rest) =
    same_as_later same_entity effect rest || any_same_entity same_entity rest

unfoldable pub normalize_dispute_reputation_effects :
    List Address
    → List AgreementDisputeReputationEffect
    → SameEntity
    → Result AgreementError (List AgreementDisputeReputationEffect)
unfolding scan_effects any_same_entity effect_le
normalize_dispute_reputation_effects parties effects same_entity = do
  seen ←
      scan_effects parties (record { parties_seen = []; saw_winner = false; saw_loser = false })
        effects
  fail_if (not (is_empty effects) && (not seen.saw_winner || not seen.saw_loser)) one_sided_effects
  fail_if (any_same_entity same_entity effects) same_entity_effects
  ok (sort effect_le effects)

-- `min_by` keeps the first of equal entries.
unfoldable pub min_address : Option Address → Address → Option Address
min_address none a = some a
min_address (some b) a = if bytes_le b a then some b else some a

-- the filter, the map and the minimum, from the least so far
unfoldable pub counterparty_from :
    Address
    → AgreementDisputePartyOutcome
    → SameEntity
    → Option Address
    → List AgreementDisputeReputationEffect
    → Option Address
unfolding min_address
counterparty_from party outcome same_entity least [] = least
counterparty_from party outcome same_entity least (effect ∷ rest) =
    let opposes =
      not (rank effect.outcome == rank outcome) && not (same_entity party effect.party) in
    counterparty_from party outcome same_entity
      (if opposes then min_address least effect.party else least) rest

unfoldable pub dispute_reputation_counterparty :
    Address
    → AgreementDisputePartyOutcome
    → List AgreementDisputeReputationEffect
    → SameEntity
    → Option Address
unfolding counterparty_from
dispute_reputation_counterparty party outcome effects same_entity =
    counterparty_from party outcome same_entity none effects

-- DisputeResolution::new
unfoldable pub new_resolution :
    List AgreementPayoutShare
    → List AgreementDisputeReputationEffect
    → Text
    → ℕ
    → Option ℕ
    → DisputeResolution
unfolding effect_le
new_resolution payouts reputation_effects reason resolved_at_block milestone_index = record {
  payouts = payouts;
  reputation_effects = sort effect_le reputation_effects;
  reason = reason;
  resolved_at_block = resolved_at_block;
  milestone_index = milestone_index;
}
