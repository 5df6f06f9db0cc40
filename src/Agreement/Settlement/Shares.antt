-- ===== src/Agreement/Settlement/Shares.antt =====
-- Which settlement plans of agreement.rs are accepted: shares, recipients and the approver.
use mathlib.Core.List.{Mem, Nodup, mem-cons_self}
use zincha_sdk.Base.{
  inl, inr, sym, ◌∙◌, Bool-cases, ℕ, ◌+◌, ◌≤◌, ◌<◌, min, ◌≡◌, refl, ◌↔◌, true, false, List, [], ◌∷◌,
  arith, sum_of, All, u32_max, sat_add32, nat_eq, ==_comm, contains, contains_iff, distinct,
  distinct_iff, list_eq, option_eq, Result, ok, >>=-eq-ok,
}
use mathlib.Core.Bool.{false≢true}
use zincha_sdk.Crypto.Bytes.{Address}
use zincha_sdk.Agreement.Data.{AgreementPayoutShare, AgreementError, SameEntity}
use zincha_sdk.Agreement.Settlement.{
  any_third_party, check_allocations, recipients_of, whole_bps,
  resolve_agreement_settlement_allocations,
}

abbrev pub total_bps : List AgreementPayoutShare → ℕ
total_bps = sum_of (λ a. a.share_bps)

-- Each share is positive and goes to a party.
abbrev pub IsPaidParty : List Address → AgreementPayoutShare → Type 0
IsPaidParty parties a = (0 < a.share_bps) × (contains parties a.recipient ≡ true)

-- What the loop's hash set shows: no recipient stands twice, nor among those seen before.
abbrev AreFresh : List Address → List AgreementPayoutShare → Type 0
AreFresh seen [] = Unit
AreFresh seen (a ∷ rest) = (contains seen a.recipient ≡ false) × AreFresh (a.recipient ∷ seen) rest

check_allocations-ok :
    (parties seen : List Address) (total : ℕ) (allocs : List AgreementPayoutShare) {t : ℕ}
    → total ≤ u32_max
    → check_allocations parties seen total allocs ≡ ok t
    → (t ≡ min (total + total_bps allocs) u32_max)
      × All (IsPaidParty parties) allocs
      × AreFresh seen allocs
unfolding check_allocations
check_allocations-ok parties seen total [] w h = ground arith
check_allocations-ok parties seen total (a ∷ allocs) {t} w h = ground (
  arith,
  check_allocations-ok parties (a.recipient ∷ seen) (sat_add32 total a.share_bps) allocs {t = t},
)

check_allocations-accepts :
    (parties seen : List Address) (total : ℕ) (allocs : List AgreementPayoutShare)
    → total ≤ u32_max
    → All (IsPaidParty parties) allocs
    → AreFresh seen allocs
    → check_allocations parties seen total allocs ≡ ok (min (total + total_bps allocs) u32_max)
unfolding check_allocations
check_allocations-accepts parties seen total [] w p f = ground arith
check_allocations-accepts parties seen total (a ∷ allocs) w p f = ground (
  arith,
  check_allocations-accepts parties (a.recipient ∷ seen) (sat_add32 total a.share_bps) allocs,
)

-- None of the recipients is in `seen`.
abbrev AreUnseen : List Address → List AgreementPayoutShare → Type 0
AreUnseen seen allocs = All (λ a. contains seen a.recipient ≡ false) allocs

AreUnseen-cons :
    (r : Address) (seen : List Address) (allocs : List AgreementPayoutShare)
    → AreUnseen (r ∷ seen) allocs
      ↔ ((contains (recipients_of allocs) r ≡ false) × AreUnseen seen allocs)
AreUnseen-cons r seen [] = ground arith
AreUnseen-cons r seen (a ∷ allocs) =
    ground (arith, ==_comm r a.recipient, AreUnseen-cons r seen allocs)

AreFresh-iff :
    (seen : List Address) (allocs : List AgreementPayoutShare)
    → AreFresh seen allocs ↔ ((distinct (recipients_of allocs) ≡ true) × AreUnseen seen allocs)
AreFresh-iff seen [] = ground arith
AreFresh-iff seen (a ∷ allocs) =
    ground (arith, AreFresh-iff (a.recipient ∷ seen) allocs, AreUnseen-cons a.recipient seen allocs)

AreUnseen-nil : (allocs : List AgreementPayoutShare) → AreUnseen [] allocs
AreUnseen-nil [] = tt
AreUnseen-nil (a ∷ allocs) = (refl, AreUnseen-nil allocs)

-- A settlement of the whole escrow among parties, each paid once.
pub record IsSettlement (parties : List Address) (service_provider : Address)
    (allocs : List AgreementPayoutShare) : Type 0 where
  pub whole : total_bps allocs ≡ whole_bps
  pub payees : All (IsPaidParty parties) allocs
  pub once : Nodup (recipients_of allocs)
  pub provider_paid : Mem service_provider (recipients_of allocs)

-- Someone of another entity than the proposer is paid, or all are of its entity.
any_third_party_iff :
    (proposer : Address) (same_entity : SameEntity) (recipients : List Address)
    → (any_third_party proposer recipients same_entity ≡ true)
      ↔ (¬ All (λ recipient. same_entity proposer recipient ≡ true) recipients)
unfolding any_third_party
any_third_party_iff proposer same_entity [] = (λ h. cc, λ others. absurd (others tt))
any_third_party_iff proposer same_entity (r ∷ rest) = elim (Bool-cases (same_entity proposer r)) [
  | inl same ↦ (
    λ h all. (any_third_party_iff proposer same_entity rest).0 (rw same at h) all.1,
    λ others.
        rw same ((any_third_party_iff proposer same_entity rest).1 (λ all. others (same, all))),
  )
  | inr other ↦ (λ h all. false≢true (sym other ∙ all.0), λ others. rw other refl)
]

module _ (proposer : Address) (parties : List Address) (service_provider : Address)
    (same_entity : SameEntity) (a : AgreementPayoutShare) (rest : List AgreementPayoutShare) where
  abbrev listed : List AgreementPayoutShare
  listed = a ∷ rest

  abbrev resolved : Result AgreementError (List AgreementPayoutShare)
  resolved =
      resolve_agreement_settlement_allocations proposer parties service_provider listed same_entity

  resolve_allocations-ok :
      {out : List AgreementPayoutShare}
      → resolved ≡ ok out
      → IsSettlement parties service_provider listed
        × (any_third_party proposer (recipients_of listed) same_entity ≡ true)
        × (out ≡ listed)
  unfolding resolve_agreement_settlement_allocations
  resolve_allocations-ok {out} h =
      let (total, checked, h') = >>=-eq-ok (check_allocations parties [] 0 listed) _ h in
      let (sum, payees, fresh) = check_allocations-ok parties [] 0 listed (omega arith) checked in
      let once = ((AreFresh-iff [] listed).0 fresh).0 in
      let tests : (total ≡ whole_bps)
          × (any_third_party proposer (recipients_of listed) same_entity ≡ true)
          × (contains (recipients_of listed) service_provider ≡ true)
          × (out ≡ listed) =
        ground arith in
      (
        record {
          whole = omega arith;
          payees = payees;
          once = (distinct_iff (recipients_of listed)).0 once;
          provider_paid = (contains_iff (recipients_of listed) service_provider).0 tests.2;
        },
        tests.1,
        tests.3,
      )

  resolve_allocations-accepts :
      IsSettlement parties service_provider listed
      → any_third_party proposer (recipients_of listed) same_entity ≡ true
      → resolved ≡ ok listed
  unfolding resolve_agreement_settlement_allocations
  resolve_allocations-accepts s third =
      let fresh =
        (AreFresh-iff [] listed).1
          ((distinct_iff (recipients_of listed)).1 s.once, AreUnseen-nil listed) in
      let checked = check_allocations-accepts parties [] 0 listed (omega arith) s.payees fresh in
      rw checked (
        ground (
          arith,
          s.whole,
          (contains_iff (recipients_of listed) service_provider).1 s.provider_paid,
        ))

  -- Allocations that the client wrote out are accepted exactly if they share the whole escrow among
  -- parties, each paid once and the provider among them, and do not pay only the entity of the
  -- proposer. They are then taken as they are.
  pub resolve_allocations_iff : (resolved ≡ ok listed) ↔ (
      IsSettlement parties service_provider listed
      × (¬ All (λ recipient. same_entity proposer recipient ≡ true) (recipients_of listed)))
  resolve_allocations_iff =
      let third = any_third_party_iff proposer same_entity (recipients_of listed) in
      (
        λ h.
            let (settled, some_third, same) = resolve_allocations-ok h in
            (settled, third.0 some_third),
        λ h. resolve_allocations-accepts h.0 (third.1 h.1),
      )

-- Whatever is returned, the default included, is a settlement, if the provider is a party.
pub resolve_allocations-settles :
    (proposer : Address) (parties : List Address) (service_provider : Address)
    (allocs : List AgreementPayoutShare) (same_entity : SameEntity)
    {out : List AgreementPayoutShare}
    → contains parties service_provider ≡ true
    → resolve_agreement_settlement_allocations proposer parties service_provider allocs same_entity
      ≡ ok out
    → IsSettlement parties service_provider out
unfolding resolve_agreement_settlement_allocations
resolve_allocations-settles proposer parties service_provider [] same_entity {out} c h =
    let default : AgreementPayoutShare = record {
      recipient = service_provider;
      share_bps = whole_bps;
    } in
    let same : out ≡ default ∷ [] = ground arith in
    rw same (record {
      whole = refl;
      payees = ground arith;
      once = (distinct_iff (service_provider ∷ [])).0 refl;
      provider_paid = mem-cons_self;
    })
resolve_allocations-settles proposer parties service_provider (a ∷ rest) same_entity c h =
    let (settled, third, same) =
      resolve_allocations-ok proposer parties service_provider same_entity a rest h in
    rw same settled
