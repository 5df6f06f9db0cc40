-- ===== src/Agreement/Payout.antt =====
-- agreement.rs: `Agreement::distribute_amount` and the lookup of a payout.
pub mod Total
pub mod Fairness
use zincha_sdk.Base.{
  ℕ, suc, ◌+◌, ◌*◌, ◌/◌, ◌%◌, ◌^◌, List, [], ◌∷◌, if◌then◌else◌, length, sat_add, sat_sub, ◌==◌,
  nat_eq, list_eq, option_eq,
}
use zincha_sdk.Crypto.Bytes.{Address}
use zincha_sdk.Agreement.Data.{AgreementPayoutShare}
use zincha_sdk.Agreement.Settlement.{whole_bps}

-- `(amount as u128 * share_bps as u128 / 10_000) as u64`
unfoldable pub share_of : ℕ → ℕ → ℕ
share_of amount bps = (amount * bps / whole_bps) % 2 ^ 64

-- The loop over the allocations, at position `i` of `count`.
unfoldable pub distribute_loop : ℕ → ℕ → ℕ → ℕ → List AgreementPayoutShare → List (Address × ℕ)
distribute_loop amount count i distributed [] = []
distribute_loop amount count i distributed (a ∷ rest) =
    let payout_amount =
      if i + 1 == count then sat_sub amount distributed else share_of amount a.share_bps in
    (a.recipient, payout_amount)
    ∷ distribute_loop amount count (suc i) (sat_add distributed payout_amount) rest

-- The early return for no allocations is the loop's own result.
unfoldable pub distribute_amount : ℕ → List AgreementPayoutShare → List (Address × ℕ)
unfolding distribute_loop
distribute_amount amount [] = []
distribute_amount amount (a ∷ rest) = distribute_loop amount (length (a ∷ rest)) 0 0 (a ∷ rest)

-- `find` by recipient, or 0
unfoldable pub payout_amount_for_recipient : List (Address × ℕ) → Address → ℕ
payout_amount_for_recipient [] recipient = 0
payout_amount_for_recipient ((candidate, amount) ∷ rest) recipient =
    if candidate == recipient then amount else payout_amount_for_recipient rest recipient
