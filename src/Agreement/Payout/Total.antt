-- ===== src/Agreement/Payout/Total.antt =====
-- A payout spends exactly the amount, and pays nobody less than the share in whole micro-ZIN.
use zincha_sdk.Base.{
  ℕ, suc, ◌+◌, ◌-◌, ◌*◌, ◌≤◌, ◌<◌, ◌≡◌, refl, ◌≢◌, List, [], ◌∷◌, arith, length, sum_of, IsU64,
  nat_eq, list_eq, option_eq,
}
use native.Mathlib.Nat.{mul-le-mul_left}
use zincha_sdk.Crypto.Bytes.{Address}
use zincha_sdk.Agreement.Data.{AgreementPayoutShare}
use zincha_sdk.Agreement.Settlement.{whole_bps}
use zincha_sdk.Agreement.Settlement.Shares.{total_bps}
use zincha_sdk.Agreement.Payout.{share_of, distribute_loop, distribute_amount}

abbrev pub paid_total : List (Address × ℕ) → ℕ
paid_total = sum_of (λ p. p.1)

-- A share of at most the whole is exact division, rounded down, and fits a u64.
pub share_of_bounds :
    (amount bps : ℕ)
    → IsU64 amount
    → bps ≤ whole_bps
    → (whole_bps * share_of amount bps ≤ amount * bps)
      × (amount * bps < whole_bps * share_of amount bps + whole_bps)
unfolding share_of
share_of_bounds amount bps w h =
    let top : amount * bps ≤ amount * whole_bps = mul-le-mul_left amount h in omega arith

-- With `spent` basis points served, no more than their share is distributed.
abbrev pub IsWithin : ℕ → ℕ → ℕ → Type 0
IsWithin amount distributed spent = (whole_bps * distributed ≤ amount * spent) × (spent ≤ whole_bps)

pub IsWithin-le :
    (amount distributed spent : ℕ) → IsWithin amount distributed spent → distributed ≤ amount
IsWithin-le amount distributed spent h =
    let top : amount * spent ≤ amount * whole_bps = mul-le-mul_left amount h.1 in omega arith

pub IsWithin-add :
    (amount distributed spent bps : ℕ)
    → IsU64 amount
    → IsWithin amount distributed spent
    → spent + bps ≤ whole_bps
    → IsWithin amount (distributed + share_of amount bps) (spent + bps)
IsWithin-add amount distributed spent bps w h k = omega (arith, share_of_bounds amount bps w)

pub distribute_loop-last :
    (amount i distributed : ℕ) (a : AgreementPayoutShare)
    → distribute_loop amount (i + 1) i distributed (a ∷ [])
      ≡ (a.recipient, amount - distributed) ∷ []
unfolding distribute_loop
distribute_loop-last amount i distributed a = ground arith

-- Before the last position a payout is the rounded share, and nothing saturates.
pub distribute_loop-next :
    (amount count i distributed spent : ℕ) (a : AgreementPayoutShare)
    (rest : List AgreementPayoutShare)
    → IsU64 amount
    → i + 1 < count
    → IsWithin amount distributed spent
    → spent + a.share_bps ≤ whole_bps
    → distribute_loop amount count i distributed (a ∷ rest)
      ≡ (a.recipient, share_of amount a.share_bps)
        ∷ distribute_loop amount count (suc i) (distributed + share_of amount a.share_bps) rest
unfolding distribute_loop
distribute_loop-next amount count i distributed spent a rest w n h k =
    let paid = distributed + share_of amount a.share_bps in
    let fits : paid ≤ amount =
      IsWithin-le amount paid (spent + a.share_bps)
        (IsWithin-add amount distributed spent a.share_bps w h k) in
    ground arith

distribute_loop-total :
    (amount count i distributed spent : ℕ) (a : AgreementPayoutShare)
    (rest : List AgreementPayoutShare)
    → IsU64 amount
    → i + length (a ∷ rest) ≡ count
    → IsWithin amount distributed spent
    → spent + total_bps (a ∷ rest) ≤ whole_bps
    → distributed + paid_total (distribute_loop amount count i distributed (a ∷ rest)) ≡ amount
distribute_loop-total amount count i distributed spent a [] w n h k =
    let last : count ≡ i + 1 = omega arith in
    rw (last, distribute_loop-last amount i distributed a)
      (omega (arith, IsWithin-le amount distributed spent h))
distribute_loop-total amount count i distributed spent a (b ∷ rest) w n h k =
    let paid = share_of amount a.share_bps in
    rw
      (distribute_loop-next amount count i distributed spent a (b ∷ rest) w (omega arith) h
        (omega arith))
      (omega (
        arith,
        distribute_loop-total amount count (suc i) (distributed + paid) (spent + a.share_bps) b rest
            w (omega arith) (IsWithin-add amount distributed spent a.share_bps w h (omega arith))
            (omega arith),
      ))

-- A payout of a 64-bit amount over some shares of at most the whole spends exactly the amount: nothing is lost to rounding
-- and nothing is created.
pub distribute_amount-total :
    (amount : ℕ) (allocs : List AgreementPayoutShare)
    → IsU64 amount
    → allocs ≢ []
    → total_bps allocs ≤ whole_bps
    → paid_total (distribute_amount amount allocs) ≡ amount
unfolding distribute_amount
distribute_amount-total amount [] w ne k = absurd (ne refl)
distribute_amount-total amount (a ∷ rest) w ne k =
    omega (arith, distribute_loop-total amount (length (a ∷ rest)) 0 0 0 a rest w)
