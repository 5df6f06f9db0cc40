-- ===== src/Agreement/Payout/Fairness.antt =====
-- agreement.rs: what `distribute_amount` pays each recipient, against the exact share.
use zincha_sdk.Base.{
  ℕ, zero, suc, ◌+◌, ◌-◌, ◌*◌, ◌≤◌, ◌<◌, ◌≡◌, refl, ap, some, List, [], ◌∷◌, arith, length,
  get_elem?, IsU64, nat_eq, list_eq, option_eq,
}
use zincha_sdk.Agreement.Data.{AgreementPayoutShare}
use zincha_sdk.Agreement.Settlement.{whole_bps}
use zincha_sdk.Agreement.Settlement.Shares.{total_bps}
use zincha_sdk.Agreement.Payout.{share_of, distribute_loop, distribute_amount}
use zincha_sdk.Agreement.Payout.Total.{
  IsWithin, IsWithin-add, distribute_loop-last, distribute_loop-next, share_of_bounds, IsWithin-le,
}

-- `p` is the share `bps` of `amount`, rounded down at worst, and above it by at most `slack`.
pub record IsFair (amount bps slack p : ℕ) : Type 0 where
  pub floor : amount * bps < whole_bps * (p + 1)
  pub ceiling : whole_bps * p ≤ amount * bps + whole_bps * slack

-- The rounding of the first `i` payouts has kept back less than `i`.
abbrev IsTight : ℕ → ℕ → ℕ → ℕ → Type 0
IsTight amount i distributed spent = amount * spent ≤ whole_bps * (distributed + i)

distribute_loop-IsFair :
    (amount count i distributed spent n : ℕ) (a : AgreementPayoutShare)
    (rest : List AgreementPayoutShare) {s : AgreementPayoutShare}
    → IsU64 amount
    → i + length (a ∷ rest) ≡ count
    → IsWithin amount distributed spent
    → IsTight amount i distributed spent
    → spent + total_bps (a ∷ rest) ≡ whole_bps
    → get_elem? (a ∷ rest) n ≡ some s
    → (p : ℕ) × (get_elem? (distribute_loop amount count i distributed (a ∷ rest)) n
        ≡ some (s.recipient, p))
      × IsFair amount s.share_bps count p
distribute_loop-IsFair amount count i distributed spent zero a [] {s} w n h t k e =
    let last : count ≡ i + 1 = omega arith in
    let exact : spent ≡ whole_bps - a.share_bps = omega arith in
    let same : a ≡ s = ground arith in
    let bps : amount * spent + amount * a.share_bps ≡ amount * whole_bps =
      omega (arith, ap (λ (x : ℕ). amount * x) k) in
    rw (last, distribute_loop-last amount i distributed a, ← same)
      (amount - distributed, refl, omega (arith, IsWithin-le amount distributed spent h))
distribute_loop-IsFair amount count i distributed spent (suc m) a [] w n h t k e = cc
distribute_loop-IsFair amount count i distributed spent zero a (b ∷ rest) {s} w n h t k e =
    let same : a ≡ s = ground arith in
    rw
      (
        distribute_loop-next amount count i distributed spent a (b ∷ rest) w (omega arith) h
            (omega arith),
        ← same,
      )
      (
        share_of amount a.share_bps,
        refl,
        omega (arith, share_of_bounds amount a.share_bps w (omega arith)),
      )
distribute_loop-IsFair amount count i distributed spent (suc m) a (b ∷ rest) w n h t k e =
    let paid = share_of amount a.share_bps in
    rw
      (distribute_loop-next amount count i distributed spent a (b ∷ rest) w (omega arith) h
        (omega arith))
      (distribute_loop-IsFair amount count (suc i) (distributed + paid) (spent + a.share_bps) m b
        rest w (omega arith) (IsWithin-add amount distributed spent a.share_bps w h (omega arith))
        (omega (arith, share_of_bounds amount a.share_bps w (omega arith))) (omega arith) e)

-- Of a 64-bit amount over shares that make up the whole, every recipient is paid in the order of the allocations, at
-- least the share rounded down, and at most the number of recipients above the exact share.
pub distribute_amount-IsFair :
    (amount n : ℕ) (allocs : List AgreementPayoutShare) {s : AgreementPayoutShare}
    → IsU64 amount
    → total_bps allocs ≡ whole_bps
    → get_elem? allocs n ≡ some s
    → (p : ℕ) × (get_elem? (distribute_amount amount allocs) n ≡ some (s.recipient, p))
      × IsFair amount s.share_bps (length allocs) p
unfolding distribute_amount
distribute_amount-IsFair amount n [] w k e = cc
distribute_amount-IsFair amount n (a ∷ rest) w k e =
    distribute_loop-IsFair amount (length (a ∷ rest)) 0 0 0 n a rest w (omega arith) (omega arith)
      (omega arith) (omega arith) e
