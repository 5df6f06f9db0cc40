-- ===== src/Agreement/Lifecycle/Escrow.antt =====
-- agreement.rs: the escrow account of a stored agreement, and what expiry clears.
use zincha_sdk.Base.{
  ℕ, ◌+◌, ◌≤◌, min, ◌≡◌, refl, List, [], ◌∷◌, arith, sum_of, IsU64, nat_eq, list_eq, option_eq,
}
use zincha_sdk.Agreement.Data.{Agreement}
use zincha_sdk.Agreement.Lifecycle.{
  escrow_remaining, record_escrow_release, release_remaining_escrow,
}

-- The ledger of an escrow: no more is released than was locked, in a u64.
pub record IsEscrow (a : Agreement) : Type 0 where
  pub within : a.escrow_released ≤ a.escrow_amount
  pub word : IsU64 a.escrow_amount

-- A history of releases, applied in order.
unfoldable pub release_all : List ℕ → Agreement → Agreement
release_all [] a = a
release_all (r ∷ rs) a = release_all rs (record_escrow_release r a)

release-IsEscrow : (r : ℕ) (a : Agreement) → IsEscrow a → IsEscrow (record_escrow_release r a)
unfolding record_escrow_release
release-IsEscrow r a h = ground arith

released_once :
    (r : ℕ) (a : Agreement)
    → IsEscrow a
    → (record_escrow_release r a).escrow_released ≡ min (a.escrow_released + r) a.escrow_amount
unfolding record_escrow_release
released_once r a h = ground arith

kept_amount : (r : ℕ) (a : Agreement) → (record_escrow_release r a).escrow_amount ≡ a.escrow_amount
unfolding record_escrow_release
kept_amount r a = refl

release_all_keeps :
    (rs : List ℕ) (a : Agreement)
    → IsEscrow a
    → IsEscrow (release_all rs a)
      × ((release_all rs a).escrow_amount ≡ a.escrow_amount)
      × ((release_all rs a).escrow_released
          ≡ min (a.escrow_released + sum_of (λ r. r) rs) a.escrow_amount)
unfolding release_all
release_all_keeps [] a h = ground arith
release_all_keeps (r ∷ rs) a h = ground (
  arith,
  release_all_keeps rs (record_escrow_release r a) (release-IsEscrow r a h),
  released_once r a h,
  kept_amount r a,
)

-- After any history of releases, from an escrow of 64 bits of which no more than all was released,
-- the escrow is exactly split in what was released and what remains:
-- what was released before and since, capped at the escrow, and never more than was locked.
pub release_all-conserves :
    (rs : List ℕ) (a : Agreement)
    → IsEscrow a
    → let b = release_all rs a in
      (b.escrow_released + escrow_remaining b ≡ a.escrow_amount)
      × (b.escrow_released ≡ min (a.escrow_released + sum_of (λ r. r) rs) a.escrow_amount)
      × IsEscrow b
unfolding escrow_remaining
release_all-conserves rs a h = ground (arith, release_all_keeps rs a h)

-- Releasing the remainder is releasing exactly what `escrow_remaining` reports.
pub release_remaining_lem :
    (a : Agreement)
    → IsEscrow a
    → (release_remaining_escrow a ≡ record_escrow_release (escrow_remaining a) a)
      × (escrow_remaining (release_remaining_escrow a) ≡ 0)
unfolding release_remaining_escrow record_escrow_release escrow_remaining
release_remaining_lem a h = ground arith
