-- ===== src/Subscription/Billing.antt =====
-- tool.rs: what `advance_periods` moves, and where it leaves a subscription.
use zincha_sdk.Base.{
  ℕ, ◌+◌, ◌*◌, ◌/◌, ◌≤◌, ◌≡◌, refl, ap, ◌∙◌, not, ◌&&◌, ◌||◌, min, u32_max, ltb, leb, inl, inr,
  Bool, true, arith, Bool-cases, IsU64, ◌==◌, nat_eq, list_eq, option_eq,
}
use native.Mathlib.Nat.{mul-le-mul_left, div-mul-le_self, min-le_right}
use zincha_sdk.Subscription.{
  ToolSubscription, periods_due, affordable_periods, renew, bill, restart_clock, advance_periods,
  is_cancelled, is_cancel_requested,
}

pub affordable-cost :
    (due : ℕ) (s : ToolSubscription)
    → s.price_per_period * affordable_periods due s ≤ s.reserved_balance
unfolding affordable_periods
affordable-cost due s = elim (Bool-cases (s.price_per_period == 0)) [
  | inl free ↦
      let zero_price : s.price_per_period ≡ 0 = ground arith in
      rw (ap (λ (p : ℕ). p * affordable_periods due s) zero_price) (omega arith)
  | inr priced ↦
      let count = s.reserved_balance / s.price_per_period in
      let top = mul-le-mul_left s.price_per_period (min-le_right due count) in
      rw priced (omega (arith, top, div-mul-le_self s.reserved_balance s.price_per_period))
]

-- Whatever a reserve of 64 bits loses is credited to the provider, and it is the price of whole
-- periods.
bill-conserves :
    (now_ms : ℕ) (s : ToolSubscription)
    → IsU64 s.reserved_balance
    → let (t, o) = bill now_ms s in
      (t.reserved_balance + o.provider_credit ≡ s.reserved_balance)
      × (o.provider_credit ≡ s.price_per_period * affordable_periods (periods_due now_ms s) s)
unfolding bill renew
bill-conserves now_ms s w =
    let due = periods_due now_ms s in
    let cost = affordable-cost due s in
    elim (Bool-cases (affordable_periods due s == 0)) [
      | inl none_paid ↦
          let count : affordable_periods due s ≡ 0 = ground arith in
          rw none_paid (rw count (omega arith))
      | inr paid ↦ rw paid (ground (arith, cost))
    ]

-- The fields that `advance_periods` may write are those of the clock, the entitlement of the period, the
-- status and the reserve.
abbrev pub Advances : ToolSubscription → ToolSubscription → Type 0
Advances s t = t ≡ record s {
  reserved_balance = t.reserved_balance;
  current_period_start = t.current_period_start;
  current_period_end = t.current_period_end;
  next_renewal_at = t.next_renewal_at;
  remaining_calls = t.remaining_calls;
  remaining_credits = t.remaining_credits;
  status = t.status;
}

Advances-trans : (s t u : ToolSubscription) → Advances s t → Advances t u → Advances s u
Advances-trans s t u h k =
    k
    ∙ ap {A = ToolSubscription} {B = ToolSubscription}
        (λ r. record r {
          reserved_balance = u.reserved_balance;
          current_period_start = u.current_period_start;
          current_period_end = u.current_period_end;
          next_renewal_at = u.next_renewal_at;
          remaining_calls = u.remaining_calls;
          remaining_credits = u.remaining_credits;
          status = u.status;
        })
        h

restart_clock_keeps :
    (now_ms : ℕ) (s : ToolSubscription)
    → ((restart_clock now_ms s).reserved_balance ≡ s.reserved_balance)
      × ((restart_clock now_ms s).price_per_period ≡ s.price_per_period)
      × Advances s (restart_clock now_ms s)
unfolding restart_clock
restart_clock_keeps now_ms s = ground arith

bill-Advances : (now_ms : ℕ) (s : ToolSubscription) → Advances s (bill now_ms s).0
unfolding bill renew
bill-Advances now_ms s = elim (Bool-cases (affordable_periods (periods_due now_ms s) s == 0)) [
  | inl none_paid ↦ rw none_paid refl
  | inr paid ↦ rw paid refl
]

bill-count :
    (now_ms : ℕ) (s : ToolSubscription)
    → (bill now_ms s).1.renewed_periods ≡ min (affordable_periods (periods_due now_ms s) s) u32_max
unfolding bill renew
bill-count now_ms s = ground arith

-- Advancing the billing clock moves money only from the reserve, of 64 bits, to the provider: what the
-- reserve loses is credited, it is the price of the periods that are renewed, and every other field
-- but those of the clock, the entitlement of the period and the status stays as it was.
pub advance-conserves :
    (now_ms : ℕ) (service_available : Bool) (s : ToolSubscription)
    → IsU64 s.reserved_balance
    → let (t, o) = advance_periods now_ms service_available s in
      (t.reserved_balance + o.provider_credit ≡ s.reserved_balance)
      × ((count : ℕ) × (o.provider_credit ≡ s.price_per_period * count)
          × (o.renewed_periods ≡ min count u32_max))
      × (t ≡ record s {
        reserved_balance = t.reserved_balance;
        current_period_start = t.current_period_start;
        current_period_end = t.current_period_end;
        next_renewal_at = t.next_renewal_at;
        remaining_calls = t.remaining_calls;
        remaining_credits = t.remaining_credits;
        status = t.status;
      })
unfolding advance_periods
advance-conserves now_ms service_available s w =
    elim (Bool-cases (is_cancel_requested s.status && leb s.current_period_end now_ms)) [
      | inl ends ↦ rw ends (omega arith, (0, omega arith, refl), refl)
      | inr keeps ↦ elim (Bool-cases (ltb now_ms s.current_period_end)) [
        | inl paid ↦ rw keeps (rw paid (omega arith, (0, omega arith, refl), refl))
        | inr due ↦
            elim (Bool-cases
              (not s.auto_renew || is_cancel_requested s.status || is_cancelled s.status)) [
                | inl stops ↦
                    rw keeps (rw due (rw stops (omega arith, (0, omega arith, refl), refl)))
                | inr renews ↦ elim (Bool-cases service_available) [
                  | inl up ↦ rw keeps (rw due (rw renews (rw up billed)))
                  | inr down ↦
                      rw keeps
                        (rw due (rw renews (rw down (omega arith, (0, omega arith, refl), refl))))
                ]
              ]
      ]
    ]
  where
    started : ToolSubscription
    started = restart_clock now_ms s

    billed :
        ((bill now_ms started).0.reserved_balance + (bill now_ms started).1.provider_credit
          ≡ s.reserved_balance)
        × ((count : ℕ) × ((bill now_ms started).1.provider_credit ≡ s.price_per_period * count)
            × ((bill now_ms started).1.renewed_periods ≡ min count u32_max))
        × Advances s (bill now_ms started).0
    billed =
        let (reserve, price, clock) = restart_clock_keeps now_ms s in
        let (sum, credit) = bill-conserves now_ms started (ground (arith, reserve, w)) in
        let count = affordable_periods (periods_due now_ms started) started in
        (
          sum ∙ reserve,
          (count, credit ∙ ap (λ (p : ℕ). p * count) price, bill-count now_ms started),
          Advances-trans s started (bill now_ms started).0 clock (bill-Advances now_ms started),
        )

-- A cancelled subscription stays cancelled, and its reserve is not charged.
pub advance-cancelled :
    (now_ms : ℕ) (service_available : Bool) (s : ToolSubscription)
    → is_cancelled s.status ≡ true
    → advance_periods now_ms service_available s
      ≡ (s, record { renewed_periods = 0; provider_credit = 0 })
unfolding advance_periods
advance-cancelled now_ms service_available s h = ground arith
