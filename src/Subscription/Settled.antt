-- ===== src/Subscription/Settled.antt =====
-- tool.rs: a subscription that was advanced is up to date.
use zincha_sdk.Base.{
  ℕ, ◌+◌, ◌≤◌, ◌<◌, ◌≡◌, refl, ◌∙◌, ◌⊎◌, inl, inr, Bool, true, false, not, ◌&&◌, ◌||◌, arith, ltb,
  leb, if◌then◌else◌, Bool-cases, u64_max, IsU64, ◌==◌, nat_eq, list_eq, option_eq,
}
use native.Mathlib.Nat.{div-eq_of_lt}
use zincha_sdk.Subscription.{
  ToolSubscription, ToolSubscriptionStatus, SubscriptionAdvanceOutcome, periods_due,
  affordable_periods, renew, bill, restart_clock, advance_periods, is_cancelled,
  is_cancel_requested,
}
use zincha_sdk.Subscription.Billing.{affordable-cost, advance-cancelled}
use zincha_sdk.Subscription.CatchUp.{due, affordable-stop, paid_end, paid_reach}

-- Past due for good at a time: the paid time is over and the reserve does not cover a period.
pub record IsStarved (now_ms : ℕ) (s : ToolSubscription) : Type 0 where
  pub over : s.current_period_end ≤ now_ms
  pub status : s.status ≡ ToolSubscriptionStatus.past_due
  pub calls : s.remaining_calls ≡ 0
  pub credits : s.remaining_credits ≡ 0
  pub poor : s.reserved_balance < s.price_per_period

module _ (now_ms : ℕ) (s : ToolSubscription) (pos : 0 < s.period_ms)
    (over : s.current_period_end ≤ now_ms) (clock : now_ms + s.period_ms ≤ u64_max)
    (word : IsU64 s.reserved_balance) where
  -- After billing, now lies in the paid time or the subscription is past due for good.
  pub bill-lands : let t = (bill now_ms s).0 in (now_ms < t.current_period_end) ⊎ IsStarved now_ms t
  unfolding bill renew
  bill-lands =
      let d = periods_due now_ms s in
      let n = affordable_periods d s in
      let stop = affordable-stop d s in
      let reach = paid_reach now_ms s pos over clock word in
      elim (Bool-cases (n == 0)) [
        | inl nothing ↦
            let zero_paid : n ≡ 0 = ground arith in
            let poor : s.reserved_balance < s.price_per_period = ground (arith, stop, reach) in
            rw nothing (
              inr
                (record { over = over; status = refl; calls = refl; credits = refl; poor = poor }))
        | inr something ↦ rw something (
            ground (arith, affordable-cost d s, paid_end now_ms s pos over clock word, reach, stop))
      ]

  pub bill_keeps :
      let t = (bill now_ms s).0 in
      (t.auto_renew ≡ s.auto_renew)
      × (t.period_ms ≡ s.period_ms)
      × (t.price_per_period ≡ s.price_per_period)
  unfolding bill renew
  bill_keeps = ground arith

IsStarved-affordable :
    (now_ms due : ℕ) (s : ToolSubscription) → IsStarved now_ms s → affordable_periods due s ≡ 0
unfolding affordable_periods
IsStarved-affordable now_ms due s h = ground (arith, div-eq_of_lt h.poor)

IsStarved-bill :
    (now_ms : ℕ) (s : ToolSubscription)
    → IsStarved now_ms s
    → bill now_ms s ≡ (s, record { renewed_periods = 0; provider_credit = 0 })
unfolding bill
IsStarved-bill now_ms s h =
    rw (IsStarved-affordable now_ms (periods_due now_ms s) s h)
      (ground (arith, h.status, h.calls, h.credits))

abbrev unchanged : ToolSubscription → ToolSubscription × SubscriptionAdvanceOutcome
unchanged s = (s, record { renewed_periods = 0; provider_credit = 0 })

advance-early :
    (now_ms : ℕ) (service_available : Bool) (s : ToolSubscription)
    → now_ms < s.current_period_end
    → advance_periods now_ms service_available s ≡ unchanged s
unfolding advance_periods
advance-early now_ms service_available s h = ground arith

advance-starved :
    (now_ms : ℕ) (s : ToolSubscription)
    → IsStarved now_ms s
    → s.auto_renew ≡ true
    → advance_periods now_ms true s ≡ unchanged s
unfolding advance_periods restart_clock
advance-starved now_ms s h renew_on = ground (arith, IsStarved-bill now_ms s h, h.over, h.status)

abbrev as_paused : ToolSubscription → ToolSubscription
as_paused s = record s { status = ToolSubscriptionStatus.paused }

abbrev as_cancelled : ToolSubscription → ToolSubscription
as_cancelled s = record s { status = ToolSubscriptionStatus.cancelled }

advance-paused :
    (now_ms : ℕ) (s : ToolSubscription)
    → s.current_period_end ≤ now_ms
    → s.auto_renew ≡ true
    → advance_periods now_ms false (as_paused s) ≡ unchanged (as_paused s)
unfolding advance_periods
advance-paused now_ms s h renew_on = ground arith

-- the five ways through `advance_periods`
data Advanced (now_ms : ℕ) (s : ToolSubscription) : Bool → ToolSubscription → Type 0 where
  early : {v : Bool} → now_ms < s.current_period_end → Advanced now_ms s v s
  ended : {v : Bool} → Advanced now_ms s v (as_cancelled s)
  held : s.current_period_end ≤ now_ms → s.auto_renew ≡ true → Advanced now_ms s false (as_paused s)
  billed :
      s.current_period_end ≤ now_ms
      → s.auto_renew ≡ true
      → Advanced now_ms s true (bill now_ms (restart_clock now_ms s)).0

advance-Advanced :
    (now_ms : ℕ) (v : Bool) (s : ToolSubscription)
    → Advanced now_ms s v (advance_periods now_ms v s).0
unfolding advance_periods
advance-Advanced now_ms v s =
    elim (Bool-cases (is_cancel_requested s.status && leb s.current_period_end now_ms)) [
      | inl ending ↦ rw ending ended
      | inr going ↦ rw going (elim (Bool-cases (ltb now_ms s.current_period_end)) [
        | inl soon ↦ rw soon (early (ground arith))
        | inr over ↦
            rw over
              (elim (Bool-cases
                (not s.auto_renew || is_cancel_requested s.status || is_cancelled s.status)) [
                  | inl final ↦ rw final ended
                  | inr open_ended ↦ rw open_ended (by_service v (ground arith) (ground arith))
                ])
      ])
    ]
  where
    by_service :
        (v : Bool)
        → s.current_period_end ≤ now_ms
        → s.auto_renew ≡ true
        → Advanced now_ms s v
            (if not v
              then (as_paused s, record { renewed_periods = 0; provider_credit = 0 })
              else bill now_ms (restart_clock now_ms s)).0
    by_service true h k = billed h k
    by_service false h k = held h k

restart_clock-bounds :
    (now_ms : ℕ) (s : ToolSubscription)
    → s.current_period_end ≤ now_ms
    → let r = restart_clock now_ms s in
      (r.current_period_end ≤ now_ms)
      × (r.period_ms ≡ s.period_ms)
      × (r.reserved_balance ≡ s.reserved_balance)
      × (r.auto_renew ≡ s.auto_renew)
unfolding restart_clock
restart_clock-bounds now_ms s h = ground arith

Advanced-unchanged :
    (now_ms : ℕ) (s : ToolSubscription) {v : Bool} {t : ToolSubscription}
    → Advanced now_ms s v t
    → 0 < s.period_ms
    → now_ms + s.period_ms ≤ u64_max
    → IsU64 s.reserved_balance
    → advance_periods now_ms v t ≡ unchanged t
Advanced-unchanged now_ms s {v} (early h) pos clock word = advance-early now_ms v s h
Advanced-unchanged now_ms s {v} ended pos clock word =
    advance-cancelled now_ms v (as_cancelled s) refl
Advanced-unchanged now_ms s (held h k) pos clock word = advance-paused now_ms s h k
Advanced-unchanged now_ms s (billed h k) pos clock word =
    let r = restart_clock now_ms s in
    let (over, period, reserve, renew_on) = restart_clock-bounds now_ms s h in
    let pos' : 0 < r.period_ms = omega arith in
    let clock' : now_ms + r.period_ms ≤ u64_max = omega arith in
    let word' : IsU64 r.reserved_balance = omega arith in
    let kept = bill_keeps now_ms r pos' over clock' word' in
    elim (bill-lands now_ms r pos' over clock' word') [
      | inl soon ↦ advance-early now_ms true (bill now_ms r).0 soon
      | inr starved ↦ advance-starved now_ms (bill now_ms r).0 starved (kept.0 ∙ renew_on ∙ k)
    ]

-- Advancing twice at one time is advancing once: the second call changes nothing and credits
-- nothing. The billing period is positive, the clock is a period away from the end of u64, and the
-- reserve fits a u64.
pub advance_idem :
    (now_ms : ℕ) (service_available : Bool) (s : ToolSubscription)
    → 0 < s.period_ms
    → now_ms + s.period_ms ≤ u64_max
    → IsU64 s.reserved_balance
    → let t = (advance_periods now_ms service_available s).0 in
      advance_periods now_ms service_available t
      ≡ (t, record { renewed_periods = 0; provider_credit = 0 })
advance_idem now_ms service_available s pos clock word =
    Advanced-unchanged now_ms s (advance-Advanced now_ms service_available s) pos clock word
