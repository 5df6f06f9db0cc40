-- ===== src/Subscription/CatchUp.antt =====
-- tool.rs: `advance_periods` renews any number of overdue periods in constant time. Here it is
-- compared with billing one period after the other.
use zincha_sdk.Base.{
  ℕ, zero, suc, ◌+◌, ◌-◌, ◌*◌, ◌/◌, ◌≤◌, ◌<◌, min, ◌≡◌, refl, ◌⊎◌, inl, inr, ◌&&◌, arith, ltb, leb,
  if◌then◌else◌, Bool-cases, u64_max, u32_max, IsU64, ◌==◌, nat_eq, list_eq, option_eq,
}
use native.Mathlib.Nat.{mul-le-mul_left, div-le_self, mul-div-le, lt-mul-div-succ}
use zincha_sdk.Subscription.Billing.{affordable-cost}
use zincha_sdk.Subscription.{
  ToolSubscription, ToolSubscriptionStatus, periods_due, affordable_periods, renew, bill,
}

-- Where billing stands: the end of the last paid period, the reserve, the periods paid.
pub record Account : Type 0 where
  pub period_end : ℕ
  pub reserve : ℕ
  pub count : ℕ

-- While a period is over and the reserve covers its price, pay it and begin the next.
unfoldable pub charge : ℕ → ℕ → ℕ → ℕ → Account → Account
charge zero now_ms price period a = a
charge (suc fuel) now_ms price period a =
    let rest = charge fuel now_ms price period (record {
      period_end = a.period_end + period;
      reserve = a.reserve - price;
      count = a.count + 1;
    }) in
    if leb a.period_end now_ms && leb price a.reserve then rest else a

-- `k` periods are charged if the first `k` are over and covered, and the next is not.
charge-exactly :
    (k fuel now_ms price period : ℕ) (a : Account)
    → k < fuel
    → ((j : ℕ) → j < k → (a.period_end + period * j ≤ now_ms) × (price * (j + 1) ≤ a.reserve))
    → (now_ms < a.period_end + period * k) ⊎ (a.reserve < price * (k + 1))
    → charge fuel now_ms price period a ≡ record {
      period_end = a.period_end + period * k;
      reserve = a.reserve - price * k;
      count = a.count + k;
    }
unfolding charge
charge-exactly k zero now_ms price period a f due stop = absurd (omega arith)
charge-exactly zero (suc fuel) now_ms price period a f due (inl early) = ground arith
charge-exactly zero (suc fuel) now_ms price period a f due (inr poor) = ground arith
charge-exactly (suc k) (suc fuel) now_ms price period a f due stop =
    let next : Account = record {
      period_end = a.period_end + period;
      reserve = a.reserve - price;
      count = a.count + 1;
    } in
    let first = due 0 (omega arith) in
    let after : Account = record {
      period_end = a.period_end + period + period * k;
      reserve = a.reserve - price - price * k;
      count = a.count + 1 + k;
    } in
    let step : charge fuel now_ms price period next ≡ after =
      charge-exactly k fuel now_ms price period next (omega arith)
        (λ j h. let d = due (suc j) (omega arith) in (omega arith, omega arith))
        (elim stop [ inl h ↦ inl (omega arith) | inr h ↦ inr (omega arith) ]) in
    ground (arith, step)

-- The periods due are those that reach past now, and no more.
pub due-span :
    (now_ms : ℕ) (s : ToolSubscription)
    → 0 < s.period_ms
    → s.current_period_end ≤ now_ms
    → now_ms < u64_max
    → (q : ℕ) × (periods_due now_ms s ≡ q + 1)
      × (q ≤ now_ms - s.current_period_end)
      × (s.current_period_end + s.period_ms * q ≤ now_ms)
      × (now_ms < s.current_period_end + s.period_ms * (q + 1))
unfolding periods_due
due-span now_ms s pos over w =
    let elapsed = now_ms - s.current_period_end in
    let q = elapsed / s.period_ms in
    let small = div-le_self elapsed s.period_ms in
    let above = lt-mul-div-succ elapsed {b = s.period_ms} pos in
    (q, ground (arith, small), small, omega (arith, mul-div-le elapsed s.period_ms), omega arith)

-- Fewer periods than are due are renewed only if the reserve does not cover one more.
pub affordable-stop :
    (due : ℕ) (s : ToolSubscription)
    → (affordable_periods due s ≡ due)
      ⊎ ((affordable_periods due s < due)
          × (s.reserved_balance < s.price_per_period * (affordable_periods due s + 1)))
unfolding affordable_periods
affordable-stop due s = elim (Bool-cases (s.price_per_period == 0)) [
  | inl free ↦ rw free (inl refl)
  | inr priced ↦
      let pos : 0 < s.price_per_period = ground arith in
      let count = s.reserved_balance / s.price_per_period in
      let short = lt-mul-div-succ s.reserved_balance {b = s.price_per_period} pos in
      elim (Bool-cases (ltb count due)) [
        | inl poor ↦
            let paid : min due count ≡ count = ground arith in
            rw (priced, paid) (inr (ground arith, short))
        | inr rich ↦ rw priced (inl (ground arith))
      ]
]

module _ (now_ms : ℕ) (s : ToolSubscription) (pos : 0 < s.period_ms)
    (over : s.current_period_end ≤ now_ms) (clock : now_ms + s.period_ms ≤ u64_max)
    (word : IsU64 s.reserved_balance) where
  abbrev pub due : ℕ
  due = periods_due now_ms s

  abbrev pub paid : ℕ
  paid = affordable_periods due s

  abbrev pub opening : Account
  opening = record { period_end = s.current_period_end; reserve = s.reserved_balance; count = 0 }

  paid-le-due : paid ≤ due
  paid-le-due = omega (arith, affordable-stop due s)

  -- the end of the last period that is paid, which no u64 overflows
  pub paid_end : s.current_period_end + s.period_ms * paid ≤ now_ms + s.period_ms
  paid_end =
      let (q, count, small, reached, beyond) = due-span now_ms s pos over (omega arith) in
      let below : paid ≤ q + 1 = omega (arith, paid-le-due) in
      omega (arith, mul-le-mul_left s.period_ms below)

  -- The paid periods reach past now exactly if all that were due are paid.
  pub paid_reach :
      ((paid ≡ due) × (now_ms < s.current_period_end + s.period_ms * paid))
      ⊎ ((paid < due) × (s.current_period_end + s.period_ms * paid ≤ now_ms))
  paid_reach =
      let (q, count, small, reached, beyond) = due-span now_ms s pos over (omega arith) in
      elim (affordable-stop due s) [
        | inl all ↦ inl (all, rw (all, count) beyond)
        | inr (fewer, poor) ↦
            let early : paid ≤ q = omega arith in
            inr (fewer, omega (arith, mul-le-mul_left s.period_ms early))
      ]

  charge-paid :
      (fuel : ℕ)
      → now_ms - s.current_period_end + 1 < fuel
      → charge fuel now_ms s.price_per_period s.period_ms opening ≡ record {
        period_end = s.current_period_end + s.period_ms * paid;
        reserve = s.reserved_balance - s.price_per_period * paid;
        count = 0 + paid;
      }
  charge-paid fuel f =
      let (q, count, small, reached, beyond) = due-span now_ms s pos over (omega arith) in
      charge-exactly paid fuel now_ms s.price_per_period s.period_ms opening
        (omega (arith, paid-le-due))
        (λ j h.
          let early : j ≤ q = omega (arith, paid-le-due) in
          let covered : j + 1 ≤ paid = omega arith in
          (
            omega (arith, mul-le-mul_left s.period_ms early),
            omega (arith, mul-le-mul_left s.price_per_period covered, affordable-cost due s),
          ))
        (elim (affordable-stop due s) [
          | inl all ↦ inl (rw (all, count) beyond)
          | inr short ↦ inr short.1
        ])

  -- Renewing all overdue periods at once is billing them one by one, as far as the reserve goes: the
  -- same end of the paid period, the same reserve and the same number of periods, with the provider
  -- credited their price. The subscription is active exactly if now lies in a paid period.
  -- The period is positive and over, the clock is a period away from the end of u64, the reserve fits
  -- a u64, and the reference has more fuel than milliseconds have passed.
  pub bill-charge :
      (fuel : ℕ)
      → now_ms - s.current_period_end + 1 < fuel
      → let a = charge fuel now_ms s.price_per_period s.period_ms opening in
        let (t, o) = bill now_ms s in
        (t.current_period_end ≡ a.period_end)
        × (t.reserved_balance ≡ a.reserve)
        × (o.provider_credit ≡ s.price_per_period * a.count)
        × (o.renewed_periods ≡ min a.count u32_max)
        × (t.status ≡ (
            if ltb now_ms a.period_end
            then ToolSubscriptionStatus.active
            else ToolSubscriptionStatus.past_due))
  unfolding bill renew
  bill-charge fuel f =
      let cost = affordable-cost due s in
      rw (charge-paid fuel f) (elim (Bool-cases (paid == 0)) [
        | inl nothing ↦
            let zero_paid : paid ≡ 0 = ground arith in rw nothing (rw zero_paid (ground arith))
        | inr something ↦ rw something (ground (arith, cost, paid_end, paid_reach))
      ])
