-- ===== src/Singularity/Interest.antt =====
-- The interest rate of a Singularity market: where it moves, and that it stays between its limits.
use tapioca_bar.Prelude.{
  ℕ, ok, ◌≡◌, ◌≤◌, ◌<◌, ◌*◌, ◌/◌, ◌⊎◌, arith, Result-cases, inl, inr, Bool-cases, ltb, ◌-◌, bind-ok,
}
use native.Mathlib.Nat.{div-le_of_le-mul, le-div_iff_mul-le}
use tapioca_bar.Market.Outside.{Outside, Call}
use tapioca_bar.Singularity.{
  Singularity, InterestRateCall, InterestRate, scale_of, next_rate, add_interest, charge,
  interest_rate, rate_call, get_interest_rate, accrue,
}

scale_of-le :
    (elasticity factor elapsed scale : ℕ)
    → scale_of elasticity factor elapsed ≡ ok scale
    → elasticity ≤ scale
unfolding scale_of
scale_of-le elasticity factor elapsed scale e = ground arith

lowered-le : (rate elasticity scale : ℕ) → elasticity ≤ scale → rate * elasticity / scale ≤ rate
lowered-le rate elasticity scale h = div-le_of_le-mul scale (grind arith)

raised-le :
    (rate elasticity scale : ℕ)
    → 0 < elasticity
    → elasticity ≤ scale
    → rate ≤ rate * scale / elasticity
raised-le rate elasticity scale positive h = (le-div_iff_mul-le positive).1 (grind arith)

-- The rate per second, where the utilization is and where the rate goes.
abbrev pub Moves : InterestRateCall → ℕ → ℕ → ℕ → Type 0
Moves a rate utilization next =
    ((utilization < a.minimum_target_utilization) × (next ≤ rate))
    ⊎ ((a.minimum_target_utilization ≤ utilization)
        × (a.maximum_target_utilization < utilization)
        × (rate ≤ next))
    ⊎ ((a.minimum_target_utilization ≤ utilization)
        × (utilization ≤ a.maximum_target_utilization)
        × (next ≡ rate))

module _ (a : InterestRateCall) (rate utilization elapsed next : ℕ)
    (e : next_rate a rate utilization elapsed ≡ ok next)
    (low : a.minimum_interest_per_second ≤ rate) (high : rate ≤ a.maximum_interest_per_second) where
  next_rate-le : next ≤ a.maximum_interest_per_second
  unfolding next_rate
  next_rate-le = grind (arith, scale_of-le, lowered-le)

  le-next_rate : a.minimum_interest_per_second ≤ next
  unfolding next_rate
  le-next_rate = elim (Bool-cases (ltb utilization a.minimum_target_utilization)) [
    | inl under ↦ ground arith
    | inr above ↦ grind (arith, scale_of-le, raised-le)
  ]

  -- The rate per second that starts between its limits stays between them. It does not rise where
  -- the utilization is under its lower target, does not fall where it is over the upper one and not
  -- under the lower, and is unchanged where it is on neither side.
  pub next_rate_lem :
      (a.minimum_interest_per_second ≤ next)
      × (next ≤ a.maximum_interest_per_second)
      × Moves a rate utilization next
  unfolding next_rate
  next_rate_lem = (
    le-next_rate,
    next_rate-le,
    elim (Bool-cases (ltb utilization a.minimum_target_utilization)) [
      | inl under ↦ inl (ground arith, grind (arith, scale_of-le, lowered-le))
      | inr above ↦ elim (Bool-cases (ltb a.maximum_target_utilization utilization)) [
        | inl over ↦ inr (inl (ground arith, ground arith, grind (arith, scale_of-le, raised-le)))
        | inr within ↦ inr (inr (ground arith, ground arith, ground arith))
      ]
    ],
  )

-- The rate per second, and the one it starts from, are between the limits.
abbrev pub IsRated : {W : Type 0} → Singularity W → Type 0
IsRated s =
    (s.minimum_interest_per_second ≤ s.accrue_info.interest_per_second)
    × (s.accrue_info.interest_per_second ≤ s.maximum_interest_per_second)
    × (s.minimum_interest_per_second ≤ s.starting_interest_per_second)
    × (s.starting_interest_per_second ≤ s.maximum_interest_per_second)

module _ {W : Type 0} (o : Outside W) (c : Call) where
  -- Nothing is taken from the debt or from the fractions.
  abbrev Grows : InterestRateCall → InterestRate → Type 0
  Grows a r =
      (a.total_borrow.elastic ≤ r.total_borrow.elastic)
      × (a.total_asset.base ≤ r.total_asset.base)
      × (r.total_asset.elastic ≡ a.total_asset.elastic)

  add_interest-Grows :
      (a : InterestRateCall) (elapsed : ℕ) (w : W) (r : InterestRate)
      → add_interest o c a elapsed w ≡ ok r
      → Grows a r
  unfolding add_interest
  add_interest-Grows a elapsed w r e = (ground arith, ground arith, ground arith)

  -- The rate of a result is between the limits of its call.
  abbrev Limited : InterestRateCall → InterestRate → Type 0
  Limited a r =
      (a.minimum_interest_per_second ≤ r.accrue_info.interest_per_second)
      × (r.accrue_info.interest_per_second ≤ a.maximum_interest_per_second)

  charge_rate :
      (a : InterestRateCall) (elapsed last : ℕ) (w : W) (r : InterestRate)
      → charge o c a elapsed last w ≡ ok r
      → a.minimum_interest_per_second ≤ a.accrue_info.interest_per_second
      → a.accrue_info.interest_per_second ≤ a.maximum_interest_per_second
      → Limited a r × Grows a r
  unfolding charge
  charge_rate a elapsed last w r e low high =
      let rate = a.accrue_info.interest_per_second in
      let (x, added, rest) = bind-ok (add_interest o c a elapsed w) _ r e in
      let (next, found, last) = bind-ok (next_rate a rate x.utilization elapsed) _ r rest in
      let limits = next_rate_lem a rate x.utilization elapsed next found low high in
      let grows = add_interest-Grows a elapsed w x added in
      (
        (ground (arith, limits.0), ground (arith, limits.1)),
        (ground (arith, grows.0), ground (arith, grows.1), ground (arith, grows.2)),
      )

  -- What an accrual starts from, and what it may yield.
  interest_rate_limits :
      (a : InterestRateCall) (w : W) (r : InterestRate)
      → interest_rate o c a w ≡ ok r
      → a.minimum_interest_per_second ≤ a.accrue_info.interest_per_second
      → a.accrue_info.interest_per_second ≤ a.maximum_interest_per_second
      → a.minimum_interest_per_second ≤ a.starting_interest_per_second
      → a.starting_interest_per_second ≤ a.maximum_interest_per_second
      → Limited a r × Grows a r
  unfolding interest_rate
  interest_rate_limits a w r e low high start_low start_high =
      let elapsed = c.timestamp - a.accrue_info.last_accrued in
      elim (Result-cases (charge o c a elapsed c.timestamp w)) [
        | inl (x, charged) ↦
            let l = charge_rate a elapsed c.timestamp w x charged low high in
            (
              (ground (arith, l.0), ground (arith, l.0)),
              (ground (arith, l.1), ground (arith, l.1), ground (arith, l.1)),
            )
        | inr (reason, failed) ↦
            ((ground arith, ground arith), (ground arith, ground arith, ground arith))
      ]

  -- An accrual of a market whose rate per second, and the rate it starts from, are between the
  -- limits keeps it so, lowers neither the debt nor the fractions of the assets, and leaves the
  -- market's count of its YieldBox shares as it is.
  pub accrue-IsRated :
      (s t : Singularity W)
      → accrue o c s ≡ ok t
      → IsRated s
      → IsRated t
        × (s.market.total_borrow.elastic ≤ t.market.total_borrow.elastic)
        × (s.total_asset.base ≤ t.total_asset.base)
        × (t.total_asset.elastic ≡ s.total_asset.elastic)
  unfolding accrue get_interest_rate
  accrue-IsRated s t e v = elim (Result-cases (interest_rate o c (rate_call o c s) s.outside)) [
    | inl (r, rated) ↦
        let l = interest_rate_limits (rate_call o c s) s.outside r rated v.0 v.1 v.2 v.3 in
        (
          (ground (arith, l.0), ground (arith, l.0), ground (arith, v.2), ground (arith, v.3)),
          ground (arith, l.1),
          ground (arith, l.1),
          ground (arith, l.1),
        )
    | inr (reason, failed) ↦ absurd (ground arith)
  ]
