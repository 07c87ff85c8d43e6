-- ===== src/BigBang/Fees.antt =====
-- The fees of a BigBang market: the opening fee of a loan, and what a liquidation leaves.
use tapioca_bar.Prelude.{
  ℕ, ok, ◌≡◌, ◌≤◌, ◌<◌, ◌+◌, ◌*◌, ◌/◌, ◌-◌, ◌⊎◌, arith, Zero-cases, Bool-cases, leb, Result-cases,
  inl, inr,
}
use native.Mathlib.Nat.{
  mul-le-mul_left, mul-le-mul_right, le-div_iff_mul-le, le_trans, div-mul-le_self,
}
use tapioca_bar.Market.{fee_precision}
use tapioca_bar.Market.Outside.{Outside, Call}
use tapioca_bar.BigBang.{BigBang, mint_fee, compute_variable_opening_fee_view}
use tapioca_bar.BigBang.Liquidation.{extract_liquidation_fees}

scaled-le : (amount a b : ℕ) → a ≤ b → amount * a / fee_precision ≤ amount * b / fee_precision
scaled-le amount a b h = grind (arith, mul-le-mul_left amount h)

div_mono : (a b c : ℕ) → a ≤ b → 0 < c → a / c ≤ b / c
div_mono a b c h positive = (le-div_iff_mul-le positive).1 (le_trans (div-mul-le_self a c) h)

module _ {W : Type 0} (s : BigBang W) (order : s.min_mint_fee ≤ s.max_mint_fee) where
  mint_fee_bounds :
      (rate p : ℕ) → mint_fee s rate ≡ ok p → (s.min_mint_fee ≤ p) × (p ≤ s.max_mint_fee)
  unfolding mint_fee
  mint_fee_bounds rate p e = (ground arith, ground arith)

  -- What is taken off the greatest fee at a price between the two.
  discount : ℕ → ℕ
  discount rate =
      (rate - s.max_mint_fee_start)
      * (s.max_mint_fee - s.min_mint_fee)
      / (s.min_mint_fee_start - s.max_mint_fee_start)

  discount_mono :
      (low high : ℕ)
      → low ≤ high
      → s.max_mint_fee_start < s.min_mint_fee_start
      → discount low ≤ discount high
  unfolding discount
  discount_mono low high h range =
      div_mono ((low - s.max_mint_fee_start) * (s.max_mint_fee - s.min_mint_fee))
        ((high - s.max_mint_fee_start) * (s.max_mint_fee - s.min_mint_fee))
        (s.min_mint_fee_start - s.max_mint_fee_start)
        (mul-le-mul_right (s.max_mint_fee - s.min_mint_fee) (omega (arith, h)))
        (omega (arith, range))

  mint_fee-lower :
      (rate p : ℕ)
      → rate < s.min_mint_fee_start
      → mint_fee s rate ≡ ok p
      → s.max_mint_fee ≤ p + discount rate
  unfolding mint_fee discount
  mint_fee-lower rate p below e = ground arith

  mint_fee-upper :
      (rate p : ℕ)
      → s.max_mint_fee_start < rate
      → mint_fee s rate ≡ ok p
      → (p ≡ s.min_mint_fee) ⊎ (p + discount rate ≤ s.max_mint_fee)
  unfolding mint_fee discount
  mint_fee-upper rate p above e = ground arith

  mint_fee-top :
      (rate p : ℕ) → s.min_mint_fee_start ≤ rate → mint_fee s rate ≡ ok p → p ≡ s.min_mint_fee
  unfolding mint_fee
  mint_fee-top rate p above e = ground arith

  mint_fee-bottom :
      (rate p : ℕ)
      → s.max_mint_fee_start < s.min_mint_fee_start
      → rate ≤ s.max_mint_fee_start
      → mint_fee s rate ≡ ok p
      → p ≡ s.max_mint_fee
  unfolding mint_fee
  mint_fee-bottom rate p range below e = ground arith

  mint_fee-falls :
      (low high p q : ℕ)
      → low ≤ high
      → s.max_mint_fee_start < s.min_mint_fee_start
      → mint_fee s low ≡ ok p
      → mint_fee s high ≡ ok q
      → q ≤ p
  mint_fee-falls low high p q h range e f =
      let at_low = mint_fee_bounds low p e in
      let at_high = mint_fee_bounds high q f in
      elim (Bool-cases (leb s.min_mint_fee_start low)) [
        | inl top ↦ omega (arith, at_low.0, mint_fee-top high q (ground (arith, top, h)) f)
        | inr below ↦ elim (Bool-cases (leb high s.max_mint_fee_start)) [
          | inl bottom ↦
              omega (arith, at_high.1, mint_fee-bottom low p range (ground (arith, bottom, h)) e)
          | inr above ↦ ground (
            arith,
            at_low.0,
            discount_mono low high h range,
            mint_fee-lower low p (ground (arith, below)) e,
            mint_fee-upper high q (ground (arith, above)) f,
          )
        ]
      ]

  no_fee :
      (amount rate fee : ℕ)
      → amount ≡ 0
      → compute_variable_opening_fee_view s amount rate ≡ ok fee
      → fee ≡ 0
  unfolding compute_variable_opening_fee_view
  no_fee amount rate fee zero e = ground arith

  percentage_of :
      (amount rate fee : ℕ)
      → compute_variable_opening_fee_view s amount rate ≡ ok fee
      → (fee ≡ 0) × (amount ≡ 0)
        ⊎ ((p : ℕ) × (mint_fee s rate ≡ ok p) × (fee ≡ amount * p / fee_precision))
  unfolding compute_variable_opening_fee_view
  percentage_of amount rate fee e = elim (Zero-cases amount) [
    | inl empty ↦ inl (ground arith, empty)
    | inr positive ↦ elim (Result-cases (mint_fee s rate)) [
      | inl (p, h) ↦ inr (p, h, ground arith)
      | inr (reason, failed) ↦ absurd (ground arith)
    ]
  ]

  -- Where the least mint fee is at most the greatest, the opening fee of a loan is at least the
  -- least percentage of the amount and at most the greatest.
  compute_variable_opening_fee_view_bounds :
      (amount rate fee : ℕ)
      → compute_variable_opening_fee_view s amount rate ≡ ok fee
      → (amount * s.min_mint_fee / fee_precision ≤ fee)
        × (fee ≤ amount * s.max_mint_fee / fee_precision)
  compute_variable_opening_fee_view_bounds amount rate fee e =
      elim (percentage_of amount rate fee e) [
        | inl (none_due, empty) ↦ (ground arith, ground arith)
        | inr (p, h, due) ↦
            let bounds = mint_fee_bounds rate p h in
            (
              omega (arith, due, scaled-le amount s.min_mint_fee p bounds.0),
              omega (arith, due, scaled-le amount p s.max_mint_fee bounds.1),
            )
      ]

  -- Where moreover the two prices are in their order, a higher price of the asset never makes the
  -- opening fee of the same loan higher.
  pub compute_variable_opening_fee_view_falls :
      (amount low high fee lower : ℕ)
      → low ≤ high
      → s.max_mint_fee_start < s.min_mint_fee_start
      → compute_variable_opening_fee_view s amount low ≡ ok fee
      → compute_variable_opening_fee_view s amount high ≡ ok lower
      → lower ≤ fee
  compute_variable_opening_fee_view_falls amount low high fee lower h range e f =
      elim (percentage_of amount low fee e) [
        | inl (none_due, empty) ↦ omega (arith, no_fee amount high lower empty f)
        | inr (p, a, due) ↦ elim (percentage_of amount high lower f) [
          | inl (none_due, empty) ↦ omega (arith, none_due)
          | inr (q, b, due') ↦
              omega
                (arith, due, due', scaled-le amount q p (mint_fee-falls low high p q h range a b))
        ]
      ]

-- What a liquidation leaves over the debt is split without a rest: where the caller's reward is a
-- percentage up to 100, the caller's share and the fee's add up to what came back over the debt's
-- share, and the caller's share is at most that.
pub extract_liquidation_fees_lem :
    {W : Type 0} (o : Outside W) (c : Call) (returned owed reward : ℕ) (s : BigBang W)
    (r : (ℕ × ℕ) × BigBang W)
    → reward ≤ fee_precision
    → extract_liquidation_fees o c returned owed reward s ≡ ok r
    → (r.0.0 + r.0.1 ≡ returned - owed) × (r.1.market ≡ s.market)
unfolding extract_liquidation_fees
extract_liquidation_fees_lem o c returned owed reward s r h e = (ground arith, ground arith)
