-- ===== src/PostLbp2/BorrowAmount.antt =====
-- Bounds on the USDO that phase 2 borrows.
use tapioca_bar.Prelude.{ℕ, ◌+◌, ◌-◌, ◌*◌, ◌/◌, ◌^◌, ◌≤◌, ◌<◌, ◌≡◌, ap, arith}
use tapioca_bar.Prelude.{ok, pos}
use tapioca_bar.PostLbp2.MintUsdo.{borrow_amount}
use native.Mathlib.Nat.{le_trans, div-mul-le_self, mul-le-mul_right}

-- The USDO that the ether is worth, before `delta` is taken off.
abbrev pub full_amount : ℕ → ℕ → ℕ
full_amount rate eth = 10 ^ 36 / rate * eth / 10 ^ 18

scaled_back :
    (r rate eth full : ℕ)
    → r * rate ≤ 10 ^ 36
    → full * 10 ^ 18 ≤ r * eth
    → full * rate ≤ eth * 10 ^ 18
scaled_back r rate eth full h k = omega (arith, mul-le-mul_right rate k, mul-le-mul_right eth h)

-- What is borrowed is worth no more than the ether, at the rate that Origins had.
full_amount-le : (rate eth : ℕ) → full_amount rate eth * rate ≤ eth * 10 ^ 18
full_amount-le rate eth =
    scaled_back (10 ^ 36 / rate) rate eth (full_amount rate eth) (div-mul-le_self (10 ^ 36) rate)
      (div-mul-le_self (10 ^ 36 / rate * eth) (10 ^ 18))

less_share : (full delta : ℕ) → delta ≤ 100 → full * delta / 100 ≤ full
less_share full delta h = grind arith

split_share : (full delta : ℕ) → delta ≤ 100 → full * delta + full * (100 - delta) ≡ full * 100
split_share full delta h =
    let e : delta + (100 - delta) ≡ 100 = omega arith in omega (arith, ap (λ (t : ℕ). full * t) e)

module _ (rate eth delta : ℕ) (positive : 0 < rate) (share : delta ≤ 100) where
  abbrev borrowed : ℕ
  borrowed = full_amount rate eth - full_amount rate eth * delta / 100

  borrow_amount-eq : borrow_amount rate eth delta ≡ ok (pos borrowed)
  unfolding borrow_amount
  borrow_amount-eq = ground (arith, less_share (full_amount rate eth) delta share)

  -- With a positive rate and at most 100 per cent taken off, an amount results that is not
  -- negative. At the rate of Origins it is worth at most the ether, and it is the whole worth less
  -- `delta` per cent, rounded up to the next unit at most.
  pub borrow_amount_bounds :
      (b : ℕ) × (borrow_amount rate eth delta ≡ ok (pos b))
      × (b * rate ≤ eth * 10 ^ 18)
      × (full_amount rate eth * (100 - delta) ≤ b * 100)
      × (b * 100 ≤ full_amount rate eth * (100 - delta) + 99)
  borrow_amount_bounds = (
    borrowed,
    borrow_amount-eq,
    le_trans (mul-le-mul_right rate (omega arith)) (full_amount-le rate eth),
    omega (arith, split_share (full_amount rate eth) delta share),
    omega (arith, split_share (full_amount rate eth) delta share),
  )
