-- ===== src/BigBang/Accrual.antt =====
-- The interest of a BigBang market.
use tapioca_bar.Prelude.{
  ℕ, String, not, ◌===◌, ◌&&◌, if◌then◌else◌, false, ok, ◌≡◌, ◌≤◌, ◌<◌, ◌+◌, ◌*◌, ◌/◌, ◌-◌, ◌^◌,
  arith, IsOk,
}
use native.Mathlib.Nat.{mul-le-mul}
use tapioca_bar.Penrose.{zero_address}
use tapioca_bar.Market.Outside.{Outside, Call}
use tapioca_bar.BigBang.{BigBang, get_debt_rate, accrue_view, accrue_own, accrue}

module _ {W : Type 0} (o : Outside W) (c : Call) where
  -- A market that is not the main one, with a least rate up to its greatest, has a debt rate
  -- between the two.
  get_debt_rate_bounds :
      (s : BigBang W) (rate : ℕ)
      → s.is_main_market ≡ false
      → s.min_debt_rate ≤ s.max_debt_rate
      → get_debt_rate o c s ≡ ok rate
      → (s.min_debt_rate ≤ rate) × (rate ≤ s.max_debt_rate)
  unfolding get_debt_rate
  get_debt_rate_bounds s rate side order e = (ground arith, ground arith)

  -- The view that other computations use foretells the debt that an accrual stores, from the state
  -- that the accrual of the ETH market leaves.
  pub accrue_view-accrue_own :
      (s t : BigBang W) → accrue_own o c s ≡ ok t → accrue_view o c s ≡ ok t.market.total_borrow
  unfolding accrue_own accrue_view
  accrue_view-accrue_own s t e = ground arith

  last_accrual :
      (s t : BigBang W) → accrue_own o c s ≡ ok t → t.accrue_info.last_accrued ≡ c.timestamp
  unfolding accrue_own
  last_accrual s t e = ground arith

  second_accrual :
      (t : BigBang W) → t.accrue_info.last_accrued ≡ c.timestamp → accrue_own o c t ≡ ok t
  unfolding accrue_own
  second_accrual t now = ground arith

  -- An accrual leaves the parts, never lowers the debt, keeps it below 2^128 and counts what it
  -- adds to the debt, no more and no less, as open interest; a second accrual in the same second
  -- changes nothing.
  pub accrue_own_lem :
      (s t : BigBang W)
      → s.market.total_borrow.elastic < 2 ^ 128
      → accrue_own o c s ≡ ok t
      → (t.market.total_borrow.base ≡ s.market.total_borrow.base)
        × (s.market.total_borrow.elastic ≤ t.market.total_borrow.elastic)
        × (t.market.total_borrow.elastic < 2 ^ 128)
        × (t.open_interest_debt + s.market.total_borrow.elastic
            ≡ s.open_interest_debt + t.market.total_borrow.elastic)
        × (accrue_own o c t ≡ ok t)
  unfolding accrue_own
  accrue_own_lem s t small e = (
    ground arith,
    ground arith,
    ground arith,
    ground arith,
    second_accrual t (last_accrual s t e),
  )

interest_fits :
    (elastic rate elapsed : ℕ)
    → elastic < 2 ^ 128
    → rate < 2 ^ 64
    → elapsed < 2 ^ 64
    → (elastic * rate < 2 ^ 256) × (elastic * rate * elapsed < 2 ^ 256)
interest_fits elastic rate elapsed a b d =
    let product : elastic * rate ≤ (2 ^ 128 - 1) * (2 ^ 64 - 1) =
      mul-le-mul {n₂ = 2 ^ 128 - 1} {m₂ = 2 ^ 64 - 1} (omega (arith, a)) (omega (arith, b)) in
    let all : elastic * rate * elapsed ≤ (2 ^ 128 - 1) * (2 ^ 64 - 1) * (2 ^ 64 - 1) =
      mul-le-mul {m₂ = 2 ^ 64 - 1} product (omega (arith, d)) in
    (omega (arith, product), omega (arith, all))

module _ {W : Type 0} (o : Outside W) (c : Call) where
  accrue_own-IsOk :
      (s : BigBang W) (rate : ℕ)
      → get_debt_rate o c s ≡ ok rate
      → rate / 31557600 < 2 ^ 64
      → s.accrue_info.last_accrued ≤ c.timestamp
      → c.timestamp < 2 ^ 64
      → s.market.total_borrow.elastic < 2 ^ 128
      → s.open_interest_debt < 2 ^ 255
      → IsOk (accrue_own o c s)
  unfolding accrue_own
  accrue_own-IsOk s rate known small order now debt interest = ground (
    arith,
    interest_fits s.market.total_borrow.elastic (rate / 31557600)
        (c.timestamp - s.accrue_info.last_accrued) debt small (omega (arith, now)),
  )

  -- The accrual of a market, that of the ETH market that it starts with included, does not revert:
  -- where Penrose names the ETH market, the accrual of the ETH market, if it is another one and is
  -- set, does not revert, the debt rate after it is known and its rate per second fits 64 bits, the
  -- block is not before the last accrual and its time fits 64 bits, the debt fits 128 bits and the
  -- open interest is below 2^255.
  pub accrue-IsOk :
      (s : BigBang W) (eth_market : String) (outside : W) (rate : ℕ)
      → o.big_bang_eth_market s.outside ≡ ok eth_market
      → (if not (eth_market === c.address_this) && not (eth_market === zero_address)
          then o.accrue_market eth_market s.outside
          else ok s.outside)
        ≡ ok outside
      → get_debt_rate o c (record s { outside = outside }) ≡ ok rate
      → rate / 31557600 < 2 ^ 64
      → s.accrue_info.last_accrued ≤ c.timestamp
      → c.timestamp < 2 ^ 64
      → s.market.total_borrow.elastic < 2 ^ 128
      → s.open_interest_debt < 2 ^ 255
      → IsOk (accrue o c s)
  unfolding accrue
  accrue-IsOk s eth_market outside rate main accrued known small order now debt interest =
      let own =
        accrue_own-IsOk (record s { outside = outside }) rate known small order now debt interest in
      rw (main, accrued) own
