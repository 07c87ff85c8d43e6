-- ===== src/Penrose/Debt.antt =====
-- The open interest of the BigBang markets in contracts/Penrose.sol: viewTotalDebt and
-- mintOpenInterestDebt. A market is what answers `openInterestDebt` and
-- `consumeMintableOpenInterestDebt`, as contracts/markets/bigBang/BigBang.sol does.
use tapioca_bar.Prelude.{
  ℕ, String, Bool, List, [], ◌∷◌, Result, ok, ◌>>=◌, ◌>>◌, ltb, if◌then◌else◌, ◌≡◌, arith, add,
}
use tapioca_bar.Penrose.{Penrose, only_owner, update}
use tapioca_bar.Market.Outside.{Outside, Call}
use tapioca_bar.BigBang.{BigBang}
use tapioca_bar.BigBang.Owner.{consume_mintable_open_interest_debt}

-- `IBigBang` as Penrose uses it here, on the state `M` of a market.
pub record DebtMarket (M : Type 0) : Type 0 where
  pub open_interest_debt : M → ℕ
  pub consume : M → Result (ℕ × M)

-- Consuming yields the debt and leaves none.
pub record IsDebtMarket {M : Type 0} (d : DebtMarket M) : Type 0 where
  pub consumed :
      (m : M) (x : ℕ × M)
      → d.consume m ≡ ok x
      → (x.0 ≡ d.open_interest_debt m) × (d.open_interest_debt x.1 ≡ 0)

-- A BigBang market, called by `c`.
abbrev pub big_bang_market : {W : Type 0} → Outside W → Call → DebtMarket (BigBang W)
big_bang_market o c = record {
  open_interest_debt = λ s. s.open_interest_debt;
  consume = λ s. consume_mintable_open_interest_debt o c s;
}

pub big_bang_market-IsDebtMarket :
    {W : Type 0} (o : Outside W) (c : Call) → IsDebtMarket (big_bang_market o c)
unfolding consume_mintable_open_interest_debt
big_bang_market-IsDebtMarket o c = record { consumed = λ m x e. (ground arith, ground arith) }

-- USDO and twTap: `mint(to, amount)`, and `rewardTokenIndex` and `distributeReward` with the
-- approvals around them.
pub record RewardToken (W : Type 0) : Type 0 where
  pub mint : String → ℕ → W → Result W
  pub distribute : String → ℕ → W → Result W

module _ {M : Type 0} (d : DebtMarket M) (is_registered : String → Bool) where
  -- The loop of `viewTotalDebt`
  unfoldable pub view_debts : ℕ → List String → (String → M) → Result ℕ
  view_debts sum [] markets = ok sum
  view_debts sum (m ∷ ms) markets =
      if is_registered m
      then (add sum (d.open_interest_debt (markets m)) >>= λ more. view_debts more ms markets)
      else view_debts sum ms markets

  -- The loop of `mintOpenInterestDebt`, which yields the sum and the markets.
  unfoldable pub consume_debts : ℕ → List String → (String → M) → Result (ℕ × (String → M))
  consume_debts sum [] markets = ok (sum, markets)
  consume_debts sum (m ∷ ms) markets =
      if is_registered m
      then (d.consume (markets m) >>= λ consumed.
          add sum consumed.0 >>= λ more. consume_debts more ms (update markets m consumed.1))
      else consume_debts sum ms markets

module _ {M : Type 0} (d : DebtMarket M) where
  unfoldable pub view_total_debt : Penrose → (String → M) → Result ℕ
  view_total_debt s markets = view_debts d s.is_market_registered 0 s.all_big_bang_markets markets

  -- `if (sum > 0) { ... }`
  unfoldable pub pay_out : {W : Type 0} → RewardToken W → String → String → ℕ → W → Result W
  pay_out reward this tw_tap sum w =
      if ltb 0 sum
      then (reward.mint this sum w >>= λ minted. reward.distribute tw_tap sum minted)
      else ok w

  unfoldable pub mint_open_interest_debt :
      {W : Type 0}
      → RewardToken W
      → String
      → String
      → String
      → Penrose
      → (String → M) × W
      → Result ((String → M) × W)
  mint_open_interest_debt reward this sender tw_tap s x = do
    only_owner sender s
    consumed ← consume_debts d s.is_market_registered 0 s.all_big_bang_markets x.0
    w ← pay_out reward this tw_tap consumed.0 x.1
    ok (consumed.1, w)
