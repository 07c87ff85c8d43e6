-- ===== src/Penrose/DebtExamples.antt =====
-- Penrose mints the open interest of two BigBang markets.
use tapioca_bar.Prelude.{ℕ, String, true, false, [], ◌∷◌, ok, ◌+◌, ◌≡◌, refl, if◌then◌else◌, ◌===◌}
use tapioca_bar.Penrose.{Penrose}
use tapioca_bar.Penrose.Debt.{
  DebtMarket, RewardToken, big_bang_market, big_bang_market-IsDebtMarket, consume_debts,
  view_total_debt, pay_out, mint_open_interest_debt,
}
use tapioca_bar.Penrose.Minting.{mint_open_interest_debt_lem}
use tapioca_bar.Penrose.Examples.{empty}
use tapioca_bar.BigBang.{BigBang}
use tapioca_bar.BigBang.Sample.{sample, fresh, by}
use tapioca_bar.BigBang.Scenario.{value_or}
use tapioca_bar.BigBang.Owner.{consume_mintable_open_interest_debt}

abbrev registry : Penrose
registry = record empty {
  all_big_bang_markets = "0x01" ∷ "0x02" ∷ "0x03" ∷ [];
  is_market_registered = λ m. if m === "0x02" then false else true;
}

abbrev markets : String → BigBang ℕ
markets m = record fresh { open_interest_debt = (if m === "0x01" then 5 else 7) }

abbrev market : DebtMarket (BigBang ℕ)
market = big_bang_market sample (by "0xA1" 1)

-- The state is what was minted, and what was distributed.
abbrev reward : RewardToken (ℕ × ℕ)
reward = record {
  mint = λ to amount w. ok (w.0 + amount, w.1);
  distribute = λ tw_tap amount w. ok (w.0, w.1 + amount);
}

abbrev minted : (String → BigBang ℕ) × (ℕ × ℕ)
minted =
    value_or (markets, (0, 0))
      (mint_open_interest_debt market reward "0xPE" "MULTICALL" "0x7A" registry (markets, (0, 0)))

minted-eq :
    mint_open_interest_debt market reward "0xPE" "MULTICALL" "0x7A" registry (markets, (0, 0))
    ≡ ok minted
unfolding mint_open_interest_debt consume_debts consume_mintable_open_interest_debt pay_out
minted-eq = refl

paid : minted.1 ≡ (12, 12)
unfolding mint_open_interest_debt consume_debts consume_mintable_open_interest_debt pay_out
paid = refl

mint_open_interest_debt_lem_example :
    (debt : ℕ) × (view_total_debt market registry markets ≡ ok debt)
    × (pay_out market reward "0xPE" "0x7A" debt (0, 0) ≡ ok minted.1)
    × (view_total_debt market registry minted.0 ≡ ok 0)
    × (("MULTICALL" === "MULTICALL") ≡ true)
mint_open_interest_debt_lem_example =
    mint_open_interest_debt_lem market (big_bang_market-IsDebtMarket sample (by "0xA1" 1)) reward
      "0xPE" "MULTICALL" "0x7A" registry (markets, (0, 0)) minted minted-eq refl
