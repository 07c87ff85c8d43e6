-- ===== src/PostLbp2/MintExamples.antt =====
-- The multicall mints one USDO against four tETH.
use tapioca_bar.Prelude.{ℕ, true, List, [], ok, pos, ◌≡◌, ◌*◌, refl, get, put}
use tapioca_bar.Config.{arbitrum}
use tapioca_bar.Sdk.{Call as Sent}
use tapioca_bar.Market.Messages.{Approvals, send}
use tapioca_bar.Market.Views.{update_exchange_rate, is_solvent}
use tapioca_bar.BigBang.Sample.{sample, sample-IsRebaseLibrary, fresh, quotient_of}
use tapioca_bar.BigBang.Scenario.{value_or, coin}
use tapioca_bar.Origins.{Origins}
use tapioca_bar.Origins.Operations.{
  put_collateral, lend, refresh, require_solvent, add_collateral, borrow,
}
use tapioca_bar.PostLbp2.Contracts.{load_contracts}
use tapioca_bar.PostLbp2.MintUsdo.{mint_origin_usdo}
use tapioca_bar.PostLbp2.Execution.{execute_on_origins, run_mint}
use tapioca_bar.PostLbp2.OnOrigins.{Minted, parties_of, from_multicall, run_mint-mint_origin_usdo}
use tapioca_bar.PostLbp2.Examples.{contracts}
use tapioca_bar.TestData.{hre_on, new_world}

abbrev pub allowing : Approvals ℕ
allowing = record {
  approve = λ token owner spender amount w. ok w;
  set_approval_for_asset = λ owner operator id approved w. ok w;
  set_approval_for_all = λ owner operator approved w. ok w;
  approve_operator = λ owner kind token id operator amount expiration w. ok w;
}

abbrev market : Origins ℕ
market = record {
  market = record fresh.market { owner = "MULTICALL"; collateral_id = 3; asset_id = 4 };
  allowed_participants = λ user. true;
  outside = 0;
}

abbrev calls : List Sent
calls =
    value_or []
      (mint_origin_usdo (hre_on arbitrum) "default" "MULTICALL" new_world (4 * coin) (pos coin))

abbrev minted : Origins ℕ
minted = value_or market (
    run_mint sample allowing (parties_of contracts "MULTICALL")
      (from_multicall contracts "MULTICALL" 5) calls market)

calls-eq :
    mint_origin_usdo (hre_on arbitrum) "default" "MULTICALL" new_world (4 * coin) (pos coin)
    ≡ ok calls
unfolding mint_origin_usdo load_contracts
calls-eq = refl

minted-eq :
    run_mint sample allowing
      (parties_of contracts "MULTICALL")
      (from_multicall contracts "MULTICALL" 5)
      calls
      market
    ≡ ok minted
unfolding mint_origin_usdo load_contracts run_mint execute_on_origins send add_collateral
    put_collateral get put borrow refresh update_exchange_rate lend quotient_of require_solvent
    is_solvent
minted-eq = refl

run_mint-mint_origin_usdo_example :
    Minted sample allowing (parties_of contracts "MULTICALL") (4 * coin) coin market minted
unfolding load_contracts
run_mint-mint_origin_usdo_example =
    run_mint-mint_origin_usdo sample allowing (hre_on arbitrum) "default" "MULTICALL" new_world
      (4 * coin) coin 5 contracts calls market minted sample-IsRebaseLibrary refl refl refl calls-eq
      minted-eq
