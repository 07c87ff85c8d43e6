-- ===== src/Toft/Examples.antt =====
-- Lending five USDO to the market of sGLP, which Lena has lent to before.
use tapioca_bar.Prelude.{ℕ, false, List, [], ◌≡◌, ◌+◌, ◌*◌, arith, refl, ok, get, put}
use tapioca_bar.Config.Names
use tapioca_bar.Sdk.{Call as Sent}
use tapioca_bar.Market.Views.{update_exchange_rate}
use tapioca_bar.Market.Allowances.{allowed_lend}
use tapioca_bar.Market.Messages.{send}
use tapioca_bar.BigBang.Sample.{sample, sample-IsRebaseLibrary}
use tapioca_bar.BigBang.Scenario.{value_or, coin}
use tapioca_bar.PostLbp2.MintExamples.{allowing}
use tapioca_bar.Singularity.{
  Singularity, utilization_of, interest_rate, get_interest_rate, accrue, add_tokens,
}
use tapioca_bar.Singularity.Assets.{put_asset, add_asset}
use tapioca_bar.Singularity.Owner.{write_config, set_singularity_config}
use tapioca_bar.Singularity.Initialise.{init, init_storage, init_default_values}
use tapioca_bar.Singularity.Scenario.{supplied}
use tapioca_bar.Toft.{DepositParams, deposit_usdo_yb_and_add_sgl}
use tapioca_bar.Toft.Execution.{execute_on_singularity, run_lending}
use tapioca_bar.Toft.OnSingularity.{
  IsDepositing, Lent, parties_of, from_multicall, run_lending-deposit_usdo_yb_and_add_sgl,
}
use tapioca_bar.PostLbp1.Loading.{load_generic}
use tapioca_bar.TestData.{arbitrum_task, new_world, saved, test_generic}

abbrev deposit : DepositParams
deposit = record {
  hre = arbitrum_task.hre;
  tag = "default";
  tapioca_multicall_addr = "MULTICALL";
  is_testnet = false;
  amount = 5 * coin;
}

sample-IsDepositing : IsDepositing sample allowing
sample-IsDepositing = record {
  priced = λ id amount from to w x e. ground (arith);
  kept = λ token owner spender allowance id amount w x e. refl;
}

abbrev market : Singularity ℕ
market = record supplied.1 { market = record supplied.1.market { asset_id = 7 } }

abbrev calls : List Sent
calls = value_or [] (deposit_usdo_yb_and_add_sgl deposit new_world Names.sgl_s_glp_market)

calls-eq : deposit_usdo_yb_and_add_sgl deposit new_world Names.sgl_s_glp_market ≡ ok calls
unfolding deposit_usdo_yb_and_add_sgl load_generic
calls-eq = refl

abbrev lent : Singularity ℕ
lent = value_or market (
    run_lending sample allowing
      (parties_of deposit (test_generic "SWAPPER") (saved Names.usdo)
        (saved Names.sgl_s_glp_market))
      (from_multicall
        (parties_of deposit (test_generic "SWAPPER") (saved Names.usdo)
          (saved Names.sgl_s_glp_market))
        5)
      calls market)

lent-eq :
    run_lending sample allowing
      (parties_of deposit
        (test_generic "SWAPPER")
        (saved Names.usdo)
        (saved Names.sgl_s_glp_market))
      (from_multicall
        (parties_of deposit
          (test_generic "SWAPPER")
          (saved Names.usdo)
          (saved Names.sgl_s_glp_market))
        5)
      calls
      market
    ≡ ok lent
unfolding deposit_usdo_yb_and_add_sgl load_generic init init_storage init_default_values
    update_exchange_rate set_singularity_config accrue get_interest_rate interest_rate
    utilization_of write_config add_asset allowed_lend put_asset add_tokens get put
    execute_on_singularity run_lending send
lent-eq = refl

run_lending-deposit_usdo_yb_and_add_sgl_example :
    Lent sample allowing
      (parties_of deposit
        (test_generic "SWAPPER")
        (saved Names.usdo)
        (saved Names.sgl_s_glp_market))
      (from_multicall
        (parties_of deposit
          (test_generic "SWAPPER")
          (saved Names.usdo)
          (saved Names.sgl_s_glp_market))
        5)
      7
      (5 * coin)
      (5 * coin)
      (new_world.chain.timestamp + 1800)
      market
      lent
unfolding load_generic
run_lending-deposit_usdo_yb_and_add_sgl_example =
    run_lending-deposit_usdo_yb_and_add_sgl sample allowing deposit new_world Names.sgl_s_glp_market
      (test_generic "SWAPPER") (saved Names.yb_usdo_asset_without_strategy) (saved Names.usdo)
      (saved Names.sgl_s_glp_market) 7 5 calls market lent sample-IsRebaseLibrary
      sample-IsDepositing refl refl refl refl refl refl calls-eq lent-eq
