-- ===== src/PostLbp2/Examples.antt =====
-- Phase 2 at half an ether per dollar.
use tapioca_bar.Prelude.{ℕ, ◌*◌, ◌^◌, ◌≤◌, ◌+◌, ◌-◌, false, ◌≡◌, refl, ok, pos, IsOk}
use tapioca_bar.Config.Names
use native.Mathlib.Omega.{arith}
use tapioca_bar.Sdk.{World}
use tapioca_bar.PostLbp2.{Args2, post_deploy_calls_2}
use tapioca_bar.PostLbp2.PostDeploy.{post_deploy_calls_2-IsOk}
use tapioca_bar.PostLbp2.Contracts.{Contracts, load_contracts}
use tapioca_bar.PostLbp2.MintUsdo.{borrow_amount}
use tapioca_bar.PostLbp2.BorrowAmount.{full_amount, borrow_amount_bounds}
use tapioca_bar.TestData.{arbitrum_task, new_chain, saved, new_world}

borrow_amount_bounds_example :
    (b : ℕ) × (borrow_amount (5 * 10 ^ 17) (10 ^ 18) 3 ≡ ok (pos b))
    × (b * (5 * 10 ^ 17) ≤ 10 ^ 18 * 10 ^ 18)
    × (full_amount (5 * 10 ^ 17) (10 ^ 18) * (100 - 3) ≤ b * 100)
    × (b * 100 ≤ full_amount (5 * 10 ^ 17) (10 ^ 18) * (100 - 3) + 99)
borrow_amount_bounds_example =
    borrow_amount_bounds (5 * 10 ^ 17) (10 ^ 18) 3 (omega arith) (omega arith)

abbrev pub contracts : Contracts
contracts = record {
  origins = Names.origins_t_eth_market;
  yield_box = "YIELDBOX";
  t_eth = "T_ETH";
  usdo = Names.usdo;
}

abbrev args : Args2
args = record {
  delta = 3;
  transfer_to = "ethereum";
  eth_amount_for_usdc_usdo = "2";
  eth_amount_for_extra_usdo = "0.5";
  no_transfer = false;
}

-- A chain where the account has tokens to wrap.
abbrev funded_world : World
funded_world = record new_world { chain = record new_chain { balance_of = λ t o. 1 } }

post_deploy_calls_2-IsOk_example : IsOk (post_deploy_calls_2 arbitrum_task args funded_world)
unfolding load_contracts
post_deploy_calls_2-IsOk_example =
    post_deploy_calls_2-IsOk arbitrum_task args funded_world contracts (saved "PEARLMIT")
      (saved "T_ETH") refl refl (5 * 10 ^ 17) (2 * 10 ^ 18) refl refl refl refl
      (arbitrum_task.hre.chain_info) refl refl refl (omega arith) (omega arith)
