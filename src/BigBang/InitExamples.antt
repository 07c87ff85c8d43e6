-- ===== src/BigBang/InitExamples.antt =====
-- The initialisation of a market of contracts/markets/bigBang/BigBang.sol, tried on rates left at
-- their defaults.
use tapioca_bar.Prelude.{ℕ, Bool, true, false, ok, err, rejected, ◌≡◌, ◌*◌, ◌^◌, refl}
use tapioca_bar.Market.Views.{update_exchange_rate}
use tapioca_bar.Market.Configuration.{IsConfigured}
use tapioca_bar.BigBang.{BigBang}
use tapioca_bar.BigBang.Initialise.{InitData, init, init_core_storage, init_debt_storage, init_once}
use tapioca_bar.BigBang.Sample.{sample, fresh, by}
use tapioca_bar.BigBang.Scenario.{value_or}

abbrev defaults : InitData
defaults = record {
  penrose = "0xPE";
  usdo_token = "0x05";
  usdo_asset_id = 3;
  collateral = "0xC0";
  collateral_id = 2;
  oracle = "0x0C";
  exchange_rate_precision = 0;
  collateralization_rate = 0;
  liquidation_collateralization_rate = 0;
  debt_rate_against_eth = 2 * 10 ^ 17;
  debt_rate_min = 5 * 10 ^ 15;
  debt_rate_max = 5 * 10 ^ 16;
}

abbrev initialised : BigBang ℕ × Bool
initialised = value_or (fresh, false) (init sample (by "0xDE" 7) defaults false fresh)

initialised-eq : init sample (by "0xDE" 7) defaults false fresh ≡ ok (initialised.0, true)
unfolding init init_core_storage init_debt_storage update_exchange_rate
initialised-eq = refl

init_once_example :
    IsConfigured initialised.0.market
    × (initialised.0.market.owner ≡ "0xPE")
    × (init sample (by "0xDE" 7) defaults true fresh ≡ err (rejected "Market: initialized"))
init_once_example =
    init_once sample (by "0xDE" 7) defaults defaults false true fresh initialised.0 fresh
      initialised-eq
