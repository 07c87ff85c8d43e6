-- ===== src/Final/Examples.antt =====
-- The last phase on Sepolia, towards a chain that is known and one that is not.
use tapioca_bar.Prelude.{ℕ, String, some, List, ◌≡◌, refl, ok}
use native.Mathlib.Omega.{arith}
use tapioca_bar.Sdk.{World, Call}
use tapioca_bar.PostLbp1.Params.{VmPass}
use tapioca_bar.Final.{side_calls_2}
use tapioca_bar.Final.Address.{is_prefixed, size}
use tapioca_bar.Final.Value.{total_value, HaveValues, side_calls_2_value}
use tapioca_bar.TestData.{sepolia_task, new_chain, new_world, saved}

abbrev address : String
address = "0xB97f3fda040662B44055BdcBEc2BaB7CAA70839c"

-- The multicall contract of the other chain has a real address.
abbrev task : VmPass
task = record sepolia_task {
  hre = record sepolia_task.hre {
    find_global = λ project chain name tag. some (record (saved name) { address = address });
  };
}

abbrev funded_world : World
funded_world = record new_world { chain = record new_chain { balance_of = λ t o. 1 } }

side_calls_2_value_example :
    (calls : List Call) × (fee : ℕ) × (side_calls_2 task "ethereum" funded_world "T_SGL_SDAI"
      ≡ ok (calls, fee))
    × (total_value calls ≡ fee)
    × HaveValues calls
unfolding is_prefixed size
side_calls_2_value_example =
    side_calls_2_value task "ethereum" funded_world "T_SGL_SDAI" task.hre.chain_info
      (record (saved "MULTICALL") { address = address })
      (record (saved "PEARLMIT") { address = address }) refl refl refl (omega arith) refl refl
