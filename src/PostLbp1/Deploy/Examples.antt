-- ===== src/PostLbp1/Deploy/Examples.antt =====
-- The deploy task of phase 1 on three chains.
use tapioca_bar.Prelude.{true, List, [], ◌≡◌, refl, ok, err, type_error, IsOk, distinct}
use tapioca_bar.Config.{arbitrum, sepolia}
use tapioca_bar.Sdk.{Build}
use tapioca_bar.PostLbp1.Params.{VmPass}
use tapioca_bar.PostLbp1.Loading.{load_generic, load_arb}
use tapioca_bar.PostLbp1.Deploy.{
  deploy_task, liquidator_builds, usdo_builds, glp_executor_builds, penrose_builds, host_builds,
}
use tapioca_bar.PostLbp1.Deploy.DeployedNames.{names}
use tapioca_bar.PostLbp1.Deploy.Dependencies.{is_ordered, dependencies, deploy_task_ordered}
use tapioca_bar.PostLbp1.Deploy.Chains.{deploy_task_eth_side, deploy_task-IsOk}
use tapioca_bar.TestData.{
  arbitrum_task, arbitrum_sepolia_task, sepolia_task, test_generic, test_arb, test_meta,
}

abbrev queue_of : VmPass → List Build
queue_of p = elim (deploy_task p) [ ok q ↦ q | err e ↦ [] ]

abbrev pub arbitrum_queue : List Build
arbitrum_queue = queue_of arbitrum_task

abbrev pub arbitrum_sepolia_queue : List Build
arbitrum_sepolia_queue = queue_of arbitrum_sepolia_task

pub arbitrum_queued : deploy_task arbitrum_task ≡ ok arbitrum_queue
unfolding deploy_task liquidator_builds usdo_builds glp_executor_builds penrose_builds host_builds
    load_generic load_arb
arbitrum_queued = refl

pub arbitrum_sepolia_queued : deploy_task arbitrum_sepolia_task ≡ ok arbitrum_sepolia_queue
unfolding deploy_task liquidator_builds usdo_builds glp_executor_builds penrose_builds host_builds
    load_generic load_arb
arbitrum_sepolia_queued = refl

deploy_task_ordered_example :
    (is_ordered [] (names arbitrum_queue) (dependencies arbitrum_queue) ≡ true)
    × (distinct (names arbitrum_queue) ≡ true)
deploy_task_ordered_example = deploy_task_ordered arbitrum_task arbitrum_queued

deploy_task_eth_side_example : deploy_task sepolia_task ≡ err type_error
unfolding load_generic
deploy_task_eth_side_example =
    deploy_task_eth_side sepolia_task (test_generic "SWAPPER_MOCK") sepolia refl refl refl refl

deploy_task-IsOk_example : IsOk (deploy_task arbitrum_task)
unfolding load_generic load_arb
deploy_task-IsOk_example =
    deploy_task-IsOk arbitrum_task arbitrum refl refl refl (test_generic "SWAPPER")
      (test_arb "SWAPPER") test_meta test_meta refl refl refl refl refl
