-- ===== src/PostLbp1/Deploy/Dependencies.antt =====
-- The deployer resolves the dependencies of a contract to addresses that it has deployed before:
-- the order in which phase 1 queues its contracts.
use tapioca_bar.Prelude.{String, Bool, true, false, List, [], ◌∷◌, ◌++◌, map, arith, ◌≡◌, refl}
use tapioca_bar.Prelude.{ok, ◌&&◌, if◌then◌else◌, contains, distinct}
use mathlib.Core.List.{map-append}
use tapioca_bar.Config.Names as N
use tapioca_bar.Sdk.{Build}
use tapioca_bar.PostLbp1.Params.{VmPass}
use tapioca_bar.PostLbp1.Loading.{Generic}
use tapioca_bar.PostLbp1.Deploy.{
  liquidator_builds, usdo_builds, glp_executor_builds, penrose_builds, host_builds, side_builds,
  deploy_task,
}
use tapioca_bar.PostLbp1.Deploy.DeployedNames.{
  names, liquidator_names, executor_names, penrose_names, host_names, side_names, deploy_names,
  deploy_task_names,
}

-- The names that each contract of a queue depends on.
abbrev pub dependencies : List Build → List (List String)
dependencies = map (λ b. map (λ d. d.deployment_name) b.depends_on)

abbrev all_in : List String → List String → Bool
all_in seen [] = true
all_in seen (d ∷ ds) = contains d seen && all_in seen ds

-- Every dependency is the name of a contract that stands earlier, or among `seen`.
abbrev pub is_ordered : List String → List String → List (List String) → Bool
is_ordered seen [] ds = true
is_ordered seen (n ∷ ns) [] = false
is_ordered seen (n ∷ ns) (d ∷ ds) = all_in seen d && is_ordered (n ∷ seen) ns ds

abbrev free : List String → List (List String)
free = map (λ n. [])

abbrev usdo_dependencies : List (List String)
usdo_dependencies =
    []
    ∷ []
    ∷ []
    ∷ []
    ∷ []
    ∷ []
    ∷ []
    ∷ []
    ∷ (N.usdo_ext_exec ∷ N.usdo_market_receiver_module ∷ N.usdo_option_receiver_module
        ∷ N.usdo_receiver_module ∷ N.usdo_sender_module ∷ [])
    ∷ (N.usdo ∷ [])
    ∷ []

abbrev deploy_dependencies : Bool → Bool → Bool → List (List String)
deploy_dependencies is_testnet is_host_chain is_side_chain =
    free liquidator_names
    ++ (usdo_dependencies
        ++ (free (executor_names is_testnet)
            ++ (free penrose_names
                ++ ([]
                    ∷ ((if is_host_chain then free (host_names is_testnet) else [])
                        ++ (if is_side_chain then free (side_names is_testnet) else []))))))

module _ (p : VmPass) where
  module _ (g : Generic) where
    dependencies-liquidator_builds :
        {q : List Build} → liquidator_builds p g ≡ ok q → dependencies q ≡ free liquidator_names
    unfolding liquidator_builds
    dependencies-liquidator_builds h = ground arith

    dependencies-usdo_builds :
        {q : List Build} → usdo_builds p g ≡ ok q → dependencies q ≡ usdo_dependencies
    unfolding usdo_builds
    dependencies-usdo_builds h = ground arith

    dependencies-glp_executor_builds :
        {q : List Build}
        → glp_executor_builds p g ≡ ok q
        → dependencies q ≡ free (executor_names p.is_testnet)
    unfolding glp_executor_builds
    dependencies-glp_executor_builds h = ground arith

    dependencies-penrose_builds :
        {q : List Build} → penrose_builds p g ≡ ok q → dependencies q ≡ free penrose_names
    unfolding penrose_builds
    dependencies-penrose_builds h = ground arith

  dependencies-host_builds :
      {q : List Build} → host_builds p ≡ ok q → dependencies q ≡ free (host_names p.is_testnet)
  unfolding host_builds
  dependencies-host_builds h = ground arith

  dependencies-side_builds :
      {q : List Build} → side_builds p ≡ ok q → dependencies q ≡ free (side_names p.is_testnet)
  unfolding side_builds
  dependencies-side_builds h = ground arith

  dependencies-deploy_task :
      {q : List Build}
      → deploy_task p ≡ ok q
      → dependencies q ≡ deploy_dependencies p.is_testnet p.is_host_chain p.is_side_chain
  unfolding deploy_task
  dependencies-deploy_task h = grind (
    arith, dependencies-liquidator_builds, dependencies-usdo_builds,
    dependencies-glp_executor_builds, dependencies-penrose_builds, dependencies-host_builds,
    dependencies-side_builds, map-append,
  )

deploy_names_ordered :
    (is_testnet is_host_chain is_side_chain : Bool)
    → let ns = deploy_names is_testnet is_host_chain is_side_chain in
      (is_ordered [] ns (deploy_dependencies is_testnet is_host_chain is_side_chain) ≡ true)
      × (distinct ns ≡ true)
deploy_names_ordered true true true = (refl, refl)
deploy_names_ordered true true false = (refl, refl)
deploy_names_ordered true false true = (refl, refl)
deploy_names_ordered true false false = (refl, refl)
deploy_names_ordered false true true = (refl, refl)
deploy_names_ordered false true false = (refl, refl)
deploy_names_ordered false false true = (refl, refl)
deploy_names_ordered false false false = (refl, refl)

-- In the queue of phase 1, on every kind of chain, each dependency of a contract is the name of a
-- contract queued before it, and no two contracts have the same name.
pub deploy_task_ordered :
    (p : VmPass) {q : List Build}
    → deploy_task p ≡ ok q
    → (is_ordered [] (names q) (dependencies q) ≡ true) × (distinct (names q) ≡ true)
deploy_task_ordered p h =
    rw (deploy_task_names p h, dependencies-deploy_task p h)
      (deploy_names_ordered p.is_testnet p.is_host_chain p.is_side_chain)
