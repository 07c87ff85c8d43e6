-- ===== src/PostLbp1/Params.antt =====
-- What the tasks of a phase are passed.
use tapioca_bar.Prelude.{String, Bool, List}
use tapioca_bar.Sdk.{Hre, Deployment}

-- `TTapiocaDeployerVmPass`, with the tag of its task arguments.
pub record VmPass : Type 0 where
  pub hre : Hre
  pub tag : String
  pub tapioca_multicall_addr : String
  pub is_testnet : Bool
  pub is_host_chain : Bool
  pub is_side_chain : Bool

-- `TPostDeployParams`. The array `calls` is only pushed to: a step returns what it pushes.
pub record PostDeployParams : Type 0 where
  pub hre : Hre
  pub tag : String
  pub deployed : List Deployment
  pub is_testnet : Bool
  pub is_host_chain : Bool
  pub is_side_chain : Bool
