-- ===== src/Sdk/Tasks.antt =====
-- The tasks of tapioca-sdk that change the world: they may fail, and what they do is not known.
use tapioca_bar.Prelude.{ℕ, String, List, Result}
use tapioca_bar.Sdk.Calls.{Call}
use tapioca_bar.Sdk.Environment.{World}

pub record SdkTasks : Type 0 where
  -- `setLzPeer__task({ tag, targetName }, hre)`
  pub set_lz_peer : String → String → World → Result World
  -- `createEmptyStratYbAsset__task({ deploymentName, tag, token }, hre)`
  pub create_empty_strat_yb_asset : String → String → String → World → Result World
  -- `VM.executeMulticallValue(calls, { overrideOptions: { value } })`
  pub execute_multicall_value : List Call → ℕ → World → Result World
  -- `VM.executeMulticall(calls)`
  pub execute_multicall : List Call → World → Result World
