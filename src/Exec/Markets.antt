-- ===== src/Exec/Markets.antt =====
-- tasks/exec/01, 02, 04 to 09, setBorrowCap.ts and the liquidation queue's tasks: calls of a market
-- through Penrose.
use tapioca_bar.Prelude.{
  ℕ, String, Bool, List, [], ◌∷◌, Result, ok, err, rejected, ◌>>=◌, if◌then◌else◌, map,
}
use tapioca_bar.Sdk.{Arg, text, num, flag, Call}
use tapioca_bar.Penrose.{zero_address}
use tapioca_bar.Exec.{Runtime, encode, execute_market_fn, get_deployment, get_singularity_contract}

-- What the tasks share: Penrose, the contract's interface, and the transaction.
unfoldable pub market_task : Runtime → String → String → String → List Arg → Result (List Call)
market_task rt contract market fn args = do
  penrose ← rt.penrose
  encoded' ← encode rt contract fn args
  ok (execute_market_fn penrose market encoded' ∷ [])

abbrev answer_or_0 : Runtime → String → Arg
answer_or_0 rt name = rt.prompt name (num 0)

unfoldable pub market_update_pause : Runtime → String → String → Bool → Result (List Call)
unfolding market_task
market_update_pause rt market kind status =
    market_task rt "Market" market "updatePause" (text kind ∷ flag status ∷ [])

unfoldable pub set_leverage_executor : Runtime → String → String → Result (List Call)
unfolding market_task
set_leverage_executor rt market executor =
    market_task rt "Market" market "setLeverageExecutor" (text executor ∷ [])

unfoldable pub set_market_config_task : Runtime → String → Result (List Call)
unfolding market_task
set_market_config_task rt market = market_task rt "Market" market "setMarketConfig" (
    rt.prompt "oracle" (text zero_address)
    ∷ rt.prompt "oracleData" (text "0x")
    ∷ rt.prompt "conservator" (text zero_address)
    ∷ num 0
    ∷ map (answer_or_0 rt) (
        "protocolFee" ∷ "liquidationBonusAmount" ∷ "minLiquidatorReward" ∷ "maxLiquidatorReward"
        ∷ "totalBorrowCap" ∷ "collateralizationRate" ∷ "liquidationCollateralizationRate" ∷ []))

-- `fee` is what the market answers to `borrowOpeningFee()`.
unfoldable pub set_singularity_config_task : Runtime → ℕ → String → Result (List Call)
unfolding market_task
set_singularity_config_task rt fee singularity =
    market_task rt "Singularity" singularity "setSingularityConfig" (
      rt.prompt "borrowOpeningFee" (num fee)
      ∷ map (answer_or_0 rt) (
          "lqCollateralizationRate" ∷ "liquidationMultiplier" ∷ "minimumTargetUtilization"
          ∷ "maximumTargetUtilization" ∷ "minimumInterestPerSecond" ∷ "maximumInterestPerSecond"
          ∷ "interestElasticity" ∷ []))

unfoldable pub set_min_and_max_mint_range_task :
    Runtime → String → String → String → Result (List Call)
unfolding market_task
set_min_and_max_mint_range_task rt bb start end' =
    market_task rt "BigBang" bb "setMinAndMaxMintRange" (text start ∷ text end' ∷ [])

unfoldable pub set_min_and_max_mint_fee_task :
    Runtime → String → String → String → Result (List Call)
unfolding market_task
set_min_and_max_mint_fee_task rt bb min max =
    market_task rt "BigBang" bb "setMinAndMaxMintFee" (text min ∷ text max ∷ [])

unfoldable pub set_asset_oracle : Runtime → String → String → String → Result (List Call)
unfolding market_task
set_asset_oracle rt bb oracle oracle_data =
    market_task rt "BigBang" bb "setAssetOracle" (text oracle ∷ text oracle_data ∷ [])

unfoldable pub set_big_bang_config_task : Runtime → String → Result (List Call)
unfolding market_task
set_big_bang_config_task rt bb = market_task rt "BigBang" bb "setBigBangConfig" (
    map (answer_or_0 rt)
      ("minDebtRate" ∷ "maxDebtRate" ∷ "debtRateAgainstEthMarket" ∷ "liquidationMultiplier" ∷ []))

-- The market of `setCap`: ethers refuses a contract without an address.
abbrev cap_market : Runtime → String → String → Result String
cap_market rt singularity big_bang =
    if rt.is_address singularity
    then ok singularity
    else if rt.is_address big_bang
    then ok big_bang
    else err (rejected "invalid contract address or ENS name")

-- The arguments of `setMarketConfig` in `setCap`.
abbrev pub cap_args : ℕ → List Arg
cap_args cap =
    text zero_address
    ∷ text ""
    ∷ text zero_address
    ∷ num 0
    ∷ num 0
    ∷ num 0
    ∷ num 0
    ∷ num 0
    ∷ num cap
    ∷ num 0
    ∷ num 0
    ∷ []

-- `setBorrowCap__task`
unfoldable pub set_borrow_cap : Runtime → String → String → ℕ → Result (List Call)
set_borrow_cap rt singularity big_bang cap = do
  penrose ← rt.penrose
  market ← cap_market rt singularity big_bang
  encoded' ← encode rt "Market" "setMarketConfig" (cap_args cap)
  ok (execute_market_fn penrose market encoded' ∷ [])

-- What the three tasks of the liquidation queue share.
abbrev queue_task : Runtime → String → String → List Arg → Result (List Call)
queue_task rt singularity fn args = do
  penrose ← get_deployment rt "Penrose"
  market ← get_singularity_contract rt singularity
  encoded' ← encode rt "Singularity" fn args
  ok (execute_market_fn penrose market encoded' ∷ [])

unfoldable pub set_liquidation_queue : Runtime → String → String → String → Result (List Call)
unfolding get_deployment get_singularity_contract
set_liquidation_queue rt singularity queue meta =
    queue_task rt singularity "setLiquidationQueue" (text queue ∷ text meta ∷ [])

unfoldable pub set_liquidation_queue_bid_swapper : Runtime → String → String → Result (List Call)
unfolding get_deployment get_singularity_contract
set_liquidation_queue_bid_swapper rt singularity swapper =
    queue_task rt singularity "updateLQUsdoSwapper" (text swapper ∷ [])

unfoldable pub set_liquidation_queue_execution_swapper :
    Runtime → String → String → Result (List Call)
unfolding get_deployment get_singularity_contract
set_liquidation_queue_execution_swapper rt singularity swapper =
    queue_task rt singularity "updateLQExecutionSwapper" (text swapper ∷ [])
