-- ===== src/Lib.antt =====
-- Tapioca Bar: the tasks that deploy and set up the contracts, the registry they fill, and the
-- BigBang and Singularity markets that lend.
--
-- Tapioca Bar is a set of contracts (contracts/) and the hardhat tasks that deploy them, set them
-- up and put the first tokens into them (tasks/). A deployment has phases. Phase 1 queues the
-- contracts of a chain in the deployer of tapioca-sdk, which deploys them; a second part then
-- pushes calls to an array that one multicall contract, the owner of everything, executes in
-- order. Phase 2 deploys the Origins market and borrows the first USDO there, and the last phase
-- lends it to the markets. A BigBang market lends USDO, which it mints, against collateral in
-- the YieldBox; a Singularity market lends what lenders add to it, who hold fractions of its
-- assets.
-- Penrose owns the markets, and the tasks of tasks/exec configure them through it.
--
-- Which file models what:
--   Prelude      results, lists, texts and integers that the other files share
--   Config       tasks/deploy/DEPLOY_CONFIG.ts; Config/Names its DEPLOYMENT_NAMES
--   Sdk          what the tasks take from tapioca-sdk, hardhat and ethers, as parameters
--   Builds       tasks/deployBuilds: one function per build
--   PostLbp1     tasks/deploy/1-1-deployPostLbp.ts: Loading has deploy__LoadDeployments_Generic,
--                _Eth and _Arb, Deploy has tapiocaDeployTask, part by part
--   PostLbp1/Setup  tasks/deploy/1-1-setupPostLbp.ts (setupPostLbp1) and its steps in
--                tasks/deploy/postDepSetup, in child modules by what they set up
--   Toft         wrapToft of tasks/deploy/2-deployFinal.ts, and
--                tasks/deploy/postDepSetup/utils_seedSglAssetInYb.ts; children Execution, Lends and
--                OnSingularity run the calls that lend on the model of Singularity.sol
--   PostLbp2     tasks/deploy/1-2-deployPostLbp.ts and postDepSetup/1-2-setupOriginsMintUSDO.ts;
--                children Execution, Borrows and OnOrigins run the calls of the mint on the model of
--                Origins.sol, and MintExamples runs one
--   Final        the rest of tasks/deploy/2-deployFinal.ts, and postDepSetup/utils_sendOftToken.ts
--   Penrose      the registration functions of contracts/Penrose.sol and unregisterContract; its
--                child Multicall executes the calls of the registration steps on that state, and
--                Registry and Authorised have the registry over any sequence of calls, Debt has
--                viewTotalDebt and mintOpenInterestDebt over the BigBang markets, and Minting what
--                is minted; DebtExamples runs it
--   Market       contracts/markets/Market.sol: the storage (Market), what a market calls outside
--                itself (Outside), the views from _computeClosingFactor to _getRatio (Views),
--                _allowedLend and _allowedBorrow (Allowances), setMarketConfig (Configuration).
--                Messages has the calls of the tasks to a token, the YieldBox and Pearlmit.
--                Seizure has the part of liquidations that BBLiquidation.sol and SGLLiquidation.sol
--                share, word for word; SeizureBounds, Books and Covering are proofs about a market
--                of either kind: what a seizure takes, the books of users and totals, solvency
--   BigBang      contracts/markets/bigBang: BBStorage.sol, BBCommon.sol and BBDebtRateHelper.sol;
--                child Lending has BBLendingCommon.sol, Operations has BBBorrow.sol and
--                BBCollateral.sol, Liquidation has BBLiquidation.sol, Initialise and Owner have
--                BigBang.sol. The other children are proofs: the books of users and totals (Frame,
--                Balance, Books, Reach), solvency, loans and their repayment, accrual, fees,
--                liquidations, pauses
--   Singularity  contracts/markets/singularity: SGLStorage.sol, SGLCommon.sol and
--                SGLInterestHelper.sol; child Lending has SGLLendingCommon.sol, Operations has
--                SGLBorrow.sol and SGLCollateral.sol, Assets has addAsset and removeAsset of
--                Singularity.sol and the token of contracts/markets/MarketERC20.sol, Owner the
--                owner's functions of Singularity.sol, Liquidation has SGLLiquidation.sol, and
--                Initialise has SGLInit.sol and init. Funds, Steps, Books, Reach, Interest, Shares,
--                Solvency and Limits are proofs; Scenario and Examples run a market
--   Origins      contracts/markets/origins/Origins.sol: its storage, constructor and owner; child
--                Operations has what participants call. Steps, Reach and Loans are proofs about the
--                books, the USDO that the market issues, and loans; Examples runs a market
--   Exec         tasks/exec, three files of tasks/setups and the lookups of tasks/utils.ts; its
--                child BorrowCap runs the call data of setBorrowCap.ts on the model of Market.sol
--   Deprecated   tasks/deploy/deprecated: deploySGLMarket.ts, deployBigBangMarket.ts and
--                deployOriginsMarket.ts, and in Strategies the tasks 02-deployEmptyStrats.ts and
--                04-deployOracleMock.ts; Interfaces has what their calls meet in the contracts of
--                today, Oracles how the oracles of a BigBang market are found
--   TestData     a runtime and a chain for the modules named Examples
--
-- How code and model correspond. An async function is a function into `Result`: a thrown error is
-- `err`, and a property read from undefined is the error `type_error`. The arguments hre, tag and
-- so on are records (`Hre`, `VmPass`, `PostDeployParams`). A step that pushes to the array `calls`
-- returns the calls that it pushes. `World` holds what a step reads and what tapioca-sdk changes:
-- the saved deployments and the view functions of the contracts. A call keeps its target, the name
-- of its function and its arguments in place of their encoding. Console output and the types of
-- contract factories are left out. Texts are compared as the source compares them, addresses in
-- lower case where it writes toLowerCase. BigNumber amounts are natural numbers, and the integer
-- of the one subtraction that can go below 0 is a sign and a number.
--
-- A function of a contract takes the message (`Outside.Call`), its arguments and the storage, and
-- yields the next storage or the error of a revert. Every uint256 operation is checked, as in
-- Solidity 0.8 (Prelude/Words), and so are the casts to 128 and 64 bits; int256 keeps its
-- conversion by bits. A mapping whose sum matters is a list of entries (Prelude/Ledger), the
-- others are functions. The YieldBox, Pearlmit, the oracles, USDO, Penrose, the other markets and
-- the liquidator's receiver are the record `Outside` over a state that each call passes on, and
-- their approvals the record `Approvals`; a call
-- back into the market within a transaction is not modelled. What BoringSolidity's rebase library
-- documents is the record `IsRebaseLibrary`, and what a YieldBox documents of its conversions is
-- `IsYieldBox` and, for deposits, `IsDepositing`. The interest helper of a Singularity market is
-- SGLInterestHelper.sol and the debt rate helper of a BigBang market BBDebtRateHelper.sol, and a
-- call of either where none is set reverts. The functions _addCollateral, _removeCollateral,
-- _borrow, _repay and _accrue are put_collateral, take_collateral, lend, settle and accrue.
--
-- There is no fuel: every loop is over a list. In the tasks numbers have no width, since BigNumber
-- has none; the uint256 range that ethers enforces is modelled at its lower end only.
--
-- Not modelled: execute, setAssetOracle, setLeverageExecutor and rescueEth of a
-- BigBang market; execute, rescueEth, permits and _computeAssetAmountToSolvency, which nothing
-- calls, of a Singularity market; rescueEth of Origins; leverage; USDO and its modules
-- (contracts/usdo); the rest of Penrose.sol, so clones, market calls, the fees of markets and
-- pausing; views, command-line definitions and testTasks; the other deprecated tasks; tests.
-- tapioca-sdk, the contracts of the sister projects and LayerZero are not in the repository, and
-- are parameters.
pub mod Prelude
pub mod Config
pub mod Sdk
pub mod Builds
pub mod PostLbp1
pub mod Toft
pub mod PostLbp2
pub mod Final
pub mod Penrose
pub mod Market
pub mod BigBang
pub mod Singularity
pub mod Origins
pub mod Exec
pub mod Deprecated
pub mod TestData
