-- ===== src/Sdk.antt =====
-- The values that the tasks exchange with tapioca-sdk, hardhat and ethers, and what they read.
-- None of that code is in the repository: saved deployments, contracts on chain, and the names
-- that sister projects export are arguments (`Hre`, `World`) of the definitions that use them.
mod Calls
mod Deployments
mod Environment
mod Lookup
mod Tasks
unfoldable pub use Calls.*
unfoldable pub use Deployments.*
unfoldable pub use Environment.*
pub use Lookup.*
pub use Tasks.{SdkTasks}
