-- ===== src/Builds.antt =====
-- tasks/deployBuilds: each function describes one contract for the deployer. `deprecated/` is not
-- modelled.
pub mod Usdo
pub mod Markets
pub mod Assets
