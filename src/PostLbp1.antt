-- ===== src/PostLbp1.antt =====
-- tasks/deploy/1-1-deployPostLbp.ts and tasks/deploy/1-1-setupPostLbp.ts: the first phase of the
-- deployment after the LBP.
pub mod Params
pub mod Loading
pub mod Deploy
pub mod Setup
