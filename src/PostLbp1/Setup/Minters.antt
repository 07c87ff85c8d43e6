-- ===== src/PostLbp1/Setup/Minters.antt =====
-- setupUsdoFlashloanHelperInUsdo.ts and setupRegisterBBAsMinterBurnerInUsdo.ts of
-- tasks/deploy/postDepSetup: who may mint and burn USDO.
use tapioca_bar.Prelude.{String, true, List, [], ◌∷◌, not, same_address, Result, ok, ◌>>=◌}
use tapioca_bar.Config.Names
use tapioca_bar.Sdk.{World, Call, call, text, flag, address_of, when, ◌followed_by◌}
use tapioca_bar.PostLbp1.Params.{PostDeployParams}

abbrev set_minter : String → String → Call
set_minter usdo account = call usdo "setMinterStatus" (text account ∷ flag true ∷ [])

abbrev set_burner : String → String → Call
set_burner usdo account = call usdo "setBurnerStatus" (text account ∷ flag true ∷ [])

-- `allowedMinter` and `allowedBurner` are asked for the helper's address in lower case, which is
-- the same account.
unfoldable pub usdo_flashloan_helper_in_usdo : PostDeployParams → World → Result (List Call)
usdo_flashloan_helper_in_usdo p w = do
  helper ← address_of Names.usdo_flashloan_helper p.deployed
  usdo ← address_of Names.usdo p.deployed
  let lz_chain_id = p.hre.chain_info.lz_chain_id
  when (not (same_address (w.chain.flash_loan_helper usdo) helper))
        (ok (call usdo "setFlashloanHelper" (text helper ∷ []) ∷ []))
      followed_by when (not (w.chain.allowed_minter usdo lz_chain_id helper))
          (ok (set_minter usdo helper ∷ []))
      followed_by when (not (w.chain.allowed_burner usdo lz_chain_id helper))
          (ok (set_burner usdo helper ∷ []))

-- A market is allowed to burn together with being allowed to mint.
unfoldable pub register_minter_burner : PostDeployParams → World → String → Result (List Call)
register_minter_burner p w market = do
  usdo ← address_of Names.usdo p.deployed
  when (not (w.chain.allowed_minter usdo p.hre.chain_info.lz_chain_id market))
      (ok (set_minter usdo market ∷ set_burner usdo market ∷ []))

unfoldable pub register_bb_as_minter_burner_in_usdo : PostDeployParams → World → Result (List Call)
register_bb_as_minter_burner_in_usdo p w = when p.is_host_chain do
  bb_mt_eth ← address_of Names.bb_mt_eth_market p.deployed
  bb_t_reth ← address_of Names.bb_t_reth_market p.deployed
  bb_t_wst_eth ← address_of Names.bb_t_wst_eth_market p.deployed
  register_minter_burner p w bb_mt_eth
      followed_by register_minter_burner p w bb_t_reth
      followed_by register_minter_burner p w bb_t_wst_eth
