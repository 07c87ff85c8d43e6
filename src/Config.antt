-- ===== src/Config.antt =====
-- tasks/deploy/DEPLOY_CONFIG.ts: the names and the market parameters of a deployment.
-- `EChainId` is the `EChainID` of the SDK; `hardhat` is the key '31337', `other` any chain that
-- has no entry.
-- `ethers.utils.parseEther` of a literal is written as its number of wei.
pub mod Names
use tapioca_bar.Prelude.{ℕ, ◌*◌, ◌^◌, String, Option, none, some}

pub data EChainId : Type 0 where
  arbitrum arbitrum_sepolia mainnet sepolia optimism_sepolia fuji_avalanche hardhat other : EChainId

pub record BbMarketConfig : Type 0 where
  pub debt_rate_against_eth : ℕ
  pub debt_rate_min : ℕ
  pub debt_rate_max : ℕ
  pub collateralization_rate : ℕ
  pub liquidation_collateralization_rate : ℕ
  pub total_borrow_cap : ℕ

pub record SglMarketConfig : Type 0 where
  pub collateralization_rate : ℕ
  pub liquidation_collateralization_rate : ℕ
  pub minimum_interest_per_second : ℕ
  pub maximum_interest_per_second : ℕ

pub record OriginsMarketConfig : Type 0 where
  pub collateralization_rate : ℕ

pub record GlpStrat : Type 0 where
  pub gmx_reward_router : Option String
  pub glp_reward_router : Option String
  pub glp_manager : Option String

-- An entry of `POST_LBP`; `none` is a missing field.
pub record PostLbp : Type 0 where
  pub s_dai : Option String
  pub s_glp : Option String
  pub usdc_mock : Option String
  pub glp_strat : Option GlpStrat
  pub t_eth_origins_market_config : Option OriginsMarketConfig
  pub mt_eth_market_config : Option BbMarketConfig
  pub t_reth_market_config : Option BbMarketConfig
  pub tw_st_eth_market_config : Option BbMarketConfig
  pub t_sdai_market_config : Option SglMarketConfig
  pub t_sglp_market_config : Option SglMarketConfig

abbrev ether : ℕ
ether = 10 ^ 18

abbrev no_config : PostLbp
no_config = record {
  s_dai = none;
  s_glp = none;
  usdc_mock = none;
  glp_strat = none;
  t_eth_origins_market_config = none;
  mt_eth_market_config = none;
  t_reth_market_config = none;
  tw_st_eth_market_config = none;
  t_sdai_market_config = none;
  t_sglp_market_config = none;
}

-- The parameters of a staked ether market, which differ in their borrow cap.
abbrev staked_eth_config : ℕ → BbMarketConfig
staked_eth_config cap = record {
  debt_rate_against_eth = 5 * 10 ^ 17;
  debt_rate_min = 10 ^ 17;
  debt_rate_max = 15 * 10 ^ 16;
  collateralization_rate = 82_000;
  liquidation_collateralization_rate = 85_000;
  total_borrow_cap = cap;
}

abbrev pub market_config_arb : PostLbp
market_config_arb = record no_config {
  t_eth_origins_market_config = some (record { collateralization_rate = 99_000 });
  mt_eth_market_config = some (record {
    debt_rate_against_eth = 0;
    debt_rate_min = 0;
    debt_rate_max = 0;
    collateralization_rate = 82_000;
    liquidation_collateralization_rate = 85_000;
    total_borrow_cap = 31_000_000 * ether;
  });
  t_reth_market_config = some (staked_eth_config (4_200_000 * ether));
  tw_st_eth_market_config = some (staked_eth_config (4_100_000 * ether));
  t_sglp_market_config = some (record {
    collateralization_rate = 80_000;
    liquidation_collateralization_rate = 83_000;
    minimum_interest_per_second = 951_293_760;
    maximum_interest_per_second = 15_854_896_000;
  });
}

abbrev pub market_config_mainnet : PostLbp
market_config_mainnet = record no_config {
  t_sdai_market_config = some (record {
    collateralization_rate = 98_000;
    liquidation_collateralization_rate = 99_000;
    minimum_interest_per_second = 0;
    maximum_interest_per_second = 0;
  });
}

post_lbp_arbitrum : PostLbp
post_lbp_arbitrum = record market_config_arb {
  s_glp = some "0x5402B5F40310bDED796c7D0F3FF6683f5C0cFfdf";
  glp_strat = some (record {
    gmx_reward_router = some "0x159854e14A862Df9E39E1D128b8e5F70B4A3cE9B";
    glp_reward_router = some "0xB95DB5B167D75e6d04227CfFFA61069348d271F5";
    glp_manager = some "0x3963FfC9dff443c2A94f21b129D429891E32ec18";
  });
}

-- `DEPLOY_CONFIG.POST_LBP`
unfoldable pub post_lbp : EChainId → Option PostLbp
unfolding post_lbp_arbitrum
post_lbp arbitrum = some post_lbp_arbitrum
post_lbp arbitrum_sepolia = some (record market_config_arb {
  s_glp = some "0x1B460E311753fDB46451EF3d11d7B9eE5542b369";
  usdc_mock = some "0xB97f3fda040662B44055BdcBEc2BaB7CAA70839c";
  glp_strat =
      some
        (record { gmx_reward_router = some ""; glp_reward_router = some ""; glp_manager = none });
})
post_lbp mainnet =
    some
      (record market_config_mainnet { s_dai = some "0x83f20f44975d03b1b09e64809b757c47f942beea" })
post_lbp sepolia =
    some
      (record market_config_mainnet { s_dai = some "0xC6EA2075314a58cf74DE8430b24714E600A21Dd8" })
post_lbp optimism_sepolia =
    some
      (record market_config_mainnet { s_dai = some "0x37359B8bfbFAE28E513EE31a2A94A9Ec60668d90" })
post_lbp fuji_avalanche =
    some
      (record market_config_mainnet { s_dai = some "0xed18DBCb2810E4178c23668794198C81B0668b23" })
post_lbp hardhat = some post_lbp_arbitrum
post_lbp other = none

-- `DEPLOY_CONFIG.MISC[chain].WETH`; `none` where `MISC` has no entry.
unfoldable pub misc_weth : EChainId → Option String
misc_weth arbitrum = some "0x82aF49447D8a07e3bd95BD0d56f35241523fBab1"
misc_weth mainnet = some "0xC02aaA39b223FE8D0A0e5C4F27eAD9083C756Cc2"
misc_weth arbitrum_sepolia = some "0x2EAe4fbc552fE35C1D3Df2B546032409bb0E431E"
misc_weth sepolia = some "0xD8a79b479b0c47675E3882A1DAA494b6775CE227"
misc_weth optimism_sepolia = some "0x4fB538Ed1a085200bD08F66083B72c0bfEb29112"
misc_weth fuji_avalanche = some "0x4404EF158716dfad1c2BEffE9c7c8Fa261684544"
misc_weth hardhat = none
misc_weth other = none
