-- ===== src/PostLbp2/PostDeploy.antt =====
-- When the multicall of phase 2 is made, and when it is refused.
use tapioca_bar.Prelude.{
  ℕ, ◌+◌, ◌-◌, ◌*◌, ◌/◌, ◌≤◌, ◌<◌, true, false, some, List, arith, ◌≡◌, ◌≢◌, ok, IsOk, ◌==◌, pos,
  negsuc,
}
use tapioca_bar.Sdk.{
  World, Call, Contract, ChainInfo, tapioca_periph, tapioca_z, load_global_contract,
}
use tapioca_bar.Toft.{wrap_toft}
use tapioca_bar.PostLbp1.Params.{VmPass}
use tapioca_bar.PostLbp2.{Args2, check_chains, mint_calls, post_deploy_calls_2}
use tapioca_bar.PostLbp2.Contracts.{Contracts, load_contracts, testnet_mint_mock_teth}
use tapioca_bar.PostLbp2.MintUsdo.{borrow_amount, mint_origin_usdo}
use tapioca_bar.PostLbp2.BorrowAmount.{full_amount, borrow_amount_bounds}

module _ (p : VmPass) (a : Args2) (w : World) (c : Contracts) (pearlmit t_eth : Contract)
    (loaded : load_contracts p.hre p.tag w ≡ ok c)
    (loaded_pearlmit : load_global_contract p.hre tapioca_periph p.hre.e_chain_id
        p.hre.names.pearlmit p.tag
      ≡ ok pearlmit) where
  mint_origin_usdo-IsOk :
      (collateral borrow : ℕ)
      → IsOk (mint_origin_usdo p.hre p.tag p.tapioca_multicall_addr w collateral (pos borrow))
  unfolding mint_origin_usdo
  mint_origin_usdo-IsOk collateral borrow = ground (arith, loaded)

  wrap_toft-IsOk :
      (amount : ℕ)
      → (w.chain.balance_of (w.chain.erc20 c.t_eth) p.tapioca_multicall_addr == 0) ≡ false
      → IsOk (wrap_toft p.hre p.tag p.tapioca_multicall_addr w c.t_eth amount false)
  unfolding wrap_toft
  wrap_toft-IsOk amount balance = ground (arith, loaded_pearlmit)

  module _ (extra for_usdc : ℕ)
      (parsed_extra : p.hre.parse_ether a.eth_amount_for_extra_usdo ≡ ok extra)
      (parsed_usdc : p.hre.parse_ether a.eth_amount_for_usdc_usdo ≡ ok for_usdc)
      (some_usdc : (for_usdc == 0) ≡ false)
      (balance : (w.chain.balance_of (w.chain.erc20 c.t_eth) p.tapioca_multicall_addr == 0)
        ≡ false) where
    mint_calls-IsOk : 0 < w.chain.exchange_rate c.origins → a.delta ≤ 100 → IsOk (mint_calls p a w)
    unfolding mint_calls
    mint_calls-IsOk rate share =
        let (b, b_eq, b_worth, b_low, b_high) =
          borrow_amount_bounds (w.chain.exchange_rate c.origins) extra a.delta rate share in
        let (u, u_eq, u_worth, u_low, u_high) =
          borrow_amount_bounds (w.chain.exchange_rate c.origins) for_usdc a.delta rate share in
        ground (
          arith,
          loaded,
          parsed_extra,
          parsed_usdc,
          some_usdc,
          b_eq,
          u_eq,
          wrap_toft-IsOk (extra + for_usdc) balance,
          mint_origin_usdo-IsOk extra b,
          mint_origin_usdo-IsOk for_usdc u,
        )

    -- The calls of phase 2 are made on a host chain, for a known destination, with a delta of at
    -- most 100 per cent, some ether for USDC and a rate that is not 0, if the contracts and
    -- Pearlmit are found and there are tokens to wrap.
    pub post_deploy_calls_2-IsOk :
        (info : ChainInfo)
        → p.is_host_chain ≡ true
        → p.hre.chain_by_name a.transfer_to ≡ some info
        → load_global_contract p.hre tapioca_z p.hre.e_chain_id p.hre.names.t_eth p.tag ≡ ok t_eth
        → 0 < w.chain.exchange_rate c.origins
        → a.delta ≤ 100
        → IsOk (post_deploy_calls_2 p a w)
    unfolding post_deploy_calls_2 check_chains testnet_mint_mock_teth
    post_deploy_calls_2-IsOk info host known found rate share =
        ground (arith, loaded, mint_calls-IsOk rate share)

-- An amount goes below 0 where more than the whole is taken off.
borrow_amount_negative :
    (rate eth delta : ℕ)
    → 0 < rate
    → full_amount rate eth < full_amount rate eth * delta / 100
    → (n : ℕ) × (borrow_amount rate eth delta ≡ ok (negsuc n))
unfolding borrow_amount
borrow_amount_negative rate eth delta positive more =
    (full_amount rate eth * delta / 100 - full_amount rate eth - 1, ground arith)

mint_origin_usdo_negative :
    (p : VmPass) (w : World) (collateral n : ℕ) (calls : List Call)
    → mint_origin_usdo p.hre p.tag p.tapioca_multicall_addr w collateral (negsuc n) ≢ ok calls
unfolding mint_origin_usdo
mint_origin_usdo_negative p w collateral n calls h = ground arith

-- Where the contracts are found, the rate is not 0 and `delta` takes more off the USDO for USDC
-- than there is, the calls of phase 2 are not made.
post_deploy_calls_2_negative :
    (p : VmPass) (a : Args2) (w : World) (c : Contracts) (for_usdc : ℕ) (calls : List Call)
    → load_contracts p.hre p.tag w ≡ ok c
    → p.hre.parse_ether a.eth_amount_for_usdc_usdo ≡ ok for_usdc
    → 0 < w.chain.exchange_rate c.origins
    → full_amount (w.chain.exchange_rate c.origins) for_usdc
      < full_amount (w.chain.exchange_rate c.origins) for_usdc * a.delta / 100
    → post_deploy_calls_2 p a w ≢ ok calls
unfolding post_deploy_calls_2 mint_calls
post_deploy_calls_2_negative p a w c for_usdc calls loaded parsed rate more h =
    let (n, negative) =
      borrow_amount_negative (w.chain.exchange_rate c.origins) for_usdc a.delta rate more in
    grind (arith, loaded, parsed, negative, mint_origin_usdo_negative p w for_usdc n)
