-- ===== src/PostLbp1/Setup/InitMarkets/Outcomes.antt =====
-- What the initialisation of one market comes to.
use tapioca_bar.Prelude.{
  ℕ, String, true, false, List, [], ◌∷◌, arith, ◌≡◌, ◌⊎◌, same_address, ok, ◌==◌,
}
use tapioca_bar.Config.Names
use tapioca_bar.Sdk.{
  World, Arg, Call, call, bytes, text, flag, array, items, Contract, address_of,
  load_local_contract,
}
use tapioca_bar.PostLbp1.Params.{PostDeployParams}
use tapioca_bar.PostLbp1.Setup.InitMarkets.BigBang.{
  BbMarketParams, bb_data, set_market_config, init_bb_market,
}

-- If the market and its strategy are found and the initialisation of a BigBang market ends well,
-- the market was initialised with this Penrose before and nothing is pushed, or it was not,
-- YieldBox knows the collateral by an id that is not 0, and two calls are pushed: `init` with that
-- id, and then, through Penrose, the debt rate helper and the borrow cap.
pub init_bb_market_calls :
    (p : PostDeployParams) (w : World) (m : BbMarketParams) (market strategy : String)
    {calls : List Call}
    → address_of m.market_name p.deployed ≡ ok market
    → address_of m.strategy_name p.deployed ≡ ok strategy
    → init_bb_market p w m ≡ ok calls
    → ((calls ≡ []) × (same_address (w.chain.market_penrose market) m.penrose ≡ true))
      ⊎ ((id : ℕ) × (modules : Arg) × (helper : Contract) × (same_address
              (w.chain.market_penrose market)
              m.penrose
            ≡ false)
          × (w.chain.ids m.yield_box 1 m.collateral strategy 0 ≡ ok id)
          × ((id == 0) ≡ false)
          × (load_local_contract w p.hre.e_chain_id Names.bb_debt_rate_helper p.tag ≡ ok helper)
          × (calls
              ≡ call market "init" (bb_data m modules id ∷ [])
                ∷ call m.penrose "executeMarketFn" (
                    array (items (text market ∷ text market ∷ []))
                    ∷ array (
                        items (
                          bytes
                            (record { fn = "setDebtRateHelper"; args = text helper.address ∷ [] })
                          ∷ bytes (set_market_config m.total_borrow_cap)
                          ∷ []))
                    ∷ flag true
                    ∷ [])
                ∷ []))
unfolding init_bb_market
init_bb_market_calls p w m market strategy hm hs h = grind arith
