-- ===== src/Penrose/Registration.antt =====
-- The registration steps of phase 1 on the host chain, carried out on the registry of Penrose.
use tapioca_bar.Prelude.{
  String, true, false, List, [], ◌∷◌, ◌++◌, ◌===◌, arith, ◌≡◌, refl, if◌then◌else◌, contains,
  distinct, ok, ◌∙◌, ap, Result-cases, inl, inr,
}
use package.text.Mathlib.TextPositions.{eq_refl}
use tapioca_bar.Config.Names
use tapioca_bar.Sdk.{World, Call, Deployment, address_of, followed_by_nil}
use tapioca_bar.Penrose.{
  Penrose, register_singularity_master_contract, register_big_bang_master_contract,
}
use tapioca_bar.Penrose.MasterContracts.{
  after_sgl_mc, after_bb_mc, after_mcs, after_mcs-keeps, after_mcs-registers,
}
use tapioca_bar.Penrose.Multicall.{
  dispatch, run, run-append, Entry, Answers, register_list, after_list, after_list-Registers,
  run-register_list, markets_of,
}
use tapioca_bar.PostLbp1.Params.{PostDeployParams}
use tapioca_bar.PostLbp1.Setup.Penrose.{
  bb, sgl, register_market, register_mc_in_penrose, register_host_markets,
  register_bb_and_sgl_markets_in_penrose,
}

-- The addresses that the registration steps look up.
pub record HostAddresses (deployed : List Deployment) : Type 0 where
  pub penrose : String
  pub bb_mc : String
  pub sgl_mc : String
  pub bb_mt_eth : String
  pub bb_t_reth : String
  pub bb_t_wst_eth : String
  pub bb_t_usdc_mock : String
  pub sgl_s_glp : String
  pub sgl_usdc_mock : String
  pub penrose_eq : address_of Names.penrose deployed ≡ ok penrose
  pub bb_mc_eq : address_of Names.bb_medium_risk_mc deployed ≡ ok bb_mc
  pub sgl_mc_eq : address_of Names.sgl_medium_risk_mc deployed ≡ ok sgl_mc
  pub bb_mt_eth_eq : address_of Names.bb_mt_eth_market deployed ≡ ok bb_mt_eth
  pub bb_t_reth_eq : address_of Names.bb_t_reth_market deployed ≡ ok bb_t_reth
  pub bb_t_wst_eth_eq : address_of Names.bb_t_wst_eth_market deployed ≡ ok bb_t_wst_eth
  pub bb_t_usdc_mock_eq : address_of Names.bb_t_usdc_mock_market deployed ≡ ok bb_t_usdc_mock
  pub sgl_s_glp_eq : address_of Names.sgl_s_glp_market deployed ≡ ok sgl_s_glp
  pub sgl_usdc_mock_eq : address_of Names.sgl_usdc_mock_market deployed ≡ ok sgl_usdc_mock

-- The markets in the order of their registration.
abbrev pub host_entries : {ds : List Deployment} → HostAddresses ds → List Entry
host_entries a =
    record { kind = bb; mc = a.bb_mc; market = a.bb_mt_eth }
    ∷ record { kind = bb; mc = a.bb_mc; market = a.bb_t_reth }
    ∷ record { kind = bb; mc = a.bb_mc; market = a.bb_t_wst_eth }
    ∷ record { kind = bb; mc = a.bb_mc; market = a.bb_t_usdc_mock }
    ∷ record { kind = sgl; mc = a.sgl_mc; market = a.sgl_s_glp }
    ∷ record { kind = sgl; mc = a.sgl_mc; market = a.sgl_usdc_mock }
    ∷ []

-- The registry `t` has what the host chain needs of `s`: both master contracts and every market of
-- `es`, and it has no other market that `s` has not.
pub record Registered (bb_mc sgl_mc : String) (es : List Entry) (s t : Penrose) : Type 0 where
  pub bb_mc_registered : t.is_big_bang_master_contract_registered bb_mc ≡ true
  pub sgl_mc_registered : t.is_singularity_master_contract_registered sgl_mc ≡ true
  pub market :
      (m : String)
      → t.is_market_registered m
        ≡ (if contains m (markets_of es) then true else s.is_market_registered m)

register_list-IsOk :
    (w : World) (penrose : String) (es : List Entry)
    → (calls : List Call) × (register_list w penrose es ≡ ok calls)
unfolding register_list register_market
register_list-IsOk w penrose [] = ([], refl)
register_list-IsOk w penrose (e ∷ es) =
    let (calls, eq) = register_list-IsOk w penrose es in
    elim (Result-cases (register_list w penrose (e ∷ es))) [
      | inl done ↦ done
      | inr (failure, thrown) ↦ absurd (ground arith)
    ]

register_list-nil :
    (w : World) (penrose : String) (es : List Entry)
    → ((m : String)
        → contains m (markets_of es) ≡ true
        → w.chain.is_market_registered penrose m ≡ true)
    → register_list w penrose es ≡ ok []
unfolding register_list register_market
register_list-nil w penrose [] all = refl
register_list-nil w penrose (e ∷ es) all =
    let rest = register_list-nil w penrose es (λ m member. all m (ground arith)) in
    ground (arith, rest, all e.market (ground (arith, eq_refl e.market)))

module _ (p : PostDeployParams) (w : World) (a : HostAddresses p.deployed) where
  register_host_markets-eq :
      register_host_markets p w a.penrose ≡ register_list w a.penrose (host_entries a)
  unfolding register_host_markets register_list
  register_host_markets-eq = rw (
    a.bb_mc_eq, a.bb_mt_eth_eq, a.bb_t_reth_eq, a.bb_t_wst_eth_eq, a.bb_t_usdc_mock_eq, a.sgl_mc_eq,
    a.sgl_s_glp_eq, a.sgl_usdc_mock_eq, followed_by_nil,
  )

  module _ (host : p.is_host_chain ≡ true) where
    module _ (no_side : p.is_side_chain ≡ false) where
      register_markets-eq :
          register_bb_and_sgl_markets_in_penrose p w ≡ register_list w a.penrose (host_entries a)
      unfolding register_bb_and_sgl_markets_in_penrose
      register_markets-eq =
          simp (a.penrose_eq, host, no_side, followed_by_nil) register_host_markets-eq

    mc_calls : (calls : List Call) × (register_mc_in_penrose p w ≡ ok calls)
    unfolding register_mc_in_penrose
    mc_calls = elim (Result-cases (register_mc_in_penrose p w)) [
      | inl done ↦ done
      | inr (failure, thrown) ↦ absurd (ground (arith, a.penrose_eq, a.sgl_mc_eq, a.bb_mc_eq))
    ]

    module _ (sender : String) (s : Penrose) (own : (sender === s.owner) ≡ true)
        (answers : Answers a.penrose w.chain s) where
      run-register_mc :
          {calls : List Call}
          → register_mc_in_penrose p w ≡ ok calls
          → run sender a.penrose calls s ≡ ok (after_mcs a.bb_mc a.sgl_mc s)
      unfolding register_mc_in_penrose run dispatch register_singularity_master_contract
          register_big_bang_master_contract after_sgl_mc after_bb_mc
      run-register_mc h = ground (
        arith,
        eq_refl a.penrose,
        answers.sgl_mc a.sgl_mc,
        answers.bb_mc a.bb_mc,
        a.penrose_eq,
        a.sgl_mc_eq,
        a.bb_mc_eq,
      )

      Registered-after :
          Registered a.bb_mc a.sgl_mc
            (host_entries a)
            s
            (after_list (host_entries a) (after_mcs a.bb_mc a.sgl_mc s))
      Registered-after =
          let s1 = after_mcs a.bb_mc a.sgl_mc s in
          let r = after_list-Registers (host_entries a) s1 in
          let (bb_reg, sgl_reg) = after_mcs-registers a.bb_mc a.sgl_mc s in
          record {
            bb_mc_registered = r.bb_mc a.bb_mc ∙ bb_reg;
            sgl_mc_registered = r.sgl_mc a.sgl_mc ∙ sgl_reg;
            market = λ m.
                r.market m
                ∙ ap (λ f. if contains m (markets_of (host_entries a)) then true else f m)
                    (after_mcs-keeps a.bb_mc a.sgl_mc s).1;
          }

      module _ (different : distinct (markets_of (host_entries a)) ≡ true) where
        run-register_markets :
            {calls : List Call}
            → register_list w a.penrose (host_entries a) ≡ ok calls
            → run sender a.penrose calls (after_mcs a.bb_mc a.sgl_mc s)
              ≡ ok (after_list (host_entries a) (after_mcs a.bb_mc a.sgl_mc s))
        run-register_markets e =
            let (same_owner, same_markets) = after_mcs-keeps a.bb_mc a.sgl_mc s in
            let (bb_reg, sgl_reg) = after_mcs-registers a.bb_mc a.sgl_mc s in
            run-register_list sender a.penrose w (host_entries a) (after_mcs a.bb_mc a.sgl_mc s)
              (rw same_owner own) (bb_reg, (bb_reg, (bb_reg, (bb_reg, (sgl_reg, (sgl_reg, tt))))))
              (λ m member. rw same_markets (answers.market m)) different e

        -- On a chain that is a host and not a side chain, where the views of Penrose answer from
        -- its state `s`, the caller is its owner and the six markets have six addresses, the two
        -- registration steps end well; their calls, executed in order, do not revert, and leave a
        -- registry with both master contracts and the six markets, and no other new market.
        pub run-registration :
            p.is_side_chain ≡ false
            → (mcs : List Call) × (markets : List Call) × (t : Penrose) × (register_mc_in_penrose p
                  w
                ≡ ok mcs)
              × (register_bb_and_sgl_markets_in_penrose p w ≡ ok markets)
              × (run sender a.penrose (mcs ++ markets) s ≡ ok t)
              × Registered a.bb_mc a.sgl_mc (host_entries a) s t
        run-registration no_side =
            let (mcs, mcs_eq) = mc_calls in
            let (markets, markets_eq) = register_list-IsOk w a.penrose (host_entries a) in
            (
              mcs,
              markets,
              after_list (host_entries a) (after_mcs a.bb_mc a.sgl_mc s),
              mcs_eq,
              register_markets-eq no_side ∙ markets_eq,
              rw (run-append sender a.penrose mcs markets s, run-register_mc mcs_eq)
                  (run-register_markets markets_eq),
              Registered-after,
            )

    -- On a chain that is a host and not a side chain, where the views of Penrose answer from a
    -- registry that has both master contracts and the six markets, the two registration steps
    -- push no call.
    pub registration_again :
        (s t : Penrose)
        → p.is_side_chain ≡ false
        → Answers a.penrose w.chain t
        → Registered a.bb_mc a.sgl_mc (host_entries a) s t
        → (register_mc_in_penrose p w ≡ ok [])
          × (register_bb_and_sgl_markets_in_penrose p w ≡ ok [])
    unfolding register_mc_in_penrose
    registration_again s t no_side answers r = (
      ground (
        arith,
        answers.sgl_mc a.sgl_mc,
        answers.bb_mc a.bb_mc,
        a.penrose_eq,
        a.sgl_mc_eq,
        a.bb_mc_eq,
      ),
      register_markets-eq no_side
          ∙ register_list-nil w a.penrose (host_entries a)
              (λ m member. ground (arith, answers.market m, r.market m)),
    )
