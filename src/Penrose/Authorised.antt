-- ===== src/Penrose/Authorised.antt =====
-- The markets that the registration steps register are those that `executeMarketFn` accepts, which
-- the initialisation of a market calls.
use tapioca_bar.Prelude.{
  String, true, false, List, [], ◌∷◌, ◌++◌, ◌===◌, arith, ◌≡◌, ok, Result-cases, inl, inr, contains,
  distinct,
}
use tapioca_bar.Sdk.{World, Arg, Call}
use tapioca_bar.PostLbp1.Params.{PostDeployParams}
use tapioca_bar.PostLbp1.Setup.Penrose.{
  register_mc_in_penrose, register_bb_and_sgl_markets_in_penrose,
}
use tapioca_bar.Penrose.{
  Penrose, register_singularity_master_contract, register_big_bang_master_contract, add_singularity,
  add_big_bang,
}
use tapioca_bar.Penrose.Multicall.{dispatch, run, Answers, markets_of}
use tapioca_bar.Penrose.Registration.{HostAddresses, host_entries, run-registration}
use tapioca_bar.Penrose.Registry.{IsConsistent, is_authorised}

dispatch-IsConsistent :
    (sender fn : String) (args : List Arg) (s t : Penrose)
    → IsConsistent s
    → dispatch sender fn args s ≡ ok t
    → IsConsistent t
unfolding dispatch register_singularity_master_contract register_big_bang_master_contract
    add_singularity add_big_bang
dispatch-IsConsistent sender fn args s t v h = record {
  authorised = λ m r. grind (arith, v.authorised m);
}

run-IsConsistent :
    (sender penrose : String) (calls : List Call) (s t : Penrose)
    → IsConsistent s
    → run sender penrose calls s ≡ ok t
    → IsConsistent t
unfolding run
run-IsConsistent sender penrose [] s t v h = record {
  authorised = λ m r. grind (arith, v.authorised m);
}
run-IsConsistent sender penrose (c ∷ cs) s t v h =
    elim (Result-cases (dispatch sender c.call_data.fn c.call_data.args s)) [
      | inl (u, first) ↦
          run-IsConsistent sender penrose cs u t
            (dispatch-IsConsistent sender c.call_data.fn c.call_data.args s u v first)
            (ground (arith))
      | inr (failure, thrown) ↦ absurd (ground arith)
    ]

-- Under the conditions of `run-registration`, on a registry where every registered market has a
-- registered master contract, the registration steps leave a registry that lets `executeMarketFn`
-- reach each of the six markets.
pub registered_markets_authorised :
    (p : PostDeployParams) (w : World) (a : HostAddresses p.deployed) (sender : String)
    (s : Penrose)
    → p.is_host_chain ≡ true
    → p.is_side_chain ≡ false
    → (sender === s.owner) ≡ true
    → Answers a.penrose w.chain s
    → distinct (markets_of (host_entries a)) ≡ true
    → IsConsistent s
    → (mcs : List Call) × (markets : List Call) × (t : Penrose) × (register_mc_in_penrose p w
        ≡ ok mcs)
      × (register_bb_and_sgl_markets_in_penrose p w ≡ ok markets)
      × (run sender a.penrose (mcs ++ markets) s ≡ ok t)
      × ((m : String) → contains m (markets_of (host_entries a)) ≡ true → is_authorised t m ≡ true)
registered_markets_authorised p w a sender s host no_side own answers different v =
    let (mcs, markets, t, mcs_eq, markets_eq, done, r) =
      run-registration p w a host sender s own answers different no_side in
    let v' = run-IsConsistent sender a.penrose (mcs ++ markets) s t v done in
    (
      mcs,
      markets,
      t,
      mcs_eq,
      markets_eq,
      done,
      λ m member. v'.authorised m (ground (arith, r.market m)),
    )
