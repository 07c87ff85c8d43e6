-- ===== src/Deprecated/Interfaces.antt =====
-- The calls of the tasks that deployed markets meet the contracts as they are today.
use tapioca_bar.Prelude.{
  String, false, some, List, [], ◌∷◌, ok, err, rejected, ◌≡◌, refl, length, ◌==◌, ℕ, bind-ok,
}
use tapioca_bar.Sdk.{Arg}
use tapioca_bar.Exec.{Runtime, encode, or_thrown}
use tapioca_bar.Deprecated.{Tools, MarketArgs, Deployed, deploy_contract, transact}
use tapioca_bar.Deprecated.SglMarket.{SglContracts, prepare_sgl, deploy_sgl_market, open_sgl}
use tapioca_bar.Deprecated.OriginsMarket.{prepare_origins, origins_args, deploy_origins_market}

-- ethers refuses any other number of arguments than the interface has.
encode-miscounted :
    (rt : Runtime) (contract fn : String) (args : List Arg) (n : ℕ)
    → rt.inputs contract fn ≡ some n
    → (length args == n) ≡ false
    → encode rt contract fn args ≡ err (rejected "types/values length mismatch")
unfolding encode
encode-miscounted rt contract fn args n inputs other = cc

transact-miscounted :
    (t : Tools) (contract address fn : String) (args : List Arg) (n : ℕ)
    → t.runtime.inputs contract fn ≡ some n
    → (length args == n) ≡ false
    → transact t contract address fn args ≡ err (rejected "types/values length mismatch")
unfolding transact
transact-miscounted t contract address fn args n inputs other =
    rw (encode-miscounted t.runtime contract fn args n inputs other)

deploy_contract-miscounted :
    (t : Tools) (contract : String) (args : List Arg) (n : ℕ)
    → t.runtime.inputs contract "constructor" ≡ some n
    → (length args == n) ≡ false
    → deploy_contract t contract args ≡ err (rejected "types/values length mismatch")
unfolding deploy_contract
deploy_contract-miscounted t contract args n inputs other =
    rw (encode-miscounted t.runtime contract "constructor" args n inputs other)

-- `init` of Singularity.sol takes the address of SGLInit.sol and the data.
open_sgl-miscounted :
    (t : Tools) (c : SglContracts) (sgl : String) (init_data : Arg)
    → t.runtime.inputs "Singularity" "init" ≡ some 2
    → open_sgl t c sgl init_data ≡ err (rejected "types/values length mismatch")
unfolding open_sgl
open_sgl-miscounted t c sgl init_data two =
    rw (transact-miscounted t "Singularity" sgl "init" (init_data ∷ []) 2 two refl)

-- A call of `init` with the data alone is refused.
deploy_sgl_market-never :
    (t : Tools) (args : MarketArgs) (d : Deployed)
    → t.runtime.inputs "Singularity" "init" ≡ some 2
    → ¬ (deploy_sgl_market t args ≡ ok d)
unfolding deploy_sgl_market
deploy_sgl_market-never t args d two h =
    let (p, prepared, rest) = bind-ok (prepare_sgl t args) _ d h in
    let refused = open_sgl-miscounted t p.0 p.1 p.2 two in absurd (cc)

deploy_origins_market-never :
    (t : Tools) (args : MarketArgs) (d : Deployed)
    → t.runtime.inputs "Origins" "constructor" ≡ some 10
    → ¬ (deploy_origins_market t args ≡ ok d)
unfolding deploy_origins_market
deploy_origins_market-never t args d ten h =
    let (chain, known, e1) = bind-ok (or_thrown "Chain not found" t.runtime.chain_info) _ d h in
    let (p, prepared, e2) = bind-ok (prepare_origins t chain args) _ d e1 in
    let (a, deployed, e3) =
      bind-ok (deploy_contract t "Origins" (origins_args t p.0 p.1 p.2 p.3 p.4 p.5)) _ d e2 in
    let refused =
      deploy_contract-miscounted t "Origins" (origins_args t p.0 p.1 p.2 p.3 p.4 p.5) 10 ten refl in
    absurd (cc)

-- Where `init` of the contract takes two arguments and the constructor of Origins ten, as their
-- sources say, neither of the tasks that deployed these markets comes to its end, whatever the user
-- answers and whatever is saved.
pub deprecated_tasks_never :
    (t : Tools) (args : MarketArgs) (d : Deployed)
    → t.runtime.inputs "Singularity" "init" ≡ some 2
    → t.runtime.inputs "Origins" "constructor" ≡ some 10
    → ¬ (deploy_sgl_market t args ≡ ok d) × ¬ (deploy_origins_market t args ≡ ok d)
deprecated_tasks_never t args d two ten =
    (deploy_sgl_market-never t args d two, deploy_origins_market-never t args d ten)
