-- ===== src/Sdk/Deployments.antt =====
-- Saved deployments, the entries of `VM.list()`, and the contracts queued by `VM.add`.
use tapioca_bar.Prelude.{ℕ, String, Option, none, some, List, [], ◌∷◌, ◌===◌, if◌then◌else◌}
use tapioca_bar.Prelude.{Result, ok, present, ◌>>=◌}
use tapioca_bar.Sdk.Calls.{Arg}

-- `meta` of a saved deployment; a field may be missing.
pub record Meta : Type 0 where
  pub yb_asset_id : Option String
  pub token : Option String

-- `TContract`, a saved deployment.
pub record Contract : Type 0 where
  pub name : String
  pub address : String
  pub meta : Option Meta

-- `TDeploymentVMContract`, an entry of `VM.list()`.
pub record Deployment : Type 0 where
  pub name : String
  pub address : String

-- `deployed.find((e) => e.name === name)`
unfoldable pub find : String → List Deployment → Option Deployment
find name [] = none
find name (d ∷ ds) = if d.name === name then some d else find name ds

-- `deployed.find((e) => e.name === name)!.address`
unfoldable pub address_of : String → List Deployment → Result String
unfolding find
address_of name deployed = do d ← present (find name deployed); ok d.address

-- `IDependentOn`: the argument that takes the address of a contract queued before.
pub record DependentOn : Type 0 where
  pub arg_position : ℕ
  pub key_name : Option String
  pub deployment_name : String

-- `IDeployerVMAdd`: a contract to deploy. A missing `dependsOn` is the empty list.
pub record Build : Type 0 where
  pub contract : String
  pub deployment_name : String
  pub args : List Arg
  pub depends_on : List DependentOn

-- A build that depends on no other.
abbrev pub build : String → String → List Arg → Build
build contract name args = record {
  contract = contract;
  deployment_name = name;
  args = args;
  depends_on = [];
}
