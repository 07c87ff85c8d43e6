-- ===== src/Sdk/Lookup.antt =====
-- What `address_of` finds among the deployments of a task, by their names.
use tapioca_bar.Prelude.{String, true, false, List, [], ◌∷◌, map, arith, ◌≡◌, refl}
use tapioca_bar.Prelude.{contains, err, type_error, IsOk}
use tapioca_bar.Sdk.Deployments.{Deployment, address_of}

abbrev pub deployed_names : List Deployment → List String
deployed_names = map (λ d. d.name)

pub address_of-absent :
    (name : String) (ds : List Deployment)
    → contains name (deployed_names ds) ≡ false
    → address_of name ds ≡ err type_error
unfolding address_of
address_of-absent name [] h = refl
address_of-absent name (d ∷ ds) h = ground (arith, address_of-absent name ds)

pub address_of-present :
    (name : String) (ds : List Deployment)
    → contains name (deployed_names ds) ≡ true
    → IsOk (address_of name ds)
unfolding address_of
address_of-present name [] h = cc
address_of-present name (d ∷ ds) h = ground (arith, address_of-present name ds)
