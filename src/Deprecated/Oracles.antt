-- ===== src/Deprecated/Oracles.antt =====
-- The oracles of deployBigBangMarket.ts.
use tapioca_bar.Prelude.{String, true, none, some, List, [], ◌∷◌, ok, ℕ, ◌≡◌, refl}
use tapioca_bar.Exec.{Saved, ChainEntry, find_saved}
use tapioca_bar.Deprecated.{
  Tools, MarketArgs, find_oracle, find_starting, build_oracle_mock, join, or_first,
}
use tapioca_bar.Deprecated.BigBangMarket.{
  Oracles, load_oracles, find_asset_oracle, oracle_builds, asset_oracle_builds, save_oracles,
}

-- On a test network, where the collateral's oracle is found under a name that the user gave and the
-- asset's is not, the asset's mock is deployed; if no oracle is saved after that under the default
-- name of the collateral's mock, then what is taken for the oracle of the collateral is the first
-- contract that was deployed, and not the oracle found.
pub load_oracles_lost :
    (t : Tools) (chain : ChainEntry) (args : MarketArgs) (token d mock : Saved) (name : String)
    (one : ℕ) (rest : List Saved)
    → args.oracle_name ≡ some name
    → chain.is_testnet ≡ true
    → find_oracle t chain name ≡ some d
    → find_asset_oracle t chain args ≡ none
    → t.parse_ether "1" ≡ ok one
    → t.execute_builds (build_oracle_mock "AssetOracleMock" (join "OCM-" token.name) one ∷ [])
      ≡ ok (mock ∷ rest)
    → find_starting
        (join "OracleMock-" token.name)
        (t.local_after (build_oracle_mock "AssetOracleMock" (join "OCM-" token.name) one ∷ []))
      ≡ none
    → (o : Oracles) × (load_oracles t chain args token ≡ ok o)
      × (or_first o.oracle o.first_deployed ≡ some mock)
unfolding load_oracles save_oracles oracle_builds asset_oracle_builds
load_oracles_lost t chain args token d mock name one rest named testnet found missing priced ran
      unsaved =
    (
      record {
        oracle = none;
        asset_oracle =
            find_saved "AssetOracleMock" (
              t.local_after
                (build_oracle_mock "AssetOracleMock" (join "OCM-" token.name) one ∷ []));
        first_deployed = some mock;
      },
      simp (named, found, missing, testnet, priced, ran, unsaved),
      refl,
    )
