-- ===== src/Builds/Assets.antt =====
-- buildERC20WithoutStrategy.ts, buildGlpStrategy.ts and buildSdaiStrategy.ts of
-- tasks/deployBuilds.
use tapioca_bar.Prelude.{String, List, [], ◌∷◌}
use tapioca_bar.Config.Names
use tapioca_bar.Sdk.{Arg, text, Build, build}

unfoldable pub build_erc20_without_strategy : String → String → String → Build
build_erc20_without_strategy name yield_box token =
    build "ERC20WithoutStrategy" name (text yield_box ∷ text token ∷ [])

unfoldable pub build_glp_strategy : List Arg → Build
build_glp_strategy args = build "GlpStrategy" Names.yb_sglp_asset_with_strategy args

unfoldable pub build_sdai_strategy : List Arg → Build
build_sdai_strategy args = build "SDaiStrategy" Names.yb_sdai_asset_with_strategy args
