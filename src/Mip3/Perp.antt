-- ===== src/Mip3/Perp.antt =====
-- `PerpDeployBuilder` (src/mip3/params.rs).
use text.Mathlib.Text.{◌==◌ as str_eq}
use metaflux_client_rust.Base.{
  ℕ, String, Bool, ◌||◌, List, [], ◌∷◌, Option, none, some, ltb, ◌==◌, is_empty, Result, ok, err,
  ◌>>=◌, ◌>>◌, reject_if,
}
use metaflux_client_rust.Base.Integers.{ℤ, is_negative, exceeds, under}
use metaflux_client_rust.Mip3.Oracle.{OracleSource, sort, first_duplicate}
use metaflux_client_rust.Mip3.Action.{
  Action, perp_register_asset, perp_set_oracle, perp_set_leverage, perp_set_fees,
  perp_set_min_order_size, perp_set_funding_params, perp_register_market, perp_activate_market,
}

pub record PerpDeployBuilder : Type 0 where
  pub asset_name : String
  pub asset_symbol : String
  pub decimals : ℕ
  pub oracle_sources : List OracleSource
  pub max_leverage : ℕ
  pub taker_fee_bps : ℤ
  pub maker_fee_bps : ℤ
  pub min_order_size : ℕ
  pub deployer_fee_bps : ℕ
  pub dex_name : String

-- The validation errors of both builders.
pub data ValidationError : Type 0 where
  asset_name_empty asset_symbol_empty name_empty oracle_sources_empty : ValidationError
  decimals_over leverage_range deployer_fee_over : ℕ → ValidationError
  taker_fee_range maker_fee_range : ℤ → ValidationError
  duplicate_source : OracleSource → ValidationError
  degenerate_pair : ℕ → ℕ → ValidationError

abbrev pub text_is_empty : String → Bool
text_is_empty s = str_eq s ""

abbrev pub reject_duplicate : Option OracleSource → Result ValidationError (Unit {0})
reject_duplicate none = ok tt
reject_duplicate (some s) = err (duplicate_source s)

-- The two fee ranges, which the builders share.
abbrev pub check_fees : ℤ → ℤ → Result ValidationError (Unit {0})
check_fees taker maker =
    reject_if (is_negative taker || exceeds taker 100) (taker_fee_range taker)
    >> reject_if (exceeds maker 100 || under maker 20) (maker_fee_range maker)

unfoldable pub validate : PerpDeployBuilder → Result ValidationError (Unit {0})
validate b =
    reject_if (text_is_empty b.asset_name) asset_name_empty
    >> reject_if (text_is_empty b.asset_symbol) asset_symbol_empty
    >> reject_if (ltb 18 b.decimals) (decimals_over b.decimals)
    >> reject_if (b.max_leverage == 0 || ltb 100 b.max_leverage) (leverage_range b.max_leverage)
    >> check_fees b.taker_fee_bps b.maker_fee_bps
    >> reject_if (ltb 50 b.deployer_fee_bps) (deployer_fee_over b.deployer_fee_bps)
    >> reject_if (is_empty b.oracle_sources) oracle_sources_empty
    >> reject_duplicate (first_duplicate (sort b.oracle_sources))

abbrev pub checked_builder : PerpDeployBuilder → Result ValidationError PerpDeployBuilder
checked_builder b = validate b >>= λ _. ok b

-- `PerpDeployBuilder::new`: no dex name.
abbrev pub new_perp :
    String
    → String
    → ℕ
    → List OracleSource
    → ℕ
    → ℤ
    → ℤ
    → ℕ
    → ℕ
    → Result ValidationError PerpDeployBuilder
new_perp name symbol places sources leverage taker maker size deployer = checked_builder (record {
  asset_name = name;
  asset_symbol = symbol;
  decimals = places;
  oracle_sources = sources;
  max_leverage = leverage;
  taker_fee_bps = taker;
  maker_fee_bps = maker;
  min_order_size = size;
  deployer_fee_bps = deployer;
  dex_name = "";
})

-- The setters.
abbrev pub with_asset_name : String → PerpDeployBuilder → PerpDeployBuilder
with_asset_name s b = record b { asset_name = s }

abbrev pub with_asset_symbol : String → PerpDeployBuilder → PerpDeployBuilder
with_asset_symbol s b = record b { asset_symbol = s }

abbrev pub with_dex_name : String → PerpDeployBuilder → PerpDeployBuilder
with_dex_name s b = record b { dex_name = s }

abbrev pub with_max_leverage : ℕ → PerpDeployBuilder → PerpDeployBuilder
with_max_leverage n b = record b { max_leverage = n }

abbrev pub with_taker_fee_bps : ℤ → PerpDeployBuilder → PerpDeployBuilder
with_taker_fee_bps z b = record b { taker_fee_bps = z }

abbrev pub with_maker_fee_bps : ℤ → PerpDeployBuilder → PerpDeployBuilder
with_maker_fee_bps z b = record b { maker_fee_bps = z }

abbrev pub with_min_order_size : ℕ → PerpDeployBuilder → PerpDeployBuilder
with_min_order_size n b = record b { min_order_size = n }

abbrev pub with_deployer_fee_bps : ℕ → PerpDeployBuilder → PerpDeployBuilder
with_deployer_fee_bps n b = record b { deployer_fee_bps = n }

abbrev pub with_oracle_sources : List OracleSource → PerpDeployBuilder → PerpDeployBuilder
with_oracle_sources ss b = record b { oracle_sources = ss }

-- The eight actions.
abbrev pub build_register_asset : PerpDeployBuilder → Action
build_register_asset b = perp_register_asset b.asset_name b.asset_symbol b.decimals b.dex_name

abbrev pub build_set_oracle : PerpDeployBuilder → Action
build_set_oracle b = perp_set_oracle b.asset_name (sort b.oracle_sources)

abbrev pub build_set_leverage : PerpDeployBuilder → Action
build_set_leverage b = perp_set_leverage b.asset_name b.max_leverage

abbrev pub build_set_fees : PerpDeployBuilder → Action
build_set_fees b = perp_set_fees b.asset_name b.taker_fee_bps b.maker_fee_bps b.deployer_fee_bps

abbrev pub build_set_min_order_size : PerpDeployBuilder → Action
build_set_min_order_size b = perp_set_min_order_size b.asset_name b.min_order_size

abbrev pub build_set_funding_params : PerpDeployBuilder → Action
build_set_funding_params b = perp_set_funding_params b.asset_name

abbrev pub build_register_market : PerpDeployBuilder → Action
build_register_market b = perp_register_market b.asset_name

abbrev pub build_activate_market : PerpDeployBuilder → Action
build_activate_market b = perp_activate_market b.asset_name

unfoldable pub deploy_sequence : PerpDeployBuilder → List Action
deploy_sequence b =
    build_register_asset b
    ∷ build_set_oracle b
    ∷ build_set_leverage b
    ∷ build_set_fees b
    ∷ build_set_min_order_size b
    ∷ build_set_funding_params b
    ∷ build_register_market b
    ∷ build_activate_market b
    ∷ []
