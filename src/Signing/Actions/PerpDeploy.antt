-- ===== src/Signing/Actions/PerpDeploy.antt =====
-- The signed actions about the deployment of perpetual markets
-- (src/wallet/typed.rs: variants of `TypedAction`, arms of `encode_data`, type strings).
use metaflux_client_rust.Base.{ℕ, String, List, [], ◌∷◌, Bool}
use metaflux_client_rust.Signing.{
  Address, Field, field, uint64, uint32, uint16, uint8, boolean, address, utf8_string,
}

abbrev pub perp_register_asset_type : String
perp_register_asset_type =
    "MetaFluxTransaction:PerpRegisterAsset(string metafluxChain,string symbol,uint8 decimals,string name,uint64 nonce)"

pub record PerpRegisterAsset : Type 0 where
  pub metaflux_chain : String
  pub symbol : String
  pub decimals : ℕ
  pub name : String
  pub nonce : ℕ

abbrev pub perp_register_asset_data : PerpRegisterAsset → List Field
perp_register_asset_data a =
    field utf8_string a.metaflux_chain
    ∷ field utf8_string a.symbol
    ∷ field uint8 a.decimals
    ∷ field utf8_string a.name
    ∷ field uint64 a.nonce
    ∷ []

abbrev pub perp_set_oracle_type : String
perp_set_oracle_type =
    "MetaFluxTransaction:PerpSetOracle(string metafluxChain,uint32 asset,uint16 oracleSourceMask,uint64 nonce)"

pub record PerpSetOracle : Type 0 where
  pub metaflux_chain : String
  pub asset : ℕ
  pub oracle_source_mask : ℕ
  pub nonce : ℕ

abbrev pub perp_set_oracle_data : PerpSetOracle → List Field
perp_set_oracle_data a =
    field utf8_string a.metaflux_chain
    ∷ field uint32 a.asset
    ∷ field uint16 a.oracle_source_mask
    ∷ field uint64 a.nonce
    ∷ []

abbrev pub perp_set_leverage_type : String
perp_set_leverage_type =
    "MetaFluxTransaction:PerpSetLeverage(string metafluxChain,uint32 asset,uint8 maxLeverage,uint64 nonce)"

pub record PerpSetLeverage : Type 0 where
  pub metaflux_chain : String
  pub asset : ℕ
  pub max_leverage : ℕ
  pub nonce : ℕ

abbrev pub perp_set_leverage_data : PerpSetLeverage → List Field
perp_set_leverage_data a =
    field utf8_string a.metaflux_chain
    ∷ field uint32 a.asset
    ∷ field uint8 a.max_leverage
    ∷ field uint64 a.nonce
    ∷ []

abbrev pub perp_set_fee_tier_type : String
perp_set_fee_tier_type =
    "MetaFluxTransaction:PerpSetFeeTier(string metafluxChain,uint32 asset,uint32 takerFeeDbps,uint32 makerFeeDbps,uint32 deployerFeeBps,uint64 nonce)"

pub record PerpSetFeeTier : Type 0 where
  pub metaflux_chain : String
  pub asset : ℕ
  pub taker_fee_dbps : ℕ
  pub maker_fee_dbps : ℕ
  pub deployer_fee_bps : ℕ
  pub nonce : ℕ

abbrev pub perp_set_fee_tier_data : PerpSetFeeTier → List Field
perp_set_fee_tier_data a =
    field utf8_string a.metaflux_chain
    ∷ field uint32 a.asset
    ∷ field uint32 a.taker_fee_dbps
    ∷ field uint32 a.maker_fee_dbps
    ∷ field uint32 a.deployer_fee_bps
    ∷ field uint64 a.nonce
    ∷ []

abbrev pub perp_set_maker_rebate_type : String
perp_set_maker_rebate_type =
    "MetaFluxTransaction:PerpSetMakerRebate(string metafluxChain,uint32 asset,uint16 rebateBps,uint64 nonce)"

pub record PerpSetMakerRebate : Type 0 where
  pub metaflux_chain : String
  pub asset : ℕ
  pub rebate_bps : ℕ
  pub nonce : ℕ

abbrev pub perp_set_maker_rebate_data : PerpSetMakerRebate → List Field
perp_set_maker_rebate_data a =
    field utf8_string a.metaflux_chain
    ∷ field uint32 a.asset
    ∷ field uint16 a.rebate_bps
    ∷ field uint64 a.nonce
    ∷ []

abbrev pub perp_set_min_size_type : String
perp_set_min_size_type =
    "MetaFluxTransaction:PerpSetMinSize(string metafluxChain,uint32 asset,uint64 minOrderSize,uint64 nonce)"

pub record PerpSetMinSize : Type 0 where
  pub metaflux_chain : String
  pub asset : ℕ
  pub min_order_size : ℕ
  pub nonce : ℕ

abbrev pub perp_set_min_size_data : PerpSetMinSize → List Field
perp_set_min_size_data a =
    field utf8_string a.metaflux_chain
    ∷ field uint32 a.asset
    ∷ field uint64 a.min_order_size
    ∷ field uint64 a.nonce
    ∷ []

abbrev pub perp_set_oi_cap_type : String
perp_set_oi_cap_type =
    "MetaFluxTransaction:PerpSetOiCap(string metafluxChain,uint32 asset,uint64 oiCapUnits,uint64 nonce)"

pub record PerpSetOiCap : Type 0 where
  pub metaflux_chain : String
  pub asset : ℕ
  pub oi_cap_units : ℕ
  pub nonce : ℕ

abbrev pub perp_set_oi_cap_data : PerpSetOiCap → List Field
perp_set_oi_cap_data a =
    field utf8_string a.metaflux_chain
    ∷ field uint32 a.asset
    ∷ field uint64 a.oi_cap_units
    ∷ field uint64 a.nonce
    ∷ []

abbrev pub perp_activate_market_type : String
perp_activate_market_type =
    "MetaFluxTransaction:PerpActivateMarket(string metafluxChain,uint32 asset,uint64 nonce)"

pub record PerpActivateMarket : Type 0 where
  pub metaflux_chain : String
  pub asset : ℕ
  pub nonce : ℕ

abbrev pub perp_activate_market_data : PerpActivateMarket → List Field
perp_activate_market_data a =
    field utf8_string a.metaflux_chain ∷ field uint32 a.asset ∷ field uint64 a.nonce ∷ []

abbrev pub perp_deactivate_market_type : String
perp_deactivate_market_type =
    "MetaFluxTransaction:PerpDeactivateMarket(string metafluxChain,uint32 asset,uint64 nonce)"

pub record PerpDeactivateMarket : Type 0 where
  pub metaflux_chain : String
  pub asset : ℕ
  pub nonce : ℕ

abbrev pub perp_deactivate_market_data : PerpDeactivateMarket → List Field
perp_deactivate_market_data a =
    field utf8_string a.metaflux_chain ∷ field uint32 a.asset ∷ field uint64 a.nonce ∷ []

abbrev pub perp_set_sub_deployers_type : String
perp_set_sub_deployers_type =
    "MetaFluxTransaction:PerpSetSubDeployers(string metafluxChain,uint32 asset,address subDeployer,bool add,uint64 nonce)"

pub record PerpSetSubDeployers : Type 0 where
  pub metaflux_chain : String
  pub asset : ℕ
  pub sub_deployer : Address
  pub add : Bool
  pub nonce : ℕ

abbrev pub perp_set_sub_deployers_data : PerpSetSubDeployers → List Field
perp_set_sub_deployers_data a =
    field utf8_string a.metaflux_chain
    ∷ field uint32 a.asset
    ∷ field address a.sub_deployer
    ∷ field boolean a.add
    ∷ field uint64 a.nonce
    ∷ []

abbrev pub perp_set_sub_deployer_perms_type : String
perp_set_sub_deployer_perms_type =
    "MetaFluxTransaction:PerpSetSubDeployerPerms(string metafluxChain,uint32 asset,address subDeployer,uint16 permissions,uint64 nonce)"

pub record PerpSetSubDeployerPerms : Type 0 where
  pub metaflux_chain : String
  pub asset : ℕ
  pub sub_deployer : Address
  pub permissions : ℕ
  pub nonce : ℕ

abbrev pub perp_set_sub_deployer_perms_data : PerpSetSubDeployerPerms → List Field
perp_set_sub_deployer_perms_data a =
    field utf8_string a.metaflux_chain
    ∷ field uint32 a.asset
    ∷ field address a.sub_deployer
    ∷ field uint16 a.permissions
    ∷ field uint64 a.nonce
    ∷ []

abbrev pub mip3_set_oracle_px_type : String
mip3_set_oracle_px_type =
    "MetaFluxTransaction:Mip3SetOraclePx(string metafluxChain,uint32 asset,string px,uint64 nonce)"

pub record Mip3SetOraclePx : Type 0 where
  pub metaflux_chain : String
  pub asset : ℕ
  pub px : String
  pub nonce : ℕ

abbrev pub mip3_set_oracle_px_data : Mip3SetOraclePx → List Field
mip3_set_oracle_px_data a =
    field utf8_string a.metaflux_chain
    ∷ field uint32 a.asset
    ∷ field utf8_string a.px
    ∷ field uint64 a.nonce
    ∷ []
