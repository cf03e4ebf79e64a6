-- ===== src/Signing/Read/PerpDeploy.antt =====
-- The signed actions about the deployment of perpetual markets, read back from their members.
use metaflux_client_rust.Base.{List, [], ◌∷◌, Option, none, some}
use metaflux_client_rust.Signing.{
  Field, field, uint64, uint32, uint16, uint8, boolean, address, utf8_string,
}
use metaflux_client_rust.Signing.Actions.{
  TypedAction, perp_register_asset, perp_set_oracle, perp_set_leverage, perp_set_fee_tier,
  perp_set_maker_rebate, perp_set_min_size, perp_set_oi_cap, perp_activate_market,
  perp_deactivate_market, perp_set_sub_deployers, perp_set_sub_deployer_perms, mip3_set_oracle_px,
}

abbrev pub read_perp_register_asset : List Field → Option TypedAction
read_perp_register_asset
      (field utf8_string metaflux_chain
        ∷ field utf8_string symbol
        ∷ field uint8 decimals
        ∷ field utf8_string name
        ∷ field uint64 nonce
        ∷ []) =
    some (
      perp_register_asset (record {
        metaflux_chain = metaflux_chain;
        symbol = symbol;
        decimals = decimals;
        name = name;
        nonce = nonce;
      }))
read_perp_register_asset _ = none

abbrev pub read_perp_set_oracle : List Field → Option TypedAction
read_perp_set_oracle
      (field utf8_string metaflux_chain
        ∷ field uint32 asset
        ∷ field uint16 oracle_source_mask
        ∷ field uint64 nonce
        ∷ []) =
    some (
      perp_set_oracle (record {
        metaflux_chain = metaflux_chain;
        asset = asset;
        oracle_source_mask = oracle_source_mask;
        nonce = nonce;
      }))
read_perp_set_oracle _ = none

abbrev pub read_perp_set_leverage : List Field → Option TypedAction
read_perp_set_leverage
      (field utf8_string metaflux_chain
        ∷ field uint32 asset
        ∷ field uint8 max_leverage
        ∷ field uint64 nonce
        ∷ []) =
    some (
      perp_set_leverage (record {
        metaflux_chain = metaflux_chain;
        asset = asset;
        max_leverage = max_leverage;
        nonce = nonce;
      }))
read_perp_set_leverage _ = none

abbrev pub read_perp_set_fee_tier : List Field → Option TypedAction
read_perp_set_fee_tier
      (field utf8_string metaflux_chain
        ∷ field uint32 asset
        ∷ field uint32 taker_fee_dbps
        ∷ field uint32 maker_fee_dbps
        ∷ field uint32 deployer_fee_bps
        ∷ field uint64 nonce
        ∷ []) =
    some (
      perp_set_fee_tier (record {
        metaflux_chain = metaflux_chain;
        asset = asset;
        taker_fee_dbps = taker_fee_dbps;
        maker_fee_dbps = maker_fee_dbps;
        deployer_fee_bps = deployer_fee_bps;
        nonce = nonce;
      }))
read_perp_set_fee_tier _ = none

abbrev pub read_perp_set_maker_rebate : List Field → Option TypedAction
read_perp_set_maker_rebate
      (field utf8_string metaflux_chain
        ∷ field uint32 asset
        ∷ field uint16 rebate_bps
        ∷ field uint64 nonce
        ∷ []) =
    some (
      perp_set_maker_rebate (record {
        metaflux_chain = metaflux_chain;
        asset = asset;
        rebate_bps = rebate_bps;
        nonce = nonce;
      }))
read_perp_set_maker_rebate _ = none

abbrev pub read_perp_set_min_size : List Field → Option TypedAction
read_perp_set_min_size
      (field utf8_string metaflux_chain
        ∷ field uint32 asset
        ∷ field uint64 min_order_size
        ∷ field uint64 nonce
        ∷ []) =
    some (
      perp_set_min_size (record {
        metaflux_chain = metaflux_chain;
        asset = asset;
        min_order_size = min_order_size;
        nonce = nonce;
      }))
read_perp_set_min_size _ = none

abbrev pub read_perp_set_oi_cap : List Field → Option TypedAction
read_perp_set_oi_cap
      (field utf8_string metaflux_chain
        ∷ field uint32 asset
        ∷ field uint64 oi_cap_units
        ∷ field uint64 nonce
        ∷ []) =
    some (
      perp_set_oi_cap (record {
        metaflux_chain = metaflux_chain;
        asset = asset;
        oi_cap_units = oi_cap_units;
        nonce = nonce;
      }))
read_perp_set_oi_cap _ = none

abbrev pub read_perp_activate_market : List Field → Option TypedAction
read_perp_activate_market
      (field utf8_string metaflux_chain ∷ field uint32 asset ∷ field uint64 nonce ∷ []) =
    some (
      perp_activate_market
        (record { metaflux_chain = metaflux_chain; asset = asset; nonce = nonce }))
read_perp_activate_market _ = none

abbrev pub read_perp_deactivate_market : List Field → Option TypedAction
read_perp_deactivate_market
      (field utf8_string metaflux_chain ∷ field uint32 asset ∷ field uint64 nonce ∷ []) =
    some (
      perp_deactivate_market
        (record { metaflux_chain = metaflux_chain; asset = asset; nonce = nonce }))
read_perp_deactivate_market _ = none

abbrev pub read_perp_set_sub_deployers : List Field → Option TypedAction
read_perp_set_sub_deployers
      (field utf8_string metaflux_chain
        ∷ field uint32 asset
        ∷ field address sub_deployer
        ∷ field boolean add
        ∷ field uint64 nonce
        ∷ []) =
    some (
      perp_set_sub_deployers (record {
        metaflux_chain = metaflux_chain;
        asset = asset;
        sub_deployer = sub_deployer;
        add = add;
        nonce = nonce;
      }))
read_perp_set_sub_deployers _ = none

abbrev pub read_perp_set_sub_deployer_perms : List Field → Option TypedAction
read_perp_set_sub_deployer_perms
      (field utf8_string metaflux_chain
        ∷ field uint32 asset
        ∷ field address sub_deployer
        ∷ field uint16 permissions
        ∷ field uint64 nonce
        ∷ []) =
    some (
      perp_set_sub_deployer_perms (record {
        metaflux_chain = metaflux_chain;
        asset = asset;
        sub_deployer = sub_deployer;
        permissions = permissions;
        nonce = nonce;
      }))
read_perp_set_sub_deployer_perms _ = none

abbrev pub read_mip3_set_oracle_px : List Field → Option TypedAction
read_mip3_set_oracle_px
      (field utf8_string metaflux_chain
        ∷ field uint32 asset
        ∷ field utf8_string px
        ∷ field uint64 nonce
        ∷ []) =
    some (
      mip3_set_oracle_px
        (record { metaflux_chain = metaflux_chain; asset = asset; px = px; nonce = nonce }))
read_mip3_set_oracle_px _ = none
