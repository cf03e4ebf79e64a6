-- ===== src/Signing/Read/SpotDeploy.antt =====
-- The signed actions about the deployment of spot tokens and pairs, read back from their members.
use metaflux_client_rust.Base.{List, [], ◌∷◌, Option, none, some}
use metaflux_client_rust.Signing.{
  Field, field, uint64, uint32, uint8, boolean, utf8_string, addresses, strings,
}
use metaflux_client_rust.Signing.Actions.{
  TypedAction, spot_register_token, spot_register_pair, spot_set_pair_params, spot_set_pair_active,
  spot_seed_holders, spot_finalize_supply,
}

abbrev pub read_spot_register_token : List Field → Option TypedAction
read_spot_register_token
      (field utf8_string metaflux_chain
        ∷ field utf8_string symbol
        ∷ field uint8 sz_decimals
        ∷ field uint8 wei_decimals
        ∷ field utf8_string max_deploy_fee
        ∷ field uint64 nonce
        ∷ []) =
    some (
      spot_register_token (record {
        metaflux_chain = metaflux_chain;
        symbol = symbol;
        sz_decimals = sz_decimals;
        wei_decimals = wei_decimals;
        max_deploy_fee = max_deploy_fee;
        nonce = nonce;
      }))
read_spot_register_token _ = none

abbrev pub read_spot_register_pair : List Field → Option TypedAction
read_spot_register_pair
      (field utf8_string metaflux_chain
        ∷ field uint32 base
        ∷ field uint32 quote
        ∷ field utf8_string name
        ∷ field utf8_string max_deploy_fee
        ∷ field uint64 nonce
        ∷ []) =
    some (
      spot_register_pair (record {
        metaflux_chain = metaflux_chain;
        base = base;
        quote = quote;
        name = name;
        max_deploy_fee = max_deploy_fee;
        nonce = nonce;
      }))
read_spot_register_pair _ = none

abbrev pub read_spot_set_pair_params : List Field → Option TypedAction
read_spot_set_pair_params
      (field utf8_string metaflux_chain
        ∷ field uint32 pair
        ∷ field uint32 taker_fee_dbps
        ∷ field uint32 maker_fee_dbps
        ∷ field uint64 min_notional_cents
        ∷ field uint64 nonce
        ∷ []) =
    some (
      spot_set_pair_params (record {
        metaflux_chain = metaflux_chain;
        pair = pair;
        taker_fee_dbps = taker_fee_dbps;
        maker_fee_dbps = maker_fee_dbps;
        min_notional_cents = min_notional_cents;
        nonce = nonce;
      }))
read_spot_set_pair_params _ = none

abbrev pub read_spot_set_pair_active : List Field → Option TypedAction
read_spot_set_pair_active
      (field utf8_string metaflux_chain
        ∷ field uint32 pair
        ∷ field boolean active
        ∷ field uint64 nonce
        ∷ []) =
    some (
      spot_set_pair_active
        (record { metaflux_chain = metaflux_chain; pair = pair; active = active; nonce = nonce }))
read_spot_set_pair_active _ = none

abbrev pub read_spot_seed_holders : List Field → Option TypedAction
read_spot_seed_holders
      (field utf8_string metaflux_chain
        ∷ field uint32 asset
        ∷ field addresses holders
        ∷ field strings amounts
        ∷ field uint64 nonce
        ∷ []) =
    some (
      spot_seed_holders (record {
        metaflux_chain = metaflux_chain;
        asset = asset;
        holders = holders;
        amounts = amounts;
        nonce = nonce;
      }))
read_spot_seed_holders _ = none

abbrev pub read_spot_finalize_supply : List Field → Option TypedAction
read_spot_finalize_supply
      (field utf8_string metaflux_chain
        ∷ field uint32 asset
        ∷ field utf8_string max_supply
        ∷ field uint64 nonce
        ∷ []) =
    some (
      spot_finalize_supply (record {
        metaflux_chain = metaflux_chain;
        asset = asset;
        max_supply = max_supply;
        nonce = nonce;
      }))
read_spot_finalize_supply _ = none
