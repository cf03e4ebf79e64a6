-- ===== src/Requests/PerpDeploy.antt =====
-- The calls about the deployment of perpetual markets (src/rest/exchange_typed.rs).
use metaflux_client_rust.Base.{ℕ, String, [], ◌∷◌, Bool}
use metaflux_client_rust.Json.{bool, number, string}
use metaflux_client_rust.Signing.{Bytes, Address}
use metaflux_client_rust.Signing.Actions.{
  perp_register_asset, perp_set_oracle, perp_set_leverage, perp_set_fee_tier, perp_set_maker_rebate,
  perp_set_min_size, perp_set_oi_cap, perp_activate_market, perp_deactivate_market,
  perp_set_sub_deployers, perp_set_sub_deployer_perms, mip3_set_oracle_px,
}
use metaflux_client_rust.Requests.{json_object, posted_hex, Build, post_signed_typed}

module _ {R : Type 0} (post : Build → R) where
  abbrev pub perp_register_asset_typed : String → ℕ → String → R
  perp_register_asset_typed symbol decimals name = post_signed_typed post λ chain nonce. (
    perp_register_asset (record {
      metaflux_chain = chain;
      symbol = symbol;
      decimals = decimals;
      name = name;
      nonce = nonce;
    }),
    "perp_register_asset",
    json_object
        (("symbol", string symbol) ∷ ("decimals", number decimals) ∷ ("name", string name) ∷ []),
  )

  abbrev pub perp_set_oracle_typed : ℕ → ℕ → R
  perp_set_oracle_typed asset oracle_source_mask = post_signed_typed post λ chain nonce. (
    perp_set_oracle (record {
      metaflux_chain = chain;
      asset = asset;
      oracle_source_mask = oracle_source_mask;
      nonce = nonce;
    }),
    "perp_set_oracle",
    json_object (("asset", number asset) ∷ ("oracle_source_mask", number oracle_source_mask) ∷ []),
  )

  abbrev pub perp_set_leverage_typed : ℕ → ℕ → R
  perp_set_leverage_typed asset max_leverage = post_signed_typed post λ chain nonce. (
    perp_set_leverage (record {
      metaflux_chain = chain;
      asset = asset;
      max_leverage = max_leverage;
      nonce = nonce;
    }),
    "perp_set_leverage",
    json_object (("asset", number asset) ∷ ("max_leverage", number max_leverage) ∷ []),
  )

  abbrev pub perp_set_fee_tier_typed : ℕ → ℕ → ℕ → ℕ → R
  perp_set_fee_tier_typed asset taker_fee_dbps maker_fee_dbps deployer_fee_bps =
      post_signed_typed post λ chain nonce. (
        perp_set_fee_tier (record {
          metaflux_chain = chain;
          asset = asset;
          taker_fee_dbps = taker_fee_dbps;
          maker_fee_dbps = maker_fee_dbps;
          deployer_fee_bps = deployer_fee_bps;
          nonce = nonce;
        }),
        "perp_set_fee_tier",
        json_object (
            ("asset", number asset)
            ∷ ("taker_fee_dbps", number taker_fee_dbps)
            ∷ ("maker_fee_dbps", number maker_fee_dbps)
            ∷ ("deployer_fee_bps", number deployer_fee_bps)
            ∷ []),
      )

  abbrev pub perp_set_maker_rebate_typed : ℕ → ℕ → R
  perp_set_maker_rebate_typed asset rebate_bps = post_signed_typed post λ chain nonce. (
    perp_set_maker_rebate
        (record { metaflux_chain = chain; asset = asset; rebate_bps = rebate_bps; nonce = nonce }),
    "perp_set_maker_rebate",
    json_object (("asset", number asset) ∷ ("rebate_bps", number rebate_bps) ∷ []),
  )

  abbrev pub perp_set_min_size_typed : ℕ → ℕ → R
  perp_set_min_size_typed asset min_order_size = post_signed_typed post λ chain nonce. (
    perp_set_min_size (record {
      metaflux_chain = chain;
      asset = asset;
      min_order_size = min_order_size;
      nonce = nonce;
    }),
    "perp_set_min_size",
    json_object (("asset", number asset) ∷ ("min_order_size", number min_order_size) ∷ []),
  )

  abbrev pub perp_set_oi_cap_typed : ℕ → ℕ → R
  perp_set_oi_cap_typed asset oi_cap_units = post_signed_typed post λ chain nonce. (
    perp_set_oi_cap (record {
      metaflux_chain = chain;
      asset = asset;
      oi_cap_units = oi_cap_units;
      nonce = nonce;
    }),
    "perp_set_oi_cap",
    json_object (("asset", number asset) ∷ ("oi_cap_units", number oi_cap_units) ∷ []),
  )

  abbrev pub perp_activate_market_typed : ℕ → R
  perp_activate_market_typed asset = post_signed_typed post λ chain nonce. (
    perp_activate_market (record { metaflux_chain = chain; asset = asset; nonce = nonce }),
    "perp_activate_market",
    json_object (("asset", number asset) ∷ []),
  )

  abbrev pub perp_deactivate_market_typed : ℕ → R
  perp_deactivate_market_typed asset = post_signed_typed post λ chain nonce. (
    perp_deactivate_market (record { metaflux_chain = chain; asset = asset; nonce = nonce }),
    "perp_deactivate_market",
    json_object (("asset", number asset) ∷ []),
  )

  abbrev pub mip3_set_oracle_px_typed : ℕ → String → R
  mip3_set_oracle_px_typed asset px = post_signed_typed post λ chain nonce. (
    mip3_set_oracle_px (record { metaflux_chain = chain; asset = asset; px = px; nonce = nonce }),
    "mip3_set_oracle_px",
    json_object (("asset", number asset) ∷ ("px", string px) ∷ []),
  )

module _ {R : Type 0} (hex_encode : Bytes → String) (post : Build → R) where
  abbrev pub perp_set_sub_deployers_typed : ℕ → Address → Bool → R
  perp_set_sub_deployers_typed asset sub_deployer add = post_signed_typed post λ chain nonce. (
    perp_set_sub_deployers (record {
      metaflux_chain = chain;
      asset = asset;
      sub_deployer = sub_deployer;
      add = add;
      nonce = nonce;
    }),
    "perp_set_sub_deployers",
    json_object (
        ("asset", number asset)
        ∷ ("sub_deployer", posted_hex hex_encode sub_deployer)
        ∷ ("add", bool add)
        ∷ []),
  )

  abbrev pub perp_set_sub_deployer_perms_typed : ℕ → Address → ℕ → R
  perp_set_sub_deployer_perms_typed asset sub_deployer permissions =
      post_signed_typed post λ chain nonce. (
        perp_set_sub_deployer_perms (record {
          metaflux_chain = chain;
          asset = asset;
          sub_deployer = sub_deployer;
          permissions = permissions;
          nonce = nonce;
        }),
        "perp_set_sub_deployer_perms",
        json_object (
            ("asset", number asset)
            ∷ ("sub_deployer", posted_hex hex_encode sub_deployer)
            ∷ ("permissions", number permissions)
            ∷ []),
      )
