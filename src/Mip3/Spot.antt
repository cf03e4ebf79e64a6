-- ===== src/Mip3/Spot.antt =====
-- `SpotDeployBuilder` (src/mip3/params.rs).
use metaflux_client_rust.Base.{ℕ, String, List, [], ◌∷◌, ◌==◌, Result, ok, ◌>>=◌, ◌>>◌, reject_if}
use metaflux_client_rust.Base.Integers.{ℤ}
use metaflux_client_rust.Mip3.Action.{
  Action, spot_register_pair, spot_set_fees, spot_set_min_notional, spot_activate_pair,
}
use metaflux_client_rust.Mip3.Perp.{
  ValidationError, name_empty, degenerate_pair, text_is_empty, check_fees,
}

pub record SpotDeployBuilder : Type 0 where
  pub base_asset_id : ℕ
  pub quote_asset_id : ℕ
  pub name : String
  pub taker_fee_bps : ℤ
  pub maker_fee_bps : ℤ
  pub min_notional_cents : ℕ

unfoldable pub validate_spot : SpotDeployBuilder → Result ValidationError (Unit {0})
validate_spot b =
    reject_if (text_is_empty b.name) name_empty
    >> reject_if (b.base_asset_id == b.quote_asset_id)
        (degenerate_pair b.base_asset_id b.quote_asset_id)
    >> check_fees b.taker_fee_bps b.maker_fee_bps

-- `SpotDeployBuilder::new`
abbrev pub new_spot : ℕ → ℕ → String → ℤ → ℤ → ℕ → Result ValidationError SpotDeployBuilder
new_spot base quoted label taker maker cents =
    let b : SpotDeployBuilder = record {
      base_asset_id = base;
      quote_asset_id = quoted;
      name = label;
      taker_fee_bps = taker;
      maker_fee_bps = maker;
      min_notional_cents = cents;
    } in
    validate_spot b >>= λ _. ok b

-- The setters.
abbrev pub with_name : String → SpotDeployBuilder → SpotDeployBuilder
with_name s b = record b { name = s }

abbrev pub with_base_asset_id : ℕ → SpotDeployBuilder → SpotDeployBuilder
with_base_asset_id n b = record b { base_asset_id = n }

abbrev pub with_quote_asset_id : ℕ → SpotDeployBuilder → SpotDeployBuilder
with_quote_asset_id n b = record b { quote_asset_id = n }

abbrev pub with_spot_taker_fee_bps : ℤ → SpotDeployBuilder → SpotDeployBuilder
with_spot_taker_fee_bps z b = record b { taker_fee_bps = z }

abbrev pub with_spot_maker_fee_bps : ℤ → SpotDeployBuilder → SpotDeployBuilder
with_spot_maker_fee_bps z b = record b { maker_fee_bps = z }

abbrev pub with_min_notional_cents : ℕ → SpotDeployBuilder → SpotDeployBuilder
with_min_notional_cents n b = record b { min_notional_cents = n }

-- The four actions.
abbrev pub build_register_pair : SpotDeployBuilder → Action
build_register_pair b = spot_register_pair b.base_asset_id b.quote_asset_id b.name

abbrev pub build_set_spot_fees : SpotDeployBuilder → Action
build_set_spot_fees b = spot_set_fees b.name b.taker_fee_bps b.maker_fee_bps

abbrev pub build_set_min_notional : SpotDeployBuilder → Action
build_set_min_notional b = spot_set_min_notional b.name b.min_notional_cents

abbrev pub build_activate_pair : SpotDeployBuilder → Action
build_activate_pair b = spot_activate_pair b.name

unfoldable pub spot_deploy_sequence : SpotDeployBuilder → List Action
spot_deploy_sequence b =
    build_register_pair b
    ∷ build_set_spot_fees b
    ∷ build_set_min_notional b
    ∷ build_activate_pair b
    ∷ []
