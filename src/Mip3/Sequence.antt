-- ===== src/Mip3/Sequence.antt =====
-- What the deploy sequences put on the wire, and that the presets can be built
-- (src/mip3/params.rs, src/mip3/templates.rs).
use text.Mathlib.Text.{◌==◌ as str_eq}
use metaflux_client_rust.Base.{ℕ, [], ◌∷◌, map, Option, none, some, ◌≡◌, refl, All, Result, ok}
use metaflux_client_rust.Json.{Value, string, get}
use metaflux_client_rust.Mip3.Action.{
  Action, perp_register_asset, perp_set_oracle, perp_set_leverage, perp_set_fees,
  perp_set_min_order_size, perp_set_funding_params, perp_register_market, perp_activate_market,
  spot_register_pair, spot_set_fees, spot_set_min_notional, spot_activate_pair, to_json, type_id,
}
use metaflux_client_rust.Mip3.Perp.{PerpDeployBuilder, ValidationError, deploy_sequence}
use metaflux_client_rust.Mip3.Spot.{SpotDeployBuilder, spot_deploy_sequence}
use metaflux_client_rust.Mip3.Validity.{IsValid}

-- The `type` field of every action's JSON is its discriminator.
pub to_json-type_id :
    (u128_json : ℕ → Value) (a : Action)
    → get "type" (to_json u128_json a) ≡ some (string (type_id a))
unfolding to_json type_id
to_json-type_id u (perp_register_asset a s d n) = refl
to_json-type_id u (perp_set_oracle a s) = refl
to_json-type_id u (perp_set_leverage a l) = refl
to_json-type_id u (perp_set_fees a t m d) = refl
to_json-type_id u (perp_set_min_order_size a n) = refl
to_json-type_id u (perp_set_funding_params a) = refl
to_json-type_id u (perp_register_market a) = refl
to_json-type_id u (perp_activate_market a) = refl
to_json-type_id u (spot_register_pair b q n) = refl
to_json-type_id u (spot_set_fees n t m) = refl
to_json-type_id u (spot_set_min_notional n c) = refl
to_json-type_id u (spot_activate_pair n) = refl

-- A perp deploy puts its eight actions on the wire in the order of the steps, and each names the
-- builder's asset; a spot deploy its four, each under the pair's name.
pub deploy_sequence-wire :
    (u128_json : ℕ → Value) (b : PerpDeployBuilder) (s : SpotDeployBuilder)
    → (map type_id (deploy_sequence b)
        ≡ "perp_register_asset" ∷ "perp_set_oracle" ∷ "perp_set_leverage" ∷ "perp_set_fees"
          ∷ "perp_set_min_order_size" ∷ "perp_set_funding_params" ∷ "perp_register_market"
          ∷ "perp_activate_market" ∷ [])
      × All
          (λ a. get "asset_name" (to_json u128_json a) ≡ some (string b.asset_name))
          (deploy_sequence b)
      × (map type_id (spot_deploy_sequence s)
          ≡ "spot_register_pair" ∷ "spot_set_fees" ∷ "spot_set_min_notional" ∷ "spot_activate_pair"
            ∷ [])
      × All (λ a. get "name" (to_json u128_json a) ≡ some (string s.name)) (spot_deploy_sequence s)
unfolding deploy_sequence spot_deploy_sequence to_json type_id
deploy_sequence-wire u b s = (
  refl,
  (refl, (refl, (refl, (refl, (refl, (refl, (refl, (refl, tt)))))))),
  refl,
  (refl, (refl, (refl, (refl, tt)))),
)

-- the builder is built, and is valid
abbrev pub IsBuilt : Option (Result ValidationError PerpDeployBuilder) → Type 0
IsBuilt none = Unit
IsBuilt (some r) = (b : PerpDeployBuilder) × (r ≡ ok b) × IsValid b
