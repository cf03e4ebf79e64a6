-- ===== src/Requests/SpotDeploy.antt =====
-- The calls about the deployment of spot tokens and pairs (src/rest/exchange_typed.rs).
use metaflux_client_rust.Base.{
  ℕ, String, List, [], ◌∷◌, Bool, not, Result, ok, ◌>>◌, reject_if, is_empty, length, ◌==◌,
}
use metaflux_client_rust.Json.{bool, number, string}
use metaflux_client_rust.Signing.{Bytes, Address}
use metaflux_client_rust.Signing.Actions.{
  spot_register_token, spot_register_pair, spot_set_pair_params, spot_set_pair_active,
  spot_seed_holders, spot_finalize_supply,
}
use metaflux_client_rust.Requests.{
  json_object, texts, posted_hexes, RequestError, no_holders, lengths_differ, Build,
  post_signed_typed,
}

module _ {R : Type 0} (post : Build → R) where
  abbrev pub spot_register_token_typed : String → ℕ → ℕ → String → R
  spot_register_token_typed symbol sz_decimals wei_decimals max_deploy_fee =
      post_signed_typed post λ chain nonce. (
        spot_register_token (record {
          metaflux_chain = chain;
          symbol = symbol;
          sz_decimals = sz_decimals;
          wei_decimals = wei_decimals;
          max_deploy_fee = max_deploy_fee;
          nonce = nonce;
        }),
        "spot_register_token",
        json_object (
            ("symbol", string symbol)
            ∷ ("sz_decimals", number sz_decimals)
            ∷ ("wei_decimals", number wei_decimals)
            ∷ ("max_deploy_fee", string max_deploy_fee)
            ∷ []),
      )

  abbrev pub spot_register_pair_typed : ℕ → ℕ → String → String → R
  spot_register_pair_typed base quote name max_deploy_fee = post_signed_typed post λ chain nonce. (
    spot_register_pair (record {
      metaflux_chain = chain;
      base = base;
      quote = quote;
      name = name;
      max_deploy_fee = max_deploy_fee;
      nonce = nonce;
    }),
    "spot_register_pair",
    json_object (
        ("base", number base)
        ∷ ("quote", number quote)
        ∷ ("name", string name)
        ∷ ("max_deploy_fee", string max_deploy_fee)
        ∷ []),
  )

  abbrev pub spot_set_pair_params_typed : ℕ → ℕ → ℕ → ℕ → R
  spot_set_pair_params_typed pair taker_fee_dbps maker_fee_dbps min_notional_cents =
      post_signed_typed post λ chain nonce. (
        spot_set_pair_params (record {
          metaflux_chain = chain;
          pair = pair;
          taker_fee_dbps = taker_fee_dbps;
          maker_fee_dbps = maker_fee_dbps;
          min_notional_cents = min_notional_cents;
          nonce = nonce;
        }),
        "spot_set_pair_params",
        json_object (
            ("pair", number pair)
            ∷ ("taker_fee_dbps", number taker_fee_dbps)
            ∷ ("maker_fee_dbps", number maker_fee_dbps)
            ∷ ("min_notional_cents", number min_notional_cents)
            ∷ []),
      )

  abbrev pub spot_set_pair_active_typed : ℕ → Bool → R
  spot_set_pair_active_typed pair active = post_signed_typed post λ chain nonce. (
    spot_set_pair_active
        (record { metaflux_chain = chain; pair = pair; active = active; nonce = nonce }),
    "spot_set_pair_active",
    json_object (("pair", number pair) ∷ ("active", bool active) ∷ []),
  )

  abbrev pub spot_finalize_supply_typed : ℕ → String → R
  spot_finalize_supply_typed asset max_supply = post_signed_typed post λ chain nonce. (
    spot_finalize_supply
        (record { metaflux_chain = chain; asset = asset; max_supply = max_supply; nonce = nonce }),
    "spot_finalize_supply",
    json_object (("asset", number asset) ∷ ("max_supply", string max_supply) ∷ []),
  )

module _ {R : Type 0} (hex_encode : Bytes → String) (post : Build → R) where
  abbrev pub spot_seed_holders_typed : ℕ → List Address → List String → Result RequestError R
  spot_seed_holders_typed asset holders amounts =
      reject_if (is_empty holders) no_holders
      >> reject_if (not (length holders == length amounts)) lengths_differ
      >> ok (
          post_signed_typed post λ chain nonce. (
            spot_seed_holders (record {
              metaflux_chain = chain;
              asset = asset;
              holders = holders;
              amounts = amounts;
              nonce = nonce;
            }),
            "spot_seed_holders",
            json_object (
                ("asset", number asset)
                ∷ ("holders", posted_hexes hex_encode holders)
                ∷ ("amounts", texts amounts)
                ∷ []),
          ))
