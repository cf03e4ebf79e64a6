-- ===== src/Requests/Margin.antt =====
-- The calls about leverage, isolated margin and spot margin (src/rest/exchange_typed.rs).
use metaflux_client_rust.Base.{ℕ, String, [], ◌∷◌, Bool, Option, none, some}
use metaflux_client_rust.Json.{bool, number, string}
use metaflux_client_rust.Signing.{Bytes, Address}
use metaflux_client_rust.Signing.Actions.{
  update_leverage, update_isolated_margin, top_up_isolated_only_margin, spot_margin_deposit,
  spot_margin_withdraw, spot_margin_open, spot_margin_close,
}
use metaflux_client_rust.Requests.{json_object, set_field, posted_hex, Build, post_signed_typed}

module _ {R : Type 0} (post : Build → R) where
  abbrev pub update_leverage_typed : ℕ → ℕ → Bool → R
  update_leverage_typed asset leverage is_isolated = post_signed_typed post λ chain nonce. (
    update_leverage (record {
      metaflux_chain = chain;
      owner = none;
      asset = asset;
      leverage = leverage;
      is_isolated = is_isolated;
      nonce = nonce;
    }),
    "update_leverage",
    json_object (
        ("asset", number asset)
        ∷ ("leverage", number leverage)
        ∷ ("is_isolated", bool is_isolated)
        ∷ []),
  )

  abbrev pub spot_margin_close_typed : ℕ → ℕ → R
  spot_margin_close_typed pair limit_px = post_signed_typed post λ chain nonce. (
    spot_margin_close
        (record { metaflux_chain = chain; pair = pair; limit_px = limit_px; nonce = nonce }),
    "spot_margin_close",
    json_object (("pair", number pair) ∷ ("limit_px", number limit_px) ∷ []),
  )

  abbrev pub spot_margin_deposit_typed : ℕ → String → R
  spot_margin_deposit_typed pair amount = post_signed_typed post λ chain nonce. (
    spot_margin_deposit
        (record { metaflux_chain = chain; pair = pair; amount = amount; nonce = nonce }),
    "spot_margin_deposit",
    json_object (("pair", number pair) ∷ ("amount", string amount) ∷ []),
  )

  abbrev pub spot_margin_withdraw_typed : ℕ → String → R
  spot_margin_withdraw_typed pair amount = post_signed_typed post λ chain nonce. (
    spot_margin_withdraw
        (record { metaflux_chain = chain; pair = pair; amount = amount; nonce = nonce }),
    "spot_margin_withdraw",
    json_object (("pair", number pair) ∷ ("amount", string amount) ∷ []),
  )

  abbrev pub spot_margin_open_typed : ℕ → ℕ → ℕ → String → R
  spot_margin_open_typed pair size limit_px borrow = post_signed_typed post λ chain nonce. (
    spot_margin_open (record {
      metaflux_chain = chain;
      pair = pair;
      size = size;
      limit_px = limit_px;
      borrow = borrow;
      nonce = nonce;
    }),
    "spot_margin_open",
    json_object (
        ("pair", number pair)
        ∷ ("size", number size)
        ∷ ("limit_px", number limit_px)
        ∷ ("borrow", string borrow)
        ∷ []),
  )

module _ {R : Type 0} (hex_encode : Bytes → String) (post : Build → R) where
  abbrev pub update_leverage_typed_as : Address → ℕ → ℕ → Bool → R
  update_leverage_typed_as owner asset leverage is_isolated = post_signed_typed post λ chain nonce.
      (
        update_leverage (record {
          metaflux_chain = chain;
          owner = (some owner);
          asset = asset;
          leverage = leverage;
          is_isolated = is_isolated;
          nonce = nonce;
        }),
        "update_leverage",
        json_object (
            ("owner", posted_hex hex_encode owner)
            ∷ ("asset", number asset)
            ∷ ("leverage", number leverage)
            ∷ ("is_isolated", bool is_isolated)
            ∷ []),
      )

  abbrev pub update_isolated_margin_bound : Option Address → ℕ → String → R
  update_isolated_margin_bound owner asset delta = post_signed_typed post λ chain nonce. (
    update_isolated_margin (record {
      metaflux_chain = chain;
      owner = owner;
      asset = asset;
      delta = delta;
      nonce = nonce;
    }),
    "update_isolated_margin",
    elim owner [
      | none ↦ json_object (("asset", number asset) ∷ ("delta", string delta) ∷ [])
      | some o ↦
          set_field "owner" (posted_hex hex_encode o)
            (json_object (("asset", number asset) ∷ ("delta", string delta) ∷ []))
    ],
  )

  abbrev pub top_up_isolated_only_margin_bound : Option Address → ℕ → String → R
  top_up_isolated_only_margin_bound owner asset amount = post_signed_typed post λ chain nonce. (
    top_up_isolated_only_margin (record {
      metaflux_chain = chain;
      owner = owner;
      asset = asset;
      amount = amount;
      nonce = nonce;
    }),
    "top_up_isolated_only_margin",
    elim owner [
      | none ↦ json_object (("asset", number asset) ∷ ("amount", string amount) ∷ [])
      | some o ↦
          set_field "owner" (posted_hex hex_encode o)
            (json_object (("asset", number asset) ∷ ("amount", string amount) ∷ []))
    ],
  )

  abbrev pub update_isolated_margin_typed : ℕ → String → R
  update_isolated_margin_typed asset delta = update_isolated_margin_bound none asset delta

  abbrev pub update_isolated_margin_typed_as : Address → ℕ → String → R
  update_isolated_margin_typed_as owner asset delta =
      update_isolated_margin_bound (some owner) asset delta

  abbrev pub top_up_isolated_only_margin_typed : ℕ → String → R
  top_up_isolated_only_margin_typed asset amount =
      top_up_isolated_only_margin_bound none asset amount

  abbrev pub top_up_isolated_only_margin_typed_as : Address → ℕ → String → R
  top_up_isolated_only_margin_typed_as owner asset amount =
      top_up_isolated_only_margin_bound (some owner) asset amount
