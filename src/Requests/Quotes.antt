-- ===== src/Requests/Quotes.antt =====
-- The calls about requests for quotes, batch auctions, encrypted orders and cancel-all (src/rest/exchange_typed.rs).
use metaflux_client_rust.Base.{ℕ, String, [], ◌∷◌, Option, none, some, unwrap_or}
use metaflux_client_rust.Json.{number, string}
use metaflux_client_rust.Signing.{Bytes, Address}
use metaflux_client_rust.Signing.Actions.{
  priority_bid, cancel_all_orders, submit_encrypted_order, rfq_request, rfq_accept, rfq_quote,
  fba_submit,
}
use metaflux_client_rust.Requests.{
  json_object, set_field, optional_number, numbers, posted_hex, is_some, CoreSide, core_side_to_u8,
  core_side_name, Build, post_signed_typed,
}

module _ {R : Type 0} (post : Build → R) where
  abbrev pub priority_bid_typed : ℕ → ℕ → R
  priority_bid_typed asset bid_bps = post_signed_typed post λ chain nonce. (
    priority_bid
        (record { metaflux_chain = chain; asset = asset; bid_bps = bid_bps; nonce = nonce }),
    "priority_bid",
    json_object (("asset", number asset) ∷ ("bid_bps", number bid_bps) ∷ []),
  )

  abbrev pub cancel_all_orders_typed : Option ℕ → R
  cancel_all_orders_typed asset = post_signed_typed post λ chain nonce. (
    cancel_all_orders (record {
      metaflux_chain = chain;
      owner = none;
      has_asset = (is_some asset);
      asset = (unwrap_or asset 0);
      nonce = nonce;
    }),
    "cancel_all_orders",
    elim asset [ some a ↦ json_object (("asset", number a) ∷ []) | none ↦ json_object [] ],
  )

  abbrev pub submit_encrypted_order_typed : Bytes → Bytes → ℕ → ℕ → ℕ → R
  submit_encrypted_order_typed ciphertext commitment threshold target_block reveal_deadline_ms =
      post_signed_typed post λ chain nonce. (
        submit_encrypted_order (record {
          metaflux_chain = chain;
          ciphertext = ciphertext;
          commitment = commitment;
          threshold = threshold;
          target_block = target_block;
          reveal_deadline_ms = reveal_deadline_ms;
          nonce = nonce;
        }),
        "submit_encrypted_order",
        json_object (
            ("ciphertext", numbers ciphertext)
            ∷ ("commitment", numbers commitment)
            ∷ ("threshold", number threshold)
            ∷ ("target_block", number target_block)
            ∷ ("reveal_deadline_ms", number reveal_deadline_ms)
            ∷ []),
      )

  abbrev pub rfq_request_typed : ℕ → CoreSide → ℕ → Option ℕ → ℕ → Option ℕ → R
  rfq_request_typed market side size limit_px expiry_ms stp_group =
      post_signed_typed post λ chain nonce. (
        rfq_request (record {
          metaflux_chain = chain;
          owner = none;
          market = market;
          side = (core_side_to_u8 side);
          size = size;
          has_limit_px = (is_some limit_px);
          limit_px = (unwrap_or limit_px 0);
          expiry_ms = expiry_ms;
          has_stp_group = (is_some stp_group);
          stp_group = (unwrap_or stp_group 0);
          nonce = nonce;
        }),
        "rfq_request",
        json_object (
            ("market", number market)
            ∷ ("side", string (core_side_name side))
            ∷ ("size", number size)
            ∷ ("limit_px", optional_number limit_px)
            ∷ ("expiry_ms", number expiry_ms)
            ∷ ("stp_group", optional_number stp_group)
            ∷ []),
      )

  abbrev pub rfq_accept_typed : ℕ → ℕ → ℕ → R
  rfq_accept_typed rfq_id quote_idx size = post_signed_typed post λ chain nonce. (
    rfq_accept (record {
      metaflux_chain = chain;
      owner = none;
      rfq_id = rfq_id;
      quote_idx = quote_idx;
      size = size;
      nonce = nonce;
    }),
    "rfq_accept",
    json_object
        (("rfq_id", number rfq_id) ∷ ("quote_idx", number quote_idx) ∷ ("size", number size) ∷ []),
  )

  abbrev pub fba_submit_typed : ℕ → CoreSide → ℕ → ℕ → Option ℕ → R
  fba_submit_typed market side size price stp_group = post_signed_typed post λ chain nonce. (
    fba_submit (record {
      metaflux_chain = chain;
      market = market;
      side = (core_side_to_u8 side);
      size = size;
      price = price;
      has_stp_group = (is_some stp_group);
      stp_group = (unwrap_or stp_group 0);
      nonce = nonce;
    }),
    "fba_submit",
    json_object (
        ("market", number market)
        ∷ ("side", string (core_side_name side))
        ∷ ("size", number size)
        ∷ ("price", number price)
        ∷ ("stp_group", optional_number stp_group)
        ∷ []),
  )

  abbrev pub rfq_quote_typed : ℕ → ℕ → ℕ → ℕ → Option ℕ → R
  rfq_quote_typed rfq_id price max_size valid_until_ms stp_group =
      post_signed_typed post λ chain nonce. (
        rfq_quote (record {
          metaflux_chain = chain;
          owner = none;
          rfq_id = rfq_id;
          price = price;
          max_size = max_size;
          valid_until_ms = valid_until_ms;
          has_stp_group = (is_some stp_group);
          stp_group = (unwrap_or stp_group 0);
          nonce = nonce;
        }),
        "rfq_quote",
        json_object (
            ("rfq_id", number rfq_id)
            ∷ ("price", number price)
            ∷ ("max_size", number max_size)
            ∷ ("valid_until_ms", number valid_until_ms)
            ∷ ("stp_group", optional_number stp_group)
            ∷ []),
      )

module _ {R : Type 0} (hex_encode : Bytes → String) (post : Build → R) where
  abbrev pub cancel_all_orders_as : Address → Option ℕ → R
  cancel_all_orders_as owner asset = post_signed_typed post λ chain nonce. (
    cancel_all_orders (record {
      metaflux_chain = chain;
      owner = (some owner);
      has_asset = (is_some asset);
      asset = (unwrap_or asset 0);
      nonce = nonce;
    }),
    "cancel_all_orders",
    set_field "owner" (posted_hex hex_encode owner)
        (elim asset [ some a ↦ json_object (("asset", number a) ∷ []) | none ↦ json_object [] ]),
  )

  abbrev pub rfq_request_as : Address → ℕ → CoreSide → ℕ → Option ℕ → ℕ → Option ℕ → R
  rfq_request_as owner market side size limit_px expiry_ms stp_group =
      post_signed_typed post λ chain nonce. (
        rfq_request (record {
          metaflux_chain = chain;
          owner = (some owner);
          market = market;
          side = (core_side_to_u8 side);
          size = size;
          has_limit_px = (is_some limit_px);
          limit_px = (unwrap_or limit_px 0);
          expiry_ms = expiry_ms;
          has_stp_group = (is_some stp_group);
          stp_group = (unwrap_or stp_group 0);
          nonce = nonce;
        }),
        "rfq_request",
        json_object (
            ("owner", posted_hex hex_encode owner)
            ∷ ("market", number market)
            ∷ ("side", string (core_side_name side))
            ∷ ("size", number size)
            ∷ ("limit_px", optional_number limit_px)
            ∷ ("expiry_ms", number expiry_ms)
            ∷ ("stp_group", optional_number stp_group)
            ∷ []),
      )

  abbrev pub rfq_accept_as : Address → ℕ → ℕ → ℕ → R
  rfq_accept_as owner rfq_id quote_idx size = post_signed_typed post λ chain nonce. (
    rfq_accept (record {
      metaflux_chain = chain;
      owner = (some owner);
      rfq_id = rfq_id;
      quote_idx = quote_idx;
      size = size;
      nonce = nonce;
    }),
    "rfq_accept",
    json_object (
        ("owner", posted_hex hex_encode owner)
        ∷ ("rfq_id", number rfq_id)
        ∷ ("quote_idx", number quote_idx)
        ∷ ("size", number size)
        ∷ []),
  )

  abbrev pub rfq_quote_as : Address → ℕ → ℕ → ℕ → ℕ → Option ℕ → R
  rfq_quote_as owner rfq_id price max_size valid_until_ms stp_group =
      post_signed_typed post λ chain nonce. (
        rfq_quote (record {
          metaflux_chain = chain;
          owner = (some owner);
          rfq_id = rfq_id;
          price = price;
          max_size = max_size;
          valid_until_ms = valid_until_ms;
          has_stp_group = (is_some stp_group);
          stp_group = (unwrap_or stp_group 0);
          nonce = nonce;
        }),
        "rfq_quote",
        set_field "owner" (posted_hex hex_encode owner) (
            json_object (
              ("rfq_id", number rfq_id)
              ∷ ("price", number price)
              ∷ ("max_size", number max_size)
              ∷ ("valid_until_ms", number valid_until_ms)
              ∷ ("stp_group", optional_number stp_group)
              ∷ [])),
      )
