-- ===== src/Signing/Read/Requests.antt =====
-- The signed actions about requests for quotes, batch auctions, encrypted orders and cancel-all, read back from their members.
use metaflux_client_rust.Base.{List, [], ◌∷◌, Option, none, some}
use metaflux_client_rust.Signing.{
  Field, field, uint64, uint32, uint16, uint8, boolean, address, utf8_string, octets, bytes32,
}
use metaflux_client_rust.Signing.Actions.{
  TypedAction, priority_bid, cancel_all_orders, submit_encrypted_order, rfq_request, rfq_accept,
  rfq_quote, fba_submit,
}

abbrev pub read_priority_bid : List Field → Option TypedAction
read_priority_bid
      (field utf8_string metaflux_chain
        ∷ field uint32 asset
        ∷ field uint16 bid_bps
        ∷ field uint64 nonce
        ∷ []) =
    some (
      priority_bid (record {
        metaflux_chain = metaflux_chain;
        asset = asset;
        bid_bps = bid_bps;
        nonce = nonce;
      }))
read_priority_bid _ = none

abbrev pub read_cancel_all_orders : List Field → Option TypedAction
read_cancel_all_orders
      (field utf8_string metaflux_chain
        ∷ field boolean has_asset
        ∷ field uint32 asset
        ∷ field uint64 nonce
        ∷ []) =
    some (
      cancel_all_orders (record {
        metaflux_chain = metaflux_chain;
        owner = none;
        has_asset = has_asset;
        asset = asset;
        nonce = nonce;
      }))
read_cancel_all_orders _ = none

abbrev pub read_cancel_all_orders_with_owner : List Field → Option TypedAction
read_cancel_all_orders_with_owner
      (field utf8_string metaflux_chain
        ∷ field address owner
        ∷ field boolean has_asset
        ∷ field uint32 asset
        ∷ field uint64 nonce
        ∷ []) =
    some (
      cancel_all_orders (record {
        metaflux_chain = metaflux_chain;
        owner = some owner;
        has_asset = has_asset;
        asset = asset;
        nonce = nonce;
      }))
read_cancel_all_orders_with_owner _ = none

abbrev pub read_submit_encrypted_order : List Field → Option TypedAction
read_submit_encrypted_order
      (field utf8_string metaflux_chain
        ∷ field octets ciphertext
        ∷ field bytes32 commitment
        ∷ field uint8 threshold
        ∷ field uint64 target_block
        ∷ field uint64 reveal_deadline_ms
        ∷ field uint64 nonce
        ∷ []) =
    some (
      submit_encrypted_order (record {
        metaflux_chain = metaflux_chain;
        ciphertext = ciphertext;
        commitment = commitment;
        threshold = threshold;
        target_block = target_block;
        reveal_deadline_ms = reveal_deadline_ms;
        nonce = nonce;
      }))
read_submit_encrypted_order _ = none

abbrev pub read_rfq_request : List Field → Option TypedAction
read_rfq_request
      (field utf8_string metaflux_chain
        ∷ field uint32 market
        ∷ field uint8 side
        ∷ field uint64 size
        ∷ field boolean has_limit_px
        ∷ field uint64 limit_px
        ∷ field uint64 expiry_ms
        ∷ field boolean has_stp_group
        ∷ field uint64 stp_group
        ∷ field uint64 nonce
        ∷ []) =
    some (
      rfq_request (record {
        metaflux_chain = metaflux_chain;
        owner = none;
        market = market;
        side = side;
        size = size;
        has_limit_px = has_limit_px;
        limit_px = limit_px;
        expiry_ms = expiry_ms;
        has_stp_group = has_stp_group;
        stp_group = stp_group;
        nonce = nonce;
      }))
read_rfq_request _ = none

abbrev pub read_rfq_request_with_owner : List Field → Option TypedAction
read_rfq_request_with_owner
      (field utf8_string metaflux_chain
        ∷ field address owner
        ∷ field uint32 market
        ∷ field uint8 side
        ∷ field uint64 size
        ∷ field boolean has_limit_px
        ∷ field uint64 limit_px
        ∷ field uint64 expiry_ms
        ∷ field boolean has_stp_group
        ∷ field uint64 stp_group
        ∷ field uint64 nonce
        ∷ []) =
    some (
      rfq_request (record {
        metaflux_chain = metaflux_chain;
        owner = some owner;
        market = market;
        side = side;
        size = size;
        has_limit_px = has_limit_px;
        limit_px = limit_px;
        expiry_ms = expiry_ms;
        has_stp_group = has_stp_group;
        stp_group = stp_group;
        nonce = nonce;
      }))
read_rfq_request_with_owner _ = none

abbrev pub read_rfq_accept : List Field → Option TypedAction
read_rfq_accept
      (field utf8_string metaflux_chain
        ∷ field uint64 rfq_id
        ∷ field uint32 quote_idx
        ∷ field uint64 size
        ∷ field uint64 nonce
        ∷ []) =
    some (
      rfq_accept (record {
        metaflux_chain = metaflux_chain;
        owner = none;
        rfq_id = rfq_id;
        quote_idx = quote_idx;
        size = size;
        nonce = nonce;
      }))
read_rfq_accept _ = none

abbrev pub read_rfq_accept_with_owner : List Field → Option TypedAction
read_rfq_accept_with_owner
      (field utf8_string metaflux_chain
        ∷ field address owner
        ∷ field uint64 rfq_id
        ∷ field uint32 quote_idx
        ∷ field uint64 size
        ∷ field uint64 nonce
        ∷ []) =
    some (
      rfq_accept (record {
        metaflux_chain = metaflux_chain;
        owner = some owner;
        rfq_id = rfq_id;
        quote_idx = quote_idx;
        size = size;
        nonce = nonce;
      }))
read_rfq_accept_with_owner _ = none

abbrev pub read_rfq_quote : List Field → Option TypedAction
read_rfq_quote
      (field utf8_string metaflux_chain
        ∷ field uint64 rfq_id
        ∷ field uint64 price
        ∷ field uint64 max_size
        ∷ field uint64 valid_until_ms
        ∷ field boolean has_stp_group
        ∷ field uint64 stp_group
        ∷ field uint64 nonce
        ∷ []) =
    some (
      rfq_quote (record {
        metaflux_chain = metaflux_chain;
        owner = none;
        rfq_id = rfq_id;
        price = price;
        max_size = max_size;
        valid_until_ms = valid_until_ms;
        has_stp_group = has_stp_group;
        stp_group = stp_group;
        nonce = nonce;
      }))
read_rfq_quote _ = none

abbrev pub read_rfq_quote_with_owner : List Field → Option TypedAction
read_rfq_quote_with_owner
      (field utf8_string metaflux_chain
        ∷ field address owner
        ∷ field uint64 rfq_id
        ∷ field uint64 price
        ∷ field uint64 max_size
        ∷ field uint64 valid_until_ms
        ∷ field boolean has_stp_group
        ∷ field uint64 stp_group
        ∷ field uint64 nonce
        ∷ []) =
    some (
      rfq_quote (record {
        metaflux_chain = metaflux_chain;
        owner = some owner;
        rfq_id = rfq_id;
        price = price;
        max_size = max_size;
        valid_until_ms = valid_until_ms;
        has_stp_group = has_stp_group;
        stp_group = stp_group;
        nonce = nonce;
      }))
read_rfq_quote_with_owner _ = none

abbrev pub read_fba_submit : List Field → Option TypedAction
read_fba_submit
      (field utf8_string metaflux_chain
        ∷ field uint32 market
        ∷ field uint8 side
        ∷ field uint64 size
        ∷ field uint64 price
        ∷ field boolean has_stp_group
        ∷ field uint64 stp_group
        ∷ field uint64 nonce
        ∷ []) =
    some (
      fba_submit (record {
        metaflux_chain = metaflux_chain;
        market = market;
        side = side;
        size = size;
        price = price;
        has_stp_group = has_stp_group;
        stp_group = stp_group;
        nonce = nonce;
      }))
read_fba_submit _ = none
