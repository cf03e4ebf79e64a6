-- ===== src/Signing/Read/Margin.antt =====
-- The signed actions about leverage, isolated margin and spot margin, read back from their members.
use metaflux_client_rust.Base.{List, [], ◌∷◌, Option, none, some}
use metaflux_client_rust.Signing.{Field, field, uint64, uint32, boolean, address, utf8_string}
use metaflux_client_rust.Signing.Actions.{
  TypedAction, update_leverage, update_isolated_margin, top_up_isolated_only_margin,
  spot_margin_deposit, spot_margin_withdraw, spot_margin_open, spot_margin_close,
}

abbrev pub read_update_leverage : List Field → Option TypedAction
read_update_leverage
      (field utf8_string metaflux_chain
        ∷ field uint32 asset
        ∷ field uint32 leverage
        ∷ field boolean is_isolated
        ∷ field uint64 nonce
        ∷ []) =
    some (
      update_leverage (record {
        metaflux_chain = metaflux_chain;
        owner = none;
        asset = asset;
        leverage = leverage;
        is_isolated = is_isolated;
        nonce = nonce;
      }))
read_update_leverage _ = none

abbrev pub read_update_leverage_with_owner : List Field → Option TypedAction
read_update_leverage_with_owner
      (field utf8_string metaflux_chain
        ∷ field address owner
        ∷ field uint32 asset
        ∷ field uint32 leverage
        ∷ field boolean is_isolated
        ∷ field uint64 nonce
        ∷ []) =
    some (
      update_leverage (record {
        metaflux_chain = metaflux_chain;
        owner = some owner;
        asset = asset;
        leverage = leverage;
        is_isolated = is_isolated;
        nonce = nonce;
      }))
read_update_leverage_with_owner _ = none

abbrev pub read_update_isolated_margin : List Field → Option TypedAction
read_update_isolated_margin
      (field utf8_string metaflux_chain
        ∷ field uint32 asset
        ∷ field utf8_string delta
        ∷ field uint64 nonce
        ∷ []) =
    some (
      update_isolated_margin (record {
        metaflux_chain = metaflux_chain;
        owner = none;
        asset = asset;
        delta = delta;
        nonce = nonce;
      }))
read_update_isolated_margin _ = none

abbrev pub read_update_isolated_margin_with_owner : List Field → Option TypedAction
read_update_isolated_margin_with_owner
      (field utf8_string metaflux_chain
        ∷ field address owner
        ∷ field uint32 asset
        ∷ field utf8_string delta
        ∷ field uint64 nonce
        ∷ []) =
    some (
      update_isolated_margin (record {
        metaflux_chain = metaflux_chain;
        owner = some owner;
        asset = asset;
        delta = delta;
        nonce = nonce;
      }))
read_update_isolated_margin_with_owner _ = none

abbrev pub read_top_up_isolated_only_margin : List Field → Option TypedAction
read_top_up_isolated_only_margin
      (field utf8_string metaflux_chain
        ∷ field uint32 asset
        ∷ field utf8_string amount
        ∷ field uint64 nonce
        ∷ []) =
    some (
      top_up_isolated_only_margin (record {
        metaflux_chain = metaflux_chain;
        owner = none;
        asset = asset;
        amount = amount;
        nonce = nonce;
      }))
read_top_up_isolated_only_margin _ = none

abbrev pub read_top_up_isolated_only_margin_with_owner : List Field → Option TypedAction
read_top_up_isolated_only_margin_with_owner
      (field utf8_string metaflux_chain
        ∷ field address owner
        ∷ field uint32 asset
        ∷ field utf8_string amount
        ∷ field uint64 nonce
        ∷ []) =
    some (
      top_up_isolated_only_margin (record {
        metaflux_chain = metaflux_chain;
        owner = some owner;
        asset = asset;
        amount = amount;
        nonce = nonce;
      }))
read_top_up_isolated_only_margin_with_owner _ = none

abbrev pub read_spot_margin_deposit : List Field → Option TypedAction
read_spot_margin_deposit
      (field utf8_string metaflux_chain
        ∷ field uint32 pair
        ∷ field utf8_string amount
        ∷ field uint64 nonce
        ∷ []) =
    some (
      spot_margin_deposit
        (record { metaflux_chain = metaflux_chain; pair = pair; amount = amount; nonce = nonce }))
read_spot_margin_deposit _ = none

abbrev pub read_spot_margin_withdraw : List Field → Option TypedAction
read_spot_margin_withdraw
      (field utf8_string metaflux_chain
        ∷ field uint32 pair
        ∷ field utf8_string amount
        ∷ field uint64 nonce
        ∷ []) =
    some (
      spot_margin_withdraw
        (record { metaflux_chain = metaflux_chain; pair = pair; amount = amount; nonce = nonce }))
read_spot_margin_withdraw _ = none

abbrev pub read_spot_margin_open : List Field → Option TypedAction
read_spot_margin_open
      (field utf8_string metaflux_chain
        ∷ field uint32 pair
        ∷ field uint64 size
        ∷ field uint64 limit_px
        ∷ field utf8_string borrow
        ∷ field uint64 nonce
        ∷ []) =
    some (
      spot_margin_open (record {
        metaflux_chain = metaflux_chain;
        pair = pair;
        size = size;
        limit_px = limit_px;
        borrow = borrow;
        nonce = nonce;
      }))
read_spot_margin_open _ = none

abbrev pub read_spot_margin_close : List Field → Option TypedAction
read_spot_margin_close
      (field utf8_string metaflux_chain
        ∷ field uint32 pair
        ∷ field uint64 limit_px
        ∷ field uint64 nonce
        ∷ []) =
    some (
      spot_margin_close (record {
        metaflux_chain = metaflux_chain;
        pair = pair;
        limit_px = limit_px;
        nonce = nonce;
      }))
read_spot_margin_close _ = none
