-- ===== src/Signing/Read/Transfers.antt =====
-- The signed actions about transfers, withdrawals and the bridge to the EVM, read back from their members.
use metaflux_client_rust.Base.{List, [], ◌∷◌, Option, none, some}
use metaflux_client_rust.Signing.{
  Field, field, uint64, uint32, uint8, boolean, address, utf8_string, octets,
}
use metaflux_client_rust.Signing.Actions.{
  TypedAction, send_asset, usd_class_transfer, withdraw, bridge_withdraw, core_evm_transfer,
  core_evm_transfer_v2, send_to_evm_with_data, borrow_lend,
}

abbrev pub read_send_asset : List Field → Option TypedAction
read_send_asset
      (field utf8_string metaflux_chain
        ∷ field uint32 source_dex
        ∷ field uint32 destination_dex
        ∷ field uint32 asset
        ∷ field address destination
        ∷ field utf8_string amount
        ∷ field boolean to_perp
        ∷ field uint64 nonce
        ∷ []) =
    some (
      send_asset (record {
        metaflux_chain = metaflux_chain;
        source_dex = source_dex;
        destination_dex = destination_dex;
        asset = asset;
        destination = destination;
        amount = amount;
        to_perp = to_perp;
        nonce = nonce;
      }))
read_send_asset _ = none

abbrev pub read_usd_class_transfer : List Field → Option TypedAction
read_usd_class_transfer
      (field utf8_string metaflux_chain
        ∷ field utf8_string ntl
        ∷ field boolean to_perp
        ∷ field uint64 nonce
        ∷ []) =
    some (
      usd_class_transfer
        (record { metaflux_chain = metaflux_chain; ntl = ntl; to_perp = to_perp; nonce = nonce }))
read_usd_class_transfer _ = none

abbrev pub read_withdraw : List Field → Option TypedAction
read_withdraw
      (field utf8_string metaflux_chain
        ∷ field uint32 asset
        ∷ field utf8_string amount
        ∷ field uint32 destination_chain_id
        ∷ field boolean use_cctp
        ∷ field uint64 nonce
        ∷ []) =
    some (
      withdraw (record {
        metaflux_chain = metaflux_chain;
        asset = asset;
        amount = amount;
        destination_chain_id = destination_chain_id;
        use_cctp = use_cctp;
        nonce = nonce;
      }))
read_withdraw _ = none

abbrev pub read_bridge_withdraw : List Field → Option TypedAction
read_bridge_withdraw
      (field utf8_string metaflux_chain
        ∷ field uint8 chain
        ∷ field uint32 asset
        ∷ field uint64 amount
        ∷ field utf8_string dst_addr
        ∷ field uint64 nonce
        ∷ []) =
    some (
      bridge_withdraw (record {
        metaflux_chain = metaflux_chain;
        chain = chain;
        asset = asset;
        amount = amount;
        dst_addr = dst_addr;
        nonce = nonce;
      }))
read_bridge_withdraw _ = none

abbrev pub read_core_evm_transfer : List Field → Option TypedAction
read_core_evm_transfer
      (field utf8_string metaflux_chain
        ∷ field utf8_string amount
        ∷ field boolean to_evm
        ∷ field address destination
        ∷ field uint32 asset
        ∷ field uint64 nonce
        ∷ []) =
    some (
      core_evm_transfer (record {
        metaflux_chain = metaflux_chain;
        amount = amount;
        to_evm = to_evm;
        destination = destination;
        asset = asset;
        nonce = nonce;
      }))
read_core_evm_transfer _ = none

abbrev pub read_core_evm_transfer_v2 : List Field → Option TypedAction
read_core_evm_transfer_v2
      (field utf8_string metaflux_chain
        ∷ field utf8_string amount
        ∷ field boolean to_evm
        ∷ field address destination
        ∷ field uint32 asset
        ∷ field uint32 destination_chain_id
        ∷ field octets payload
        ∷ field uint64 nonce
        ∷ []) =
    some (
      core_evm_transfer_v2 (record {
        metaflux_chain = metaflux_chain;
        amount = amount;
        to_evm = to_evm;
        destination = destination;
        asset = asset;
        destination_chain_id = destination_chain_id;
        payload = payload;
        nonce = nonce;
      }))
read_core_evm_transfer_v2 _ = none

abbrev pub read_send_to_evm_with_data : List Field → Option TypedAction
read_send_to_evm_with_data
      (field utf8_string metaflux_chain
        ∷ field uint32 token
        ∷ field utf8_string amount
        ∷ field uint32 source_dex
        ∷ field address destination_recipient
        ∷ field boolean to_perp
        ∷ field uint32 destination_chain_id
        ∷ field octets payload
        ∷ field uint64 transfer_nonce
        ∷ field uint64 nonce
        ∷ []) =
    some (
      send_to_evm_with_data (record {
        metaflux_chain = metaflux_chain;
        token = token;
        amount = amount;
        source_dex = source_dex;
        destination_recipient = destination_recipient;
        to_perp = to_perp;
        destination_chain_id = destination_chain_id;
        payload = payload;
        transfer_nonce = transfer_nonce;
        nonce = nonce;
      }))
read_send_to_evm_with_data _ = none

abbrev pub read_borrow_lend : List Field → Option TypedAction
read_borrow_lend
      (field utf8_string metaflux_chain
        ∷ field uint8 kind
        ∷ field utf8_string amount
        ∷ field uint64 nonce
        ∷ []) =
    some (
      borrow_lend
        (record { metaflux_chain = metaflux_chain; kind = kind; amount = amount; nonce = nonce }))
read_borrow_lend _ = none
