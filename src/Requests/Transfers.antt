-- ===== src/Requests/Transfers.antt =====
-- The calls about transfers, withdrawals and the bridge to the EVM (src/rest/exchange_typed.rs).
use metaflux_client_rust.Base.{ℕ, String, [], ◌∷◌, Bool}
use metaflux_client_rust.Json.{bool, number, string}
use metaflux_client_rust.Signing.{Bytes, Address}
use metaflux_client_rust.Signing.Actions.{
  send_asset, usd_class_transfer, withdraw, bridge_withdraw, core_evm_transfer,
  send_to_evm_with_data, borrow_lend,
}
use metaflux_client_rust.Requests.{
  json_object, numbers, posted_hex, BridgeChain, mb_chain_to_u8, mb_chain_name, BorrowLendKind,
  as_u8, wire_name, Build, post_signed_typed,
}

module _ {R : Type 0} (post : Build → R) where
  abbrev pub usd_class_transfer_typed : String → Bool → R
  usd_class_transfer_typed ntl to_perp = post_signed_typed post λ chain nonce. (
    usd_class_transfer
        (record { metaflux_chain = chain; ntl = ntl; to_perp = to_perp; nonce = nonce }),
    "usd_class_transfer",
    json_object (("ntl", string ntl) ∷ ("to_perp", bool to_perp) ∷ []),
  )

  abbrev pub withdraw_typed : ℕ → String → ℕ → Bool → R
  withdraw_typed asset amount destination_chain_id use_cctp = post_signed_typed post λ chain nonce.
      (
        withdraw (record {
          metaflux_chain = chain;
          asset = asset;
          amount = amount;
          destination_chain_id = destination_chain_id;
          use_cctp = use_cctp;
          nonce = nonce;
        }),
        "withdraw",
        json_object (
            ("asset", number asset)
            ∷ ("amount", string amount)
            ∷ ("destination_chain_id", number destination_chain_id)
            ∷ ("use_cctp", bool use_cctp)
            ∷ []),
      )

  abbrev pub mb_withdraw_typed : BridgeChain → ℕ → ℕ → String → R
  mb_withdraw_typed chain asset amount dst_addr = post_signed_typed post λ meta_chain nonce. (
    bridge_withdraw (record {
      metaflux_chain = meta_chain;
      chain = (mb_chain_to_u8 chain);
      asset = asset;
      amount = amount;
      dst_addr = dst_addr;
      nonce = nonce;
    }),
    "bridge_withdraw",
    json_object (
        ("chain", string (mb_chain_name chain))
        ∷ ("asset", number asset)
        ∷ ("amount", number amount)
        ∷ ("dst_addr", string dst_addr)
        ∷ []),
  )

  abbrev pub borrow_lend_typed : BorrowLendKind → String → R
  borrow_lend_typed kind amount = post_signed_typed post λ chain nonce. (
    borrow_lend
        (record { metaflux_chain = chain; kind = (as_u8 kind); amount = amount; nonce = nonce }),
    "borrow_lend",
    json_object (("kind", string (wire_name kind)) ∷ ("amount", string amount) ∷ []),
  )

module _ {R : Type 0} (hex_encode : Bytes → String) (post : Build → R) where
  abbrev pub send_asset_typed : ℕ → ℕ → ℕ → Address → String → Bool → R
  send_asset_typed source_dex destination_dex asset destination amount to_perp =
      post_signed_typed post λ chain nonce. (
        send_asset (record {
          metaflux_chain = chain;
          source_dex = source_dex;
          destination_dex = destination_dex;
          asset = asset;
          destination = destination;
          amount = amount;
          to_perp = to_perp;
          nonce = nonce;
        }),
        "send_asset",
        json_object (
            ("source_dex", number source_dex)
            ∷ ("destination_dex", number destination_dex)
            ∷ ("asset", number asset)
            ∷ ("destination", posted_hex hex_encode destination)
            ∷ ("amount", string amount)
            ∷ ("to_perp", bool to_perp)
            ∷ []),
      )

  abbrev pub core_evm_transfer_typed : String → Bool → Address → ℕ → R
  core_evm_transfer_typed amount to_evm destination asset = post_signed_typed post λ chain nonce. (
    core_evm_transfer (record {
      metaflux_chain = chain;
      amount = amount;
      to_evm = to_evm;
      destination = destination;
      asset = asset;
      nonce = nonce;
    }),
    "core_evm_transfer",
    json_object (
        ("amount", string amount)
        ∷ ("to_evm", bool to_evm)
        ∷ ("destination", posted_hex hex_encode destination)
        ∷ ("asset", number asset)
        ∷ []),
  )

  abbrev pub send_to_evm_with_data_typed : ℕ → String → ℕ → Address → Bool → ℕ → Bytes → ℕ → R
  send_to_evm_with_data_typed token amount source_dex destination_recipient to_perp
        destination_chain_id payload transfer_nonce =
      post_signed_typed post λ chain nonce. (
        send_to_evm_with_data (record {
          metaflux_chain = chain;
          token = token;
          amount = amount;
          source_dex = source_dex;
          destination_recipient = destination_recipient;
          to_perp = to_perp;
          destination_chain_id = destination_chain_id;
          payload = payload;
          transfer_nonce = transfer_nonce;
          nonce = nonce;
        }),
        "send_to_evm_with_data",
        json_object (
            ("token", number token)
            ∷ ("amount", string amount)
            ∷ ("source_dex", number source_dex)
            ∷ ("destination_recipient", posted_hex hex_encode destination_recipient)
            ∷ ("to_perp", bool to_perp)
            ∷ ("destination_chain_id", number destination_chain_id)
            ∷ ("data", numbers payload)
            ∷ ("nonce", number transfer_nonce)
            ∷ []),
      )
