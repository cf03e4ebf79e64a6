-- ===== src/Signing/Actions/Transfers.antt =====
-- The signed actions about transfers, withdrawals and the bridge to the EVM
-- (src/wallet/typed.rs: variants of `TypedAction`, arms of `encode_data`, type strings).
use metaflux_client_rust.Base.{ℕ, String, List, [], ◌∷◌, Bool}
use metaflux_client_rust.Signing.{
  Bytes, Address, Field, field, uint64, uint32, uint8, boolean, address, utf8_string, octets,
}

abbrev pub send_asset_type : String
send_asset_type =
    "MetaFluxTransaction:SendAsset(string metafluxChain,uint32 sourceDex,uint32 destinationDex,uint32 asset,address destination,string amount,bool toPerp,uint64 nonce)"

pub record SendAsset : Type 0 where
  pub metaflux_chain : String
  pub source_dex : ℕ
  pub destination_dex : ℕ
  pub asset : ℕ
  pub destination : Address
  pub amount : String
  pub to_perp : Bool
  pub nonce : ℕ

abbrev pub send_asset_data : SendAsset → List Field
send_asset_data a =
    field utf8_string a.metaflux_chain
    ∷ field uint32 a.source_dex
    ∷ field uint32 a.destination_dex
    ∷ field uint32 a.asset
    ∷ field address a.destination
    ∷ field utf8_string a.amount
    ∷ field boolean a.to_perp
    ∷ field uint64 a.nonce
    ∷ []

abbrev pub usd_class_transfer_type : String
usd_class_transfer_type =
    "MetaFluxTransaction:UsdClassTransfer(string metafluxChain,string ntl,bool toPerp,uint64 nonce)"

pub record UsdClassTransfer : Type 0 where
  pub metaflux_chain : String
  pub ntl : String
  pub to_perp : Bool
  pub nonce : ℕ

abbrev pub usd_class_transfer_data : UsdClassTransfer → List Field
usd_class_transfer_data a =
    field utf8_string a.metaflux_chain
    ∷ field utf8_string a.ntl
    ∷ field boolean a.to_perp
    ∷ field uint64 a.nonce
    ∷ []

abbrev pub withdraw_type : String
withdraw_type =
    "MetaFluxTransaction:Withdraw(string metafluxChain,uint32 asset,string amount,uint32 destinationChainId,bool useCctp,uint64 nonce)"

pub record Withdraw : Type 0 where
  pub metaflux_chain : String
  pub asset : ℕ
  pub amount : String
  pub destination_chain_id : ℕ
  pub use_cctp : Bool
  pub nonce : ℕ

abbrev pub withdraw_data : Withdraw → List Field
withdraw_data a =
    field utf8_string a.metaflux_chain
    ∷ field uint32 a.asset
    ∷ field utf8_string a.amount
    ∷ field uint32 a.destination_chain_id
    ∷ field boolean a.use_cctp
    ∷ field uint64 a.nonce
    ∷ []

abbrev pub mb_withdraw_type : String
mb_withdraw_type =
    "MetaFluxTransaction:BridgeWithdraw(string metafluxChain,uint8 chain,uint32 asset,uint64 amount,string dstAddr,uint64 nonce)"

pub record BridgeWithdraw : Type 0 where
  pub metaflux_chain : String
  pub chain : ℕ
  pub asset : ℕ
  pub amount : ℕ
  pub dst_addr : String
  pub nonce : ℕ

abbrev pub bridge_withdraw_data : BridgeWithdraw → List Field
bridge_withdraw_data a =
    field utf8_string a.metaflux_chain
    ∷ field uint8 a.chain
    ∷ field uint32 a.asset
    ∷ field uint64 a.amount
    ∷ field utf8_string a.dst_addr
    ∷ field uint64 a.nonce
    ∷ []

abbrev pub core_evm_transfer_type : String
core_evm_transfer_type =
    "MetaFluxTransaction:CoreEvmTransfer(string metafluxChain,string amount,bool toEvm,address destination,uint32 asset,uint64 nonce)"

pub record CoreEvmTransfer : Type 0 where
  pub metaflux_chain : String
  pub amount : String
  pub to_evm : Bool
  pub destination : Address
  pub asset : ℕ
  pub nonce : ℕ

abbrev pub core_evm_transfer_words : String → String → Bool → Address → ℕ → ℕ → List Field
core_evm_transfer_words chain amount to_evm destination asset nonce =
    field utf8_string chain
    ∷ field utf8_string amount
    ∷ field boolean to_evm
    ∷ field address destination
    ∷ field uint32 asset
    ∷ field uint64 nonce
    ∷ []

abbrev pub core_evm_transfer_data : CoreEvmTransfer → List Field
core_evm_transfer_data a =
    core_evm_transfer_words a.metaflux_chain a.amount a.to_evm a.destination a.asset a.nonce

abbrev pub core_evm_transfer_v2_type : String
core_evm_transfer_v2_type =
    "MetaFluxTransaction:CoreEvmTransferV2(string metafluxChain,string amount,bool toEvm,address destination,uint32 asset,uint32 destinationChainId,bytes data,uint64 nonce)"

pub record CoreEvmTransferV2 : Type 0 where
  pub metaflux_chain : String
  pub amount : String
  pub to_evm : Bool
  pub destination : Address
  pub asset : ℕ
  pub destination_chain_id : ℕ
  pub payload : Bytes
  pub nonce : ℕ

abbrev pub core_evm_transfer_v2_words :
    String → String → Bool → Address → ℕ → ℕ → Bytes → ℕ → List Field
core_evm_transfer_v2_words chain amount to_evm destination asset destination_chain_id payload
      nonce =
    field utf8_string chain
    ∷ field utf8_string amount
    ∷ field boolean to_evm
    ∷ field address destination
    ∷ field uint32 asset
    ∷ field uint32 destination_chain_id
    ∷ field octets payload
    ∷ field uint64 nonce
    ∷ []

abbrev pub core_evm_transfer_v2_data : CoreEvmTransferV2 → List Field
core_evm_transfer_v2_data a =
    core_evm_transfer_v2_words a.metaflux_chain a.amount a.to_evm a.destination a.asset
      a.destination_chain_id a.payload a.nonce

abbrev pub send_to_evm_with_data_type : String
send_to_evm_with_data_type =
    "MetaFluxTransaction:SendToEvmWithData(string metafluxChain,uint32 token,string amount,uint32 sourceDex,address destinationRecipient,bool toPerp,uint32 destinationChainId,bytes data,uint64 transferNonce,uint64 nonce)"

pub record SendToEvmWithData : Type 0 where
  pub metaflux_chain : String
  pub token : ℕ
  pub amount : String
  pub source_dex : ℕ
  pub destination_recipient : Address
  pub to_perp : Bool
  pub destination_chain_id : ℕ
  pub payload : Bytes
  pub transfer_nonce : ℕ
  pub nonce : ℕ

abbrev pub send_to_evm_with_data_words :
    String → ℕ → String → ℕ → Address → Bool → ℕ → Bytes → ℕ → ℕ → List Field
send_to_evm_with_data_words chain token amount source_dex destination_recipient to_perp
      destination_chain_id payload transfer_nonce nonce =
    field utf8_string chain
    ∷ field uint32 token
    ∷ field utf8_string amount
    ∷ field uint32 source_dex
    ∷ field address destination_recipient
    ∷ field boolean to_perp
    ∷ field uint32 destination_chain_id
    ∷ field octets payload
    ∷ field uint64 transfer_nonce
    ∷ field uint64 nonce
    ∷ []

abbrev pub send_to_evm_with_data_data : SendToEvmWithData → List Field
send_to_evm_with_data_data a =
    send_to_evm_with_data_words a.metaflux_chain a.token a.amount a.source_dex
      a.destination_recipient a.to_perp a.destination_chain_id a.payload a.transfer_nonce a.nonce

abbrev pub borrow_lend_type : String
borrow_lend_type =
    "MetaFluxTransaction:BorrowLend(string metafluxChain,uint8 kind,string amount,uint64 nonce)"

pub record BorrowLend : Type 0 where
  pub metaflux_chain : String
  pub kind : ℕ
  pub amount : String
  pub nonce : ℕ

abbrev pub borrow_lend_data : BorrowLend → List Field
borrow_lend_data a =
    field utf8_string a.metaflux_chain
    ∷ field uint8 a.kind
    ∷ field utf8_string a.amount
    ∷ field uint64 a.nonce
    ∷ []
