-- ===== src/Signing/Actions/Requests.antt =====
-- The signed actions about requests for quotes, batch auctions, encrypted orders and cancel-all
-- (src/wallet/typed.rs: variants of `TypedAction`, arms of `encode_data`, type strings).
use metaflux_client_rust.Base.{ℕ, String, List, [], ◌∷◌, Bool, Option, none, some}
use metaflux_client_rust.Signing.{
  Bytes, Address, Field, field, uint64, uint32, uint16, uint8, boolean, address, utf8_string,
  octets, bytes32,
}

abbrev pub priority_bid_type : String
priority_bid_type =
    "MetaFluxTransaction:PriorityBid(string metafluxChain,uint32 asset,uint16 bidBps,uint64 nonce)"

pub record PriorityBid : Type 0 where
  pub metaflux_chain : String
  pub asset : ℕ
  pub bid_bps : ℕ
  pub nonce : ℕ

abbrev pub priority_bid_words : String → ℕ → ℕ → ℕ → List Field
priority_bid_words chain asset bid_bps nonce =
    field utf8_string chain ∷ field uint32 asset ∷ field uint16 bid_bps ∷ field uint64 nonce ∷ []

abbrev pub priority_bid_data : PriorityBid → List Field
priority_bid_data a = priority_bid_words a.metaflux_chain a.asset a.bid_bps a.nonce

abbrev pub cancel_all_orders_type : String
cancel_all_orders_type =
    "MetaFluxTransaction:CancelAllOrders(string metafluxChain,bool hasAsset,uint32 asset,uint64 nonce)"

abbrev pub cancel_all_orders_with_owner_type : String
cancel_all_orders_with_owner_type =
    "MetaFluxTransaction:CancelAllOrders(string metafluxChain,address owner,bool hasAsset,uint32 asset,uint64 nonce)"

pub record CancelAllOrders : Type 0 where
  pub metaflux_chain : String
  pub owner : Option Address
  pub has_asset : Bool
  pub asset : ℕ
  pub nonce : ℕ

abbrev pub cancel_all_orders_words : String → Bool → ℕ → ℕ → List Field
cancel_all_orders_words chain has_asset asset nonce =
    field utf8_string chain ∷ field boolean has_asset ∷ field uint32 asset ∷ field uint64 nonce ∷ []

abbrev pub cancel_all_orders_words_with_owner : String → Address → Bool → ℕ → ℕ → List Field
cancel_all_orders_words_with_owner chain owner has_asset asset nonce =
    field utf8_string chain
    ∷ field address owner
    ∷ field boolean has_asset
    ∷ field uint32 asset
    ∷ field uint64 nonce
    ∷ []

abbrev pub cancel_all_orders_data : CancelAllOrders → List Field
cancel_all_orders_data a = elim a.owner [
  | some o ↦ cancel_all_orders_words_with_owner a.metaflux_chain o a.has_asset a.asset a.nonce
  | none ↦ cancel_all_orders_words a.metaflux_chain a.has_asset a.asset a.nonce
]

abbrev pub submit_encrypted_order_type : String
submit_encrypted_order_type =
    "MetaFluxTransaction:SubmitEncryptedOrder(string metafluxChain,bytes ciphertext,bytes32 commitment,uint8 threshold,uint64 targetBlock,uint64 revealDeadlineMs,uint64 nonce)"

pub record SubmitEncryptedOrder : Type 0 where
  pub metaflux_chain : String
  pub ciphertext : Bytes
  pub commitment : Bytes
  pub threshold : ℕ
  pub target_block : ℕ
  pub reveal_deadline_ms : ℕ
  pub nonce : ℕ

abbrev pub submit_encrypted_order_words : String → Bytes → Bytes → ℕ → ℕ → ℕ → ℕ → List Field
submit_encrypted_order_words chain ciphertext commitment threshold target_block reveal_deadline_ms
      nonce =
    field utf8_string chain
    ∷ field octets ciphertext
    ∷ field bytes32 commitment
    ∷ field uint8 threshold
    ∷ field uint64 target_block
    ∷ field uint64 reveal_deadline_ms
    ∷ field uint64 nonce
    ∷ []

abbrev pub submit_encrypted_order_data : SubmitEncryptedOrder → List Field
submit_encrypted_order_data a =
    submit_encrypted_order_words a.metaflux_chain a.ciphertext a.commitment a.threshold
      a.target_block a.reveal_deadline_ms a.nonce

abbrev pub rfq_request_type : String
rfq_request_type =
    "MetaFluxTransaction:RfqRequest(string metafluxChain,uint32 market,uint8 side,uint64 size,bool hasLimitPx,uint64 limitPx,uint64 expiryMs,bool hasStpGroup,uint64 stpGroup,uint64 nonce)"

abbrev pub rfq_request_with_owner_type : String
rfq_request_with_owner_type =
    "MetaFluxTransaction:RfqRequest(string metafluxChain,address owner,uint32 market,uint8 side,uint64 size,bool hasLimitPx,uint64 limitPx,uint64 expiryMs,bool hasStpGroup,uint64 stpGroup,uint64 nonce)"

pub record RfqRequest : Type 0 where
  pub metaflux_chain : String
  pub owner : Option Address
  pub market : ℕ
  pub side : ℕ
  pub size : ℕ
  pub has_limit_px : Bool
  pub limit_px : ℕ
  pub expiry_ms : ℕ
  pub has_stp_group : Bool
  pub stp_group : ℕ
  pub nonce : ℕ

abbrev pub rfq_request_words : String → ℕ → ℕ → ℕ → Bool → ℕ → ℕ → Bool → ℕ → ℕ → List Field
rfq_request_words chain market side size has_limit_px limit_px expiry_ms has_stp_group stp_group
      nonce =
    field utf8_string chain
    ∷ field uint32 market
    ∷ field uint8 side
    ∷ field uint64 size
    ∷ field boolean has_limit_px
    ∷ field uint64 limit_px
    ∷ field uint64 expiry_ms
    ∷ field boolean has_stp_group
    ∷ field uint64 stp_group
    ∷ field uint64 nonce
    ∷ []

abbrev pub rfq_request_words_with_owner :
    String → Address → ℕ → ℕ → ℕ → Bool → ℕ → ℕ → Bool → ℕ → ℕ → List Field
rfq_request_words_with_owner chain owner market side size has_limit_px limit_px expiry_ms
      has_stp_group stp_group nonce =
    field utf8_string chain
    ∷ field address owner
    ∷ field uint32 market
    ∷ field uint8 side
    ∷ field uint64 size
    ∷ field boolean has_limit_px
    ∷ field uint64 limit_px
    ∷ field uint64 expiry_ms
    ∷ field boolean has_stp_group
    ∷ field uint64 stp_group
    ∷ field uint64 nonce
    ∷ []

abbrev pub rfq_request_data : RfqRequest → List Field
rfq_request_data a = elim a.owner [
  | some o ↦
      rfq_request_words_with_owner a.metaflux_chain o a.market a.side a.size a.has_limit_px
        a.limit_px a.expiry_ms a.has_stp_group a.stp_group a.nonce
  | none ↦
      rfq_request_words a.metaflux_chain a.market a.side a.size a.has_limit_px a.limit_px
        a.expiry_ms a.has_stp_group a.stp_group a.nonce
]

abbrev pub rfq_accept_type : String
rfq_accept_type =
    "MetaFluxTransaction:RfqAccept(string metafluxChain,uint64 rfqId,uint32 quoteIdx,uint64 size,uint64 nonce)"

abbrev pub rfq_accept_with_owner_type : String
rfq_accept_with_owner_type =
    "MetaFluxTransaction:RfqAccept(string metafluxChain,address owner,uint64 rfqId,uint32 quoteIdx,uint64 size,uint64 nonce)"

pub record RfqAccept : Type 0 where
  pub metaflux_chain : String
  pub owner : Option Address
  pub rfq_id : ℕ
  pub quote_idx : ℕ
  pub size : ℕ
  pub nonce : ℕ

abbrev pub rfq_accept_words : String → ℕ → ℕ → ℕ → ℕ → List Field
rfq_accept_words chain rfq_id quote_idx size nonce =
    field utf8_string chain
    ∷ field uint64 rfq_id
    ∷ field uint32 quote_idx
    ∷ field uint64 size
    ∷ field uint64 nonce
    ∷ []

abbrev pub rfq_accept_words_with_owner : String → Address → ℕ → ℕ → ℕ → ℕ → List Field
rfq_accept_words_with_owner chain owner rfq_id quote_idx size nonce =
    field utf8_string chain
    ∷ field address owner
    ∷ field uint64 rfq_id
    ∷ field uint32 quote_idx
    ∷ field uint64 size
    ∷ field uint64 nonce
    ∷ []

abbrev pub rfq_accept_data : RfqAccept → List Field
rfq_accept_data a = elim a.owner [
  | some o ↦ rfq_accept_words_with_owner a.metaflux_chain o a.rfq_id a.quote_idx a.size a.nonce
  | none ↦ rfq_accept_words a.metaflux_chain a.rfq_id a.quote_idx a.size a.nonce
]

abbrev pub rfq_quote_type : String
rfq_quote_type =
    "MetaFluxTransaction:RfqQuote(string metafluxChain,uint64 rfqId,uint64 price,uint64 maxSize,uint64 validUntilMs,bool hasStpGroup,uint64 stpGroup,uint64 nonce)"

abbrev pub rfq_quote_with_owner_type : String
rfq_quote_with_owner_type =
    "MetaFluxTransaction:RfqQuote(string metafluxChain,address owner,uint64 rfqId,uint64 price,uint64 maxSize,uint64 validUntilMs,bool hasStpGroup,uint64 stpGroup,uint64 nonce)"

pub record RfqQuote : Type 0 where
  pub metaflux_chain : String
  pub owner : Option Address
  pub rfq_id : ℕ
  pub price : ℕ
  pub max_size : ℕ
  pub valid_until_ms : ℕ
  pub has_stp_group : Bool
  pub stp_group : ℕ
  pub nonce : ℕ

abbrev pub rfq_quote_words : String → ℕ → ℕ → ℕ → ℕ → Bool → ℕ → ℕ → List Field
rfq_quote_words chain rfq_id price max_size valid_until_ms has_stp_group stp_group nonce =
    field utf8_string chain
    ∷ field uint64 rfq_id
    ∷ field uint64 price
    ∷ field uint64 max_size
    ∷ field uint64 valid_until_ms
    ∷ field boolean has_stp_group
    ∷ field uint64 stp_group
    ∷ field uint64 nonce
    ∷ []

abbrev pub rfq_quote_words_with_owner : String → Address → ℕ → ℕ → ℕ → ℕ → Bool → ℕ → ℕ → List Field
rfq_quote_words_with_owner chain owner rfq_id price max_size valid_until_ms has_stp_group stp_group
      nonce =
    field utf8_string chain
    ∷ field address owner
    ∷ field uint64 rfq_id
    ∷ field uint64 price
    ∷ field uint64 max_size
    ∷ field uint64 valid_until_ms
    ∷ field boolean has_stp_group
    ∷ field uint64 stp_group
    ∷ field uint64 nonce
    ∷ []

abbrev pub rfq_quote_data : RfqQuote → List Field
rfq_quote_data a = elim a.owner [
  | some o ↦
      rfq_quote_words_with_owner a.metaflux_chain o a.rfq_id a.price a.max_size a.valid_until_ms
        a.has_stp_group a.stp_group a.nonce
  | none ↦
      rfq_quote_words a.metaflux_chain a.rfq_id a.price a.max_size a.valid_until_ms a.has_stp_group
        a.stp_group a.nonce
]

abbrev pub fba_submit_type : String
fba_submit_type =
    "MetaFluxTransaction:FbaSubmit(string metafluxChain,uint32 market,uint8 side,uint64 size,uint64 price,bool hasStpGroup,uint64 stpGroup,uint64 nonce)"

pub record FbaSubmit : Type 0 where
  pub metaflux_chain : String
  pub market : ℕ
  pub side : ℕ
  pub size : ℕ
  pub price : ℕ
  pub has_stp_group : Bool
  pub stp_group : ℕ
  pub nonce : ℕ

abbrev pub fba_submit_words : String → ℕ → ℕ → ℕ → ℕ → Bool → ℕ → ℕ → List Field
fba_submit_words chain market side size price has_stp_group stp_group nonce =
    field utf8_string chain
    ∷ field uint32 market
    ∷ field uint8 side
    ∷ field uint64 size
    ∷ field uint64 price
    ∷ field boolean has_stp_group
    ∷ field uint64 stp_group
    ∷ field uint64 nonce
    ∷ []

abbrev pub fba_submit_data : FbaSubmit → List Field
fba_submit_data a =
    fba_submit_words a.metaflux_chain a.market a.side a.size a.price a.has_stp_group a.stp_group
      a.nonce
