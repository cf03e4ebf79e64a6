-- ===== src/Trading.antt =====
-- The trading actions as they are signed (src/wallet/typed_orders.rs): the payloads of
-- src/types/order.rs, spot.rs, twap.rs, scale.rs and chase.rs, and the words of each. Addresses and
-- client order ids are numbers, as in Order.antt, and are signed as their 20 and 16 bytes; the hash and
-- the hexadecimal text of a client order id are parameters.
pub mod Strings
pub mod Digest
pub mod Conforms
pub mod Binding
pub mod Owner
pub mod Owned
pub mod Legs
mod Tests
use metaflux_client_rust.Base.{
  ℕ, String, List, [], ◌∷◌, ◌++◌, Bool, true, false, Option, none, some, Result, ok, err, ◌>>=◌,
  map, any, unwrap_or, and_then, if◌then◌else◌,
}
use metaflux_client_rust.Order.{
  Address, Side, bid, ask, OrderKind, limit, market, stop_loss, take_profit, TimeInForce, gtc, ioc,
  alo, PositionSide, long, short, StpMode, cancel_oldest, cancel_newest, cancel_both, TpSl, tp, sl,
  Trigger, Builder, Order, OrderGrouping, na, normal_tpsl, position_tpsl, BatchOrder,
}
use metaflux_client_rust.Place.{SpotOrder}
use metaflux_client_rust.Signing.{
  Bytes, to_be_bytes, zeros, concat, enc_u32, Field, field, uint64, uint32, uint16, boolean,
  address, utf8_string, bytes32, word,
}
use metaflux_client_rust.Requests.{prefixed, is_some}

pub record CancelOrder : Type 0 where
  pub owner : Address
  pub market_id : ℕ
  pub oid : Option ℕ
  pub cloid : Option ℕ

pub record Modify : Type 0 where
  pub market_id : ℕ
  pub oid : ℕ
  pub new_px : Option ℕ
  pub new_size : Option ℕ

pub record CancelByCloid : Type 0 where
  pub asset : ℕ
  pub cloid : ℕ

pub record ScheduleCancel : Type 0 where
  pub cancel_at_block : ℕ
  pub owner : Option Address

pub record SpotCancel : Type 0 where
  pub owner : Option Address
  pub pair : ℕ
  pub oid : ℕ

pub record TwapOrder : Type 0 where
  pub market_id : ℕ
  pub side : Side
  pub total_size : ℕ
  pub slice_count : ℕ
  pub delay_ms : ℕ
  pub reduce_only : Bool
  pub position_side : Option PositionSide
  pub randomize : Bool
  pub owner : Option Address

pub data ScaleDist : Type 0 where
  flat lin_asc lin_desc custom : ScaleDist

pub record ScaleParams : Type 0 where
  pub market_id : ℕ
  pub side : Side
  pub n : ℕ
  pub px_low : ℕ
  pub px_high : ℕ
  pub total_size : ℕ
  pub dist : ScaleDist
  pub weights : List ℕ
  pub tif : TimeInForce
  pub reduce_only : Bool
  pub stp_mode : StpMode
  pub position_side : Option PositionSide
  pub cloid : ℕ
  pub owner : Option Address

pub record CancelScaleParams : Type 0 where
  pub market_id : ℕ
  pub cloid : ℕ
  pub owner : Option Address

pub record ChaseParams : Type 0 where
  pub market_id : ℕ
  pub side : Side
  pub size : ℕ
  pub cloid : Option ℕ
  pub stp_mode : StpMode
  pub position_side : Option PositionSide
  pub interval_blocks : ℕ
  pub ttl_ms : ℕ
  pub max_reprices : ℕ
  pub owner : Option Address

pub record CancelChaseParams : Type 0 where
  pub market_id : ℕ
  pub chase_oid : ℕ
  pub owner : Option Address

-- A payload of one field is that field.
pub data TypedTradingAction : Type 0 where
  submit_order : Order → TypedTradingAction
  cancel_order : CancelOrder → TypedTradingAction
  spot_order : SpotOrder → TypedTradingAction
  spot_cancel : SpotCancel → TypedTradingAction
  cancel_by_cloid : CancelByCloid → TypedTradingAction
  modify : Modify → TypedTradingAction
  batch_modify : List Modify → TypedTradingAction
  schedule_cancel : ScheduleCancel → TypedTradingAction
  twap_order : TwapOrder → TypedTradingAction
  twap_cancel : ℕ → TypedTradingAction
  batch_order : BatchOrder → TypedTradingAction
  batch_cancel : List CancelOrder → TypedTradingAction
  scale_order : ScaleParams → TypedTradingAction
  cancel_scale : CancelScaleParams → TypedTradingAction
  chase_order : ChaseParams → TypedTradingAction
  cancel_chase : CancelChaseParams → TypedTradingAction

abbrev pub side_str : Side → String
side_str bid = "bid"
side_str ask = "ask"

abbrev pub kind_str : OrderKind → String
kind_str limit = "limit"
kind_str market = "market"
kind_str stop_loss = "stop_loss"
kind_str take_profit = "take_profit"

abbrev pub tif_str : TimeInForce → String
tif_str gtc = "gtc"
tif_str ioc = "ioc"
tif_str alo = "alo"

abbrev pub stp_str : StpMode → String
stp_str cancel_oldest = "cancel_oldest"
stp_str cancel_newest = "cancel_newest"
stp_str cancel_both = "cancel_both"

abbrev pub position_side_str : PositionSide → String
position_side_str long = "long"
position_side_str short = "short"

abbrev pub tpsl_str : TpSl → String
tpsl_str tp = "tp"
tpsl_str sl = "sl"

abbrev pub grouping_str : OrderGrouping → String
grouping_str na = "na"
grouping_str normal_tpsl = "normalTpsl"
grouping_str position_tpsl = "positionTpsl"

abbrev pub dist_str : ScaleDist → String
dist_str flat = "flat"
dist_str lin_asc = "lin_asc"
dist_str lin_desc = "lin_desc"
dist_str custom = "custom"

-- `map_or("", f)`.
abbrev pub or_empty : {A : Type 0} → (A → String) → Option A → String
or_empty f none = ""
or_empty f (some a) = f a

-- The 20 bytes of an address.
abbrev pub address_bytes : Address → Bytes
address_bytes a = to_be_bytes 20 a

-- The leg's trailing callback.
abbrev pub trail_of : Order → Option ℕ
trail_of o = and_then o.trigger λ t. t.trail_px

abbrev pub builder_fee : Option Builder → ℕ
builder_fee none = 0
builder_fee (some b) = b.fee

-- The word of no builder is zero, as that of the zero address.
abbrev pub builder_user : Option Builder → Bytes
builder_user none = zeros 20
builder_user (some b) = address_bytes b.user

abbrev pub trigger_px : Option Trigger → ℕ
trigger_px none = 0
trigger_px (some t) = t.trigger_px

abbrev pub trigger_is_market : Option Trigger → Bool
trigger_is_market none = false
trigger_is_market (some t) = t.is_market

abbrev pub trigger_tpsl : Option Trigger → String
trigger_tpsl none = ""
trigger_tpsl (some t) = tpsl_str t.tpsl

-- A trailing order signs one word more.
abbrev pub trail_data : Option ℕ → List Field
trail_data none = []
trail_data (some trail) = field uint64 trail ∷ []

abbrev pub modify_words : Modify → List Field
modify_words m =
    field uint32 m.market_id
    ∷ field uint64 m.oid
    ∷ field boolean (is_some m.new_px)
    ∷ field uint64 (unwrap_or m.new_px 0)
    ∷ field boolean (is_some m.new_size)
    ∷ field uint64 (unwrap_or m.new_size 0)
    ∷ field utf8_string ""
    ∷ field boolean false
    ∷ []

-- The messages of `ClientError::Validation` in this module.
pub data TradeError : Type 0 where
  no_typed_form : TradeError
  owner_mismatch : Address → Address → TradeError
  owner_not_in_payload : Address → TradeError

abbrev pub cancel_words : CancelOrder → Result TradeError (List Field)
cancel_words c = elim c.oid [
  | none ↦ err no_typed_form
  | some oid ↦ ok (field uint32 c.market_id ∷ field uint64 oid ∷ [])
]

-- The loop over the cancels of a batch.
abbrev pub all_cancel_words : List CancelOrder → Result TradeError (List Field)
all_cancel_words [] = ok []
all_cancel_words (c ∷ cs) = cancel_words c >>= λ ws. all_cancel_words cs >>= λ rest. ok (ws ++ rest)

-- `flat_map` over the items of a batch.
abbrev pub flat_data {ℓ} : {A : Type ℓ} → (A → List Field) → List A → List Field
flat_data f [] = []
flat_data f (a ∷ l) = f a ++ flat_data f l

-- How a leg trails: whether it does, and by how much.
abbrev pub trail_words : Order → List Field
trail_words o = field boolean (is_some (trail_of o)) ∷ field uint64 (unwrap_or (trail_of o) 0) ∷ []

abbrev pub trails : Order → Bool
trails o = is_some (trail_of o)

module _ (keccak : Bytes → Bytes) where
  -- `hash_items`, of the words of some fields.
  abbrev pub hash_items : List Field → Bytes
  hash_items items = keccak (concat (map (word keccak) items))

  abbrev pub hash_trail_pxs : List Order → Bytes
  hash_trail_pxs orders = hash_items (flat_data trail_words orders)

  abbrev pub scale_weights_hash : ScaleDist → List ℕ → Bytes
  scale_weights_hash custom weights = hash_items (map (field uint32) weights)
  scale_weights_hash flat weights = zeros 32
  scale_weights_hash lin_asc weights = zeros 32
  scale_weights_hash lin_desc weights = zeros 32

module _ (hex_encode : Bytes → String) where
  abbrev pub cloid_text : ℕ → String
  cloid_text c = prefixed hex_encode (to_be_bytes 16 c)

  abbrev pub cloid_str : Option ℕ → String
  cloid_str c = or_empty cloid_text c

  abbrev pub order_words : Order → List Field
  order_words o =
      field uint32 o.market_id
      ∷ field utf8_string (side_str o.side)
      ∷ field utf8_string (kind_str o.kind)
      ∷ field uint64 o.size
      ∷ field uint64 o.limit_px
      ∷ field utf8_string (tif_str o.tif)
      ∷ field utf8_string (stp_str o.stp_mode)
      ∷ field boolean o.reduce_only
      ∷ field utf8_string (cloid_str o.cloid)
      ∷ field uint16 (builder_fee o.builder)
      ∷ field address (builder_user o.builder)
      ∷ field utf8_string (or_empty position_side_str o.position_side)
      ∷ field uint64 (trigger_px o.trigger)
      ∷ field boolean (trigger_is_market o.trigger)
      ∷ field utf8_string (trigger_tpsl o.trigger)
      ∷ []
